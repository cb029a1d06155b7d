-- ===== src/Handlers/Jobs/Access.antt =====
-- Who gets at the jobs: the handlers read the user under plain text keys, and the JWT middleware
-- stores the user under keys of its own type.
use siger_api_gateway.Common.{
  ◌≡◌, refl, ◌⊎◌, inl, inr, ◌==◌, String, none, some, [], arith, Time, if◌then◌else◌,
}
use siger_api_gateway.Http.{
  Request, Writer, returned, status_of, fresh_writer, plain, value, Context, http_error, url_param,
}
use siger_api_gateway.Middleware.Auth.Library.{Jwt, UserClaims}
use siger_api_gateway.Middleware.Auth.{jwt_auth, user_context}
use siger_api_gateway.Middleware.Auth.Guards.{jwt_auth-Outcome}
use siger_api_gateway.Handlers.Jobs.{
  JobSubmissionHandler, Env, list_jobs, list_jobs_by_status_handler, submit_job,
}

value-plain :
    (key : String) (claims : UserClaims) (ctx : Context)
    → value (plain key) (user_context claims ctx) ≡ value (plain key) ctx
unfolding value user_context
value-plain key claims ctx = refl

status-http_error :
    (message : String) (out : Writer) → (http_error message 401 fresh_writer).status ≡ some 401
unfolding http_error
status-http_error message out = refl

module _ (jwt : Jwt) (secret : String) (now : Time) (r : Request) (h : JobSubmissionHandler) where
  -- The bug: behind the JWT middleware `ListJobs` answers 401 to every request, also to one with a
  -- valid token, unless something else put a plain "user_id" in the request's context.
  pub list_jobs-jwt_auth :
      value (plain "user_id") r.context ≡ none
      → status_of (jwt_auth jwt secret now list_jobs r h fresh_writer) ≡ some 401
  unfolding list_jobs http_error
  list_jobs-jwt_auth absent = elim (jwt_auth-Outcome jwt secret now list_jobs r h fresh_writer) [
    | inl (claims, e) ↦ rw e (rw (value-plain "user_id" claims r.context, absent) refl)
    | inr (message, e) ↦ rw e refl
  ]

  -- So does `ListJobsByStatus` refuse every request, an administrator's too: with 400, 401 or 403.
  pub list_jobs_by_status-jwt_auth :
      value (plain "user_role") r.context ≡ none
      → (status_of (jwt_auth jwt secret now list_jobs_by_status_handler r h fresh_writer)
          ≡ some 401)
        ⊎ (status_of (jwt_auth jwt secret now list_jobs_by_status_handler r h fresh_writer)
            ≡ some (if url_param "status" r == "" then 400 else 403))
  unfolding list_jobs_by_status_handler http_error
  list_jobs_by_status-jwt_auth absent =
      elim (jwt_auth-Outcome jwt secret now list_jobs_by_status_handler r h fresh_writer) [
        | inl (claims, e) ↦
            inr (rw e (ground (arith, value-plain "user_role" claims r.context, absent)))
        | inr (message, e) ↦ inl (rw e refl)
      ]

  -- And `SubmitJob` behind the middleware behaves as for a request without a user: the job that it
  -- stores and publishes has no owner.
  pub submit_job-jwt_auth :
      (env : Env) (out : Writer)
      → value (plain "user_id") r.context ≡ none
      → (jwt_auth jwt secret now (submit_job env) r h out
          ≡ submit_job env (record r { context = [] }) h out)
        ⊎ ((message : String) × (jwt_auth jwt secret now (submit_job env) r h out
              ≡ returned h (http_error message 401 out)))
  unfolding submit_job value
  submit_job-jwt_auth env out absent =
      elim (jwt_auth-Outcome jwt secret now (submit_job env) r h out) [
        | inl (claims, e) ↦ inl (rw e (rw (value-plain "user_id" claims r.context, absent) refl))
        | inr (message, e) ↦ inr (message, e)
      ]
