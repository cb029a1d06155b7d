-- ===== src/Handlers/Jobs/Tests.antt =====
-- The job handlers at concrete inputs.
use siger_api_gateway.Common.{
  ◌≡◌, refl, ◌⊎◌, ◌==◌, String, none, some, [], ◌∷◌, ◌+◌, arith, if◌then◌else◌, pos, true, false,
  ne_of_eq_false, Map, lookup, store,
}
use siger_api_gateway.Http.{
  Request, Writer, returned, status_of, fresh_writer, plain, value, or_empty, http_error, null,
  encode,
}
use siger_api_gateway.Middleware.Auth.Library.{Jwt, UserClaims, parsed, parse_failed}
use siger_api_gateway.Middleware.Auth.{jwt_auth}
use siger_api_gateway.Storage.Expected.{as_updated}
use siger_api_gateway.Storage.{
  JobInfo, ok, err, err_job_not_found, get_job, add_job, updated, new_job_store, list_jobs_by_user,
  list_jobs_by_status,
}
use siger_api_gateway.Messaging.{Broker, NatsClient, publish, publish_to_stream}
use siger_api_gateway.Handlers.Jobs.Encoding.{
  JobRequest, job_message_json, job_response_json, cancel_message_json, responses_json,
}
use siger_api_gateway.Handlers.Jobs.{
  JobSubmissionHandler, Env, request, malformed, Decoded, submit, submit_job, get_job_status,
  cancel_job, list_jobs, list_jobs_by_status_handler,
}
use siger_api_gateway.Handlers.Jobs.Submit.{
  IsComplete, IsBad, submit_outcome, queued_job, after_submit, submit_job_cases, submit_lem,
}
use siger_api_gateway.Handlers.Jobs.Cancel.{cancel_job_cases, cancel_outcome}
use siger_api_gateway.Handlers.Jobs.Access.{list_jobs-jwt_auth}

handlers : Unit {0}
unfolding submit_job get_job_status cancel_job list_jobs list_jobs_by_status_handler add_job get_job
    new_job_store http_error encode publish publish_to_stream value lookup store list_jobs_by_user
    list_jobs_by_status responses_json job_message_json job_response_json jwt_auth
    cancel_message_json updated
handlers = tt

abbrev training : JobRequest
training = record {
  type = "ai_training";
  name = "n";
  description = "";
  gpu_type = "any";
  gpu_count = pos 2;
  priority = pos 0;
  params = null;
  tags = [];
}

-- A broker that takes every message but one on the stream subject "jobs.inference".
abbrev picky : Broker
picky = record {
  core = λ subject message. none;
  stream = λ subject message. if subject == "jobs.inference" then some "no space" else none;
}

abbrev decode : String → Decoded
decode body =
    if body == "train"
    then request training
    else if body == "infer"
    then request (record training { type = "inference" })
    else if body == "empty"
    then request (record training { gpu_count = pos 0 })
    else malformed "EOF"

abbrev env : Env
env = record { clock = λ k. k + 5; uuid = "id-1"; decode = decode; broker = picky }

abbrev client : NatsClient
client = record {
  config = record { url = "nats://h"; stream = "jobs"; max_age = "24h"; replicas = pos 1 };
  has_store = true;
  initialized = true;
}

handler : JobSubmissionHandler
unfolding new_job_store
handler = record { job_store = new_job_store (pos 10); nats = some client; sent = [] }

abbrev ask : String → Map String → Request
ask body params = record {
  method = "POST";
  path = "/jobs";
  query = "";
  headers = ("Authorization", "Bearer t") ∷ [];
  remote_addr = "1.2.3.4:5";
  tls = false;
  body = body;
  params = params;
  context = [];
}

abbrev job_id_param : Request
job_id_param = ask "" (("jobID", "id-1") ∷ [])

submit_tests :
    (status_of (submit_job env (ask "train" []) handler fresh_writer) ≡ some 202)
    × (status_of (submit_job env (ask "infer" []) handler fresh_writer) ≡ some 500)
    × (status_of (submit_job env (ask "empty" []) handler fresh_writer) ≡ some 400)
    × (status_of (submit_job env (ask "" []) handler fresh_writer) ≡ some 400)
    × (status_of (get_job_status env job_id_param handler fresh_writer) ≡ some 404)
    × (status_of (cancel_job env (ask "" []) handler fresh_writer) ≡ some 400)
    × (status_of (list_jobs (ask "" []) handler fresh_writer) ≡ some 401)
unfolding handler handlers
submit_tests = (refl, refl, refl, refl, refl, refl, refl)

submitted : JobSubmissionHandler
unfolding after_submit
submitted = after_submit env "u" training handler

-- A JWT library for which "t" is the one valid token, of an administrator.
abbrev toy_claims : UserClaims
toy_claims = record {
  user_id = "1";
  username = "admin";
  role = "admin";
  expires_at = some 100;
  not_before = none;
  issued_at = some 0;
  issuer = "siger-api-gateway";
}

abbrev toy_jwt : Jwt
toy_jwt = record {
  parse_with_claims =
      λ token keys now. if token == "t" then parsed toy_claims true else parse_failed;
  signed_string = λ m claims key. none;
  method_of = λ token. none;
  claims_of = λ token. none;
  verifies = λ m key token. false;
  numeric_date = λ t. t;
}

list_jobs-jwt_auth_example :
    status_of (jwt_auth toy_jwt "s" 3 list_jobs (ask "" []) handler fresh_writer) ≡ some 401
unfolding value
list_jobs-jwt_auth_example = list_jobs-jwt_auth toy_jwt "s" 3 (ask "" []) handler refl

submit_job_cases_example :
    ((q : JobRequest) × (env.decode "train" ≡ request q)
      × IsComplete q
      × (submit_job env (ask "train" []) handler fresh_writer
          ≡ submit env (or_empty (value (plain "user_id") [])) q handler fresh_writer))
    ⊎ (IsBad (env.decode "train")
        × ((message : String) × (submit_job env (ask "train" []) handler fresh_writer
              ≡ returned handler (http_error message 400 fresh_writer))))
submit_job_cases_example = submit_job_cases env (ask "train" []) handler fresh_writer

submit_lem_example :
    (h : JobSubmissionHandler) × (out : Writer) × (submit env "u" training handler fresh_writer
      ≡ returned h out)
    × (out.status ≡ some (submit_outcome env "u" training handler).1)
    × (h.sent ≡ (submit_outcome env "u" training handler).0)
    × (get_job "id-1" h.job_store ≡ (
        if "id-1" == "id-1"
        then ok (queued_job env "u" training handler)
        else get_job "id-1" handler.job_store))
submit_lem_example =
    submit_lem env "u" training handler "id-1" (ne_of_eq_false "id-1" "" refl) (omega arith)

cancel_job_cases_example :
    ((get_job "id-1" submitted.job_store ≡ err err_job_not_found)
      × (cancel_job env job_id_param submitted fresh_writer
          ≡ returned submitted (http_error "Job not found" 404 fresh_writer)))
    ⊎ ((job : JobInfo) × (h : JobSubmissionHandler) × (out : Writer) × (get_job "id-1"
            submitted.job_store
          ≡ ok job)
        × (cancel_job env job_id_param submitted fresh_writer ≡ returned h out)
        × (out.status ≡ some (cancel_outcome env submitted "id-1").1)
        × (h.sent ≡ (cancel_outcome env submitted "id-1").0)
        × (get_job "id-2" h.job_store ≡ (
            if "id-1" == "id-2"
            then ok (as_updated 5 "cancelled" "Job cancellation requested" job)
            else get_job "id-2" submitted.job_store)))
unfolding lookup
cancel_job_cases_example =
    cancel_job_cases env submitted "id-1" job_id_param "id-2" refl (ne_of_eq_false "id-1" "" refl)
