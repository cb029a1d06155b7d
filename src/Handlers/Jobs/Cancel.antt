-- ===== src/Handlers/Jobs/Cancel.antt =====
-- What `CancelJob` and `GetJobStatus` do.
use siger_api_gateway.Common.{
  ℕ, ◌≡◌, refl, ap, ◌∙◌, ◌≢◌, ◌⊎◌, inl, inr, ◌==◌, String, Option, none, some, ne→eq_false,
  if◌then◌else◌,
}
use siger_api_gateway.Http.{
  Request, Writer, returned, fresh_writer, http_error, encode, url_param, obj, field, str, time,
  end,
}
use siger_api_gateway.Storage.{JobInfo, ok, err, err_job_not_found, get_job, job_status_cancelled}
use siger_api_gateway.Storage.Expected.{as_updated, updated-as_updated}
use siger_api_gateway.Handlers.Jobs.Published.{outcome, status_for, IsOutcome, publish_core-outcome}
use siger_api_gateway.Storage.Lookup.{update_job_status_cases}
use siger_api_gateway.Messaging.{Sent}
use siger_api_gateway.Handlers.Jobs.Encoding.{cancel_message_json}
use siger_api_gateway.Handlers.Jobs.{
  JobSubmissionHandler, Env, cancel_job, cancel_reply, publish_core,
}

module _ (env : Env) (h : JobSubmissionHandler) (id : String) where
  abbrev pub notice : Sent × Option String
  notice =
      publish_core env.broker "jobs.cancel"
        (cancel_message_json (record { job_id = id; timestamp = env.clock 1 })) h.nats h.sent

  cancel_reply_lem :
      (g : JobSubmissionHandler) (p : Sent × Option String)
      → (out : Writer) × (cancel_reply env id g p fresh_writer
          ≡ returned (record g { sent = p.0 }) out)
        × (out.status ≡ some (status_for 200 p.1))
  unfolding cancel_reply http_error encode
  cancel_reply_lem g (sent, none) = (_, refl, refl)
  cancel_reply_lem g (sent, some e) = (_, refl, refl)

  -- What is to become of the cancellation's message.
  abbrev pub cancel_outcome : Sent × ℕ
  cancel_outcome =
      let message = obj (field "job_id" (str id) (field "timestamp" (time (env.clock 1)) end)) in
      outcome 200 h.nats (env.broker.core "jobs.cancel" message) "jobs.cancel" message h.sent

  notice-cancel_outcome : IsOutcome 200 notice cancel_outcome
  unfolding cancel_message_json
  notice-cancel_outcome =
      publish_core-outcome 200 env.broker "jobs.cancel"
        (cancel_message_json (record { job_id = id; timestamp = env.clock 1 })) h.sent h.nats

  -- For a request with a job's ID, `CancelJob` answers 404 and changes nothing if the job is not stored.
  -- Otherwise it makes the job's status "cancelled", whatever it was, ends it now, leaves the other
  -- jobs, and sends the cancellation, if there is a client, with the answer 200; if the broker refuses
  -- that, the answer is 500 and the job stays cancelled.
  pub cancel_job_cases :
      (r : Request) (j : String)
      → url_param "jobID" r ≡ id
      → id ≢ ""
      → ((get_job id h.job_store ≡ err err_job_not_found)
          × (cancel_job env r h fresh_writer
              ≡ returned h (http_error "Job not found" 404 fresh_writer)))
        ⊎ ((job : JobInfo) × (h' : JobSubmissionHandler) × (out : Writer) × (get_job id h.job_store
              ≡ ok job)
            × (cancel_job env r h fresh_writer ≡ returned h' out)
            × (out.status ≡ some cancel_outcome.1)
            × (h'.sent ≡ cancel_outcome.0)
            × (get_job j h'.job_store ≡ (
                if id == j
                then ok (as_updated (env.clock 0) "cancelled" "Job cancellation requested" job)
                else get_job j h.job_store)))
  unfolding cancel_job
  cancel_job_cases r j asked named =
      elim (update_job_status_cases (env.clock 0) id j job_status_cancelled
        "Job cancellation requested" h.job_store) [
          | inl (missing, _) ↦ inl (missing, rw (asked, ne→eq_false id "" named, missing) refl)
          | inr (job, s, found, done, limit, here) ↦
              let (out, e, st) = cancel_reply_lem (record h { job_store = s }) notice in
              inr (
                job,
                record h { job_store = s; sent = notice.0 },
                out,
                found,
                rw (asked, ne→eq_false id "" named, found) (rw done e),
                st ∙ ap some notice-cancel_outcome.1,
                notice-cancel_outcome.0,
                here
                    ∙ rw
                        (updated-as_updated (env.clock 0) job_status_cancelled
                          "Job cancellation requested" job)
                        refl,
              )
        ]
