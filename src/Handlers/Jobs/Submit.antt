-- ===== src/Handlers/Jobs/Submit.antt =====
-- What `SubmitJob` stores, publishes and answers.
use siger_api_gateway.Common.{
  ℕ, ◌≤◌, ◌≡◌, refl, ap, ◌∙◌, ◌≢◌, ◌⊎◌, inl, inr, ◌==◌, String, Option, none, some, arith, concat,
  ne→eq_false, eq_iff, eq_refl, if◌then◌else◌, ℤ, pos, negsuc, to_nat, Option-cases,
}
use siger_api_gateway.Http.{
  Request, Writer, returned, fresh_writer, plain, value, or_empty, http_error, encode, write,
  write_header, set_header, url_param,
}
use siger_api_gateway.Storage.{JobInfo, ok, get_job, add_job, job_status_queued}
use siger_api_gateway.Storage.Lookup.{get_job-add_job}
use siger_api_gateway.Messaging.{Sent}
use siger_api_gateway.Handlers.Jobs.Published.{outcome, status_for, publish_job-outcome}
use siger_api_gateway.Handlers.Jobs.Encoding.{JobRequest, job_message_json, job_response_json}
use siger_api_gateway.Handlers.Jobs.{
  JobSubmissionHandler, Env, request, malformed, Decoded, validation_error, decoded, submit,
  submit_job, submit_reply, new_job, new_message, publish_job, get_job_status,
}

-- A request with a type, a name and at least one GPU.
pub record IsComplete (q : JobRequest) : Type 0 where
  pub typed : q.type ≢ ""
  pub named : q.name ≢ ""
  pub sized : 1 ≤ to_nat q.gpu_count

validation_error-none :
    (q : JobRequest) (n : ℤ) → q.gpu_count ≡ n → validation_error q ≡ none → IsComplete q
unfolding validation_error
validation_error-none q (pos n) g h = record {
  typed = λ e. ground (arith, eq_iff q.type "");
  named = λ e. ground (arith, eq_iff q.name "");
  sized = ground arith;
}
validation_error-none q (negsuc n) g h = ground arith

validation_error_of_IsComplete :
    (q : JobRequest) (n : ℤ) → q.gpu_count ≡ n → IsComplete q → validation_error q ≡ none
unfolding validation_error
validation_error_of_IsComplete q (pos n) g c =
    ground (arith, ne→eq_false q.type "" c.typed, ne→eq_false q.name "" c.named, c.sized)
validation_error_of_IsComplete q (negsuc n) g c = absurd (ground (arith, c.sized, ap to_nat g))

-- A body that does not decode to a complete request.
abbrev pub IsBad : Decoded → Type 0
IsBad (malformed e) = Unit
IsBad (request q) = ¬ IsComplete q

decoded_cases :
    (env : Env) (user : String) (d : Decoded) (h : JobSubmissionHandler) (out : Writer)
    → ((q : JobRequest) × (d ≡ request q)
        × IsComplete q
        × (decoded env user d h out ≡ submit env user q h out))
      ⊎ (IsBad d
          × ((message : String) × (decoded env user d h out
                ≡ returned h (http_error message 400 out))))
unfolding decoded
decoded_cases env user (malformed e) h out = inr (tt, (concat "Invalid request body: " e, refl))
decoded_cases env user (request q) h out = elim (Option-cases (validation_error q)) [
  | inl e ↦ inl (q, refl, validation_error-none q q.gpu_count refl e, rw e refl)
  | inr (message, e) ↦
      inr ((λ c. cc (e, validation_error_of_IsComplete q q.gpu_count refl c)), (message, rw e refl))
]

-- `SubmitJob` submits the job of a body that decodes to a complete request; to any other body it
-- answers 400, and stores and publishes nothing.
pub submit_job_cases :
    (env : Env) (r : Request) (h : JobSubmissionHandler) (out : Writer)
    → ((q : JobRequest) × (env.decode r.body ≡ request q)
        × IsComplete q
        × (submit_job env r h out
            ≡ submit env (or_empty (value (plain "user_id") r.context)) q h out))
      ⊎ (IsBad (env.decode r.body)
          × ((message : String) × (submit_job env r h out
                ≡ returned h (http_error message 400 out))))
unfolding submit_job
submit_job_cases env r h out =
    decoded_cases env (or_empty (value (plain "user_id") r.context)) (env.decode r.body) h out

module _ (env : Env) (user : String) (q : JobRequest) (h : JobSubmissionHandler) where
  abbrev pub published : Sent × Option String
  published =
      publish_job env.broker (concat "jobs." q.type) (job_message_json (new_message env user q))
        h.nats h.sent

  -- The handler after a submission.
  unfoldable pub after_submit : JobSubmissionHandler
  after_submit = record h {
    job_store = add_job (env.clock 1) (new_job env user q) h.job_store;
    sent = published.0;
  }

  submit_reply_lem :
      (p : Sent × Option String)
      → (out : Writer) × (submit_reply env
            (record h { job_store = add_job (env.clock 1) (new_job env user q) h.job_store })
            p
            fresh_writer
          ≡ returned
              (record h {
                job_store = add_job (env.clock 1) (new_job env user q) h.job_store;
                sent = p.0;
              })
              out)
        × (out.status ≡ some (status_for 202 p.1))
  unfolding submit_reply http_error set_header write_header write
  submit_reply_lem (sent, none) = (_, refl, refl)
  submit_reply_lem (sent, some e) = (_, refl, refl)

  submit-after_submit :
      (j : String)
      → env.uuid ≢ ""
      → env.clock 0 ≢ 0
      → (out : Writer) × (submit env user q h fresh_writer ≡ returned after_submit out)
        × (out.status ≡ some (status_for 202 published.1))
        × (after_submit.sent ≡ published.0)
        × (get_job j after_submit.job_store
            ≡ (if env.uuid == j then ok (new_job env user q) else get_job j h.job_store))
  unfolding submit after_submit
  submit-after_submit j fresh started =
      let (out, e, s) = submit_reply_lem published in
      (
        out,
        e,
        s,
        refl,
        ground (
          arith,
          get_job-add_job (env.clock 1) (new_job env user q) j h.job_store,
          ne→eq_false env.uuid "" fresh,
        ),
      )

  -- The job that a submission is to store.
  abbrev pub queued_job : JobInfo
  queued_job = record {
    job_id = env.uuid;
    user_id = user;
    type = q.type;
    name = q.name;
    status = "queued";
    submitted_at = env.clock 0;
    started_at = 0;
    completed_at = 0;
    message = "Job submitted successfully";
  }

  -- What is to become of its message.
  abbrev pub submit_outcome : Sent × ℕ
  submit_outcome =
      let subject = concat "jobs." q.type in
      let message = job_message_json (new_message env user q) in
      outcome 202 h.nats (env.broker.stream subject message) subject message h.sent

  -- For a new ID and a time that are not empty: a submission stores the job under its new ID as queued, and
  -- leaves every other job as it was. Its message is sent to the stream, if there is a client, and the
  -- answer is 202; or it is 500, if the broker refuses the message, and then the job stays stored.
  pub submit_lem :
      (j : String)
      → env.uuid ≢ ""
      → env.clock 0 ≢ 0
      → (h' : JobSubmissionHandler) × (out : Writer) × (submit env user q h fresh_writer
          ≡ returned h' out)
        × (out.status ≡ some submit_outcome.1)
        × (h'.sent ≡ submit_outcome.0)
        × (get_job j h'.job_store
            ≡ (if env.uuid == j then ok queued_job else get_job j h.job_store))
  submit_lem j fresh started =
      let (out, e, s, sent, found) = submit-after_submit j fresh started in
      let (sent', status) =
        publish_job-outcome 202 env.broker (concat "jobs." q.type)
          (job_message_json (new_message env user q)) h.sent h.nats in
      (after_submit, out, e, s ∙ ap some status, sent ∙ sent', found)

  -- The new job can be asked for at once: its status is "queued".
  pub get_job_status-submit :
      (env' : Env) (r : Request)
      → env.uuid ≢ ""
      → env.clock 0 ≢ 0
      → url_param "jobID" r ≡ env.uuid
      → get_job_status env' r after_submit fresh_writer
        ≡ returned after_submit (
            encode
              (job_response_json (record {
                job_id = env.uuid;
                status = job_status_queued;
                timestamp = env'.clock 0;
                message = "Job submitted successfully";
              }))
              fresh_writer)
  unfolding get_job_status
  get_job_status-submit env' r fresh started asked =
      let (out, e, s, p, found) = submit-after_submit env.uuid fresh started in
      let found' : get_job env.uuid after_submit.job_store ≡ ok (new_job env user q) =
        ground (arith, found, eq_refl env.uuid) in
      rw (asked, ne→eq_false env.uuid "" fresh, found') refl
