-- ===== src/Handlers/Jobs.antt =====
-- internal/handlers/job_submission.go: the job handlers over the job store and the NATS client. The
-- clock, the new UUID, the JSON decoder's answer and the broker are arguments.
pub mod Encoding
pub mod Submit
pub mod Published
pub mod Access
pub mod Cancel
pub mod Tests
use siger_api_gateway.Common.{
  ℕ, Bool, true, false, not, ◌&&◌, ◌||◌, ◌==◌, String, Option, none, some, List, [], ◌∷◌, ◌++◌, map,
  concat, if◌then◌else◌, Time, ℤ, ltb_ℤ,
}
use siger_api_gateway.Http.{
  Json, Handler, Request, Writer, Reply, returned, plain, value, url_param, or_empty, http_error,
  encode, set_header, write_header, write, json,
}
use siger_api_gateway.Storage.{
  JobInfo, JobStore, JobStatus, Result, ok, err, StoreError, err_job_not_found, invalid_job_data,
  add_job, get_job, update_job_status, list_jobs_by_user, list_jobs_by_status, job_status_queued,
  job_status_cancelled,
}
use siger_api_gateway.Messaging.{NatsClient, Broker, Sent, publish, publish_to_stream}
use Encoding.{
  JobRequest, JobResponse, JobMessage, CancelMessage, job_response_json, job_message_json,
  cancel_message_json, responses_json,
}

-- The decoder's answer to a body: a request, or the text of its error.
pub data Decoded : Type 0 where
  request : JobRequest → Decoded
  malformed : String → Decoded

-- What a handler reads from outside; `clock k` is its reading number `k` of the clock.
pub record Env : Type 0 where
  pub clock : ℕ → Time
  pub uuid : String
  pub decode : String → Decoded
  pub broker : Broker

-- The handler's fields, and what has been published. `nats` is `none` for a nil client.
pub record JobSubmissionHandler : Type 0 where
  pub job_store : JobStore
  pub nats : Option NatsClient
  pub sent : Sent

abbrev error_text : StoreError → String
error_text err_job_not_found = "job not found"
error_text invalid_job_data = "invalid job data"

-- The message of the first check that the request fails.
unfoldable pub validation_error : JobRequest → Option String
validation_error q =
    if q.type == ""
    then some "Job type is required"
    else if q.name == ""
    then some "Job name is required"
    else if ltb_ℤ q.gpu_count 1
    then some "GPU count must be at least 1"
    else none

abbrev pub new_job : Env → String → JobRequest → JobInfo
new_job env user q = record {
  job_id = env.uuid;
  user_id = user;
  type = q.type;
  name = q.name;
  status = job_status_queued;
  submitted_at = env.clock 0;
  started_at = 0;
  completed_at = 0;
  message = "Job submitted successfully";
}

abbrev pub new_message : Env → String → JobRequest → JobMessage
new_message env user q = record {
  job_id = env.uuid;
  user_id = user;
  request = q;
  timestamp = env.clock 0;
}

-- The publishing of `SubmitJob` and of `CancelJob`, where the client may be nil.
unfoldable pub publish_job :
    Broker → String → Json → Option NatsClient → Sent → Sent × Option String
publish_job broker subject message none sent = (sent, none)
publish_job broker subject message (some c) sent = publish_to_stream broker subject message c sent

unfoldable pub publish_core :
    Broker → String → Json → Option NatsClient → Sent → Sent × Option String
publish_core broker subject message none sent = (sent, none)
publish_core broker subject message (some c) sent = publish broker subject message c sent

submit_reply :
    Env → JobSubmissionHandler → Sent × Option String → Writer → Reply JobSubmissionHandler
submit_reply env h (sent, some e) out =
    returned (record h { sent = sent }) (http_error (concat "Failed to submit job: " e) 500 out)
submit_reply env h (sent, none) out =
    returned (record h { sent = sent })
      (write
        (json (
          job_response_json (record {
            job_id = env.uuid;
            status = job_status_queued;
            timestamp = env.clock 0;
            message = "Job submitted successfully";
          })))
        (write_header 202 (set_header "Content-Type" "application/json" out)))

-- The part of `SubmitJob` after the validation; `clock 1` is the clock of `AddJob`.
unfoldable pub submit :
    Env → String → JobRequest → JobSubmissionHandler → Writer → Reply JobSubmissionHandler
unfolding submit_reply publish_job
submit env user q h out =
    submit_reply env
      (record h { job_store = add_job (env.clock 1) (new_job env user q) h.job_store })
      (publish_job env.broker (concat "jobs." q.type) (job_message_json (new_message env user q))
        h.nats h.sent)
      out

validated :
    Env
    → String
    → JobRequest
    → Option String
    → JobSubmissionHandler
    → Writer
    → Reply JobSubmissionHandler
unfolding submit
validated env user q (some e) h out = returned h (http_error e 400 out)
validated env user q none h out = submit env user q h out

decoded : Env → String → Decoded → JobSubmissionHandler → Writer → Reply JobSubmissionHandler
unfolding validated validation_error
decoded env user (malformed e) h out =
    returned h (http_error (concat "Invalid request body: " e) 400 out)
decoded env user (request q) h out = validated env user q (validation_error q) h out

-- The handlers look the user up under the plain text key "user_id".
unfoldable pub submit_job : Env → Handler JobSubmissionHandler
unfolding decoded
submit_job env r h out =
    decoded env (or_empty (value (plain "user_id") r.context)) (env.decode r.body) h out

store_failure : String → StoreError → Writer → Writer
store_failure prefix err_job_not_found out = http_error "Job not found" 404 out
store_failure prefix invalid_job_data out =
    http_error (concat prefix (error_text invalid_job_data)) 500 out

status_reply : Env → Result JobInfo → Writer → Writer
unfolding store_failure
status_reply env (err e) out = store_failure "Failed to get job status: " e out
status_reply env (ok job) out =
    encode
      (job_response_json (record {
        job_id = job.job_id;
        status = job.status;
        timestamp = env.clock 0;
        message = job.message;
      }))
      out

unfoldable pub get_job_status : Env → Handler JobSubmissionHandler
unfolding status_reply
get_job_status env r h out =
    if url_param "jobID" r == ""
    then returned h (http_error "Job ID is required" 400 out)
    else returned h (status_reply env (get_job (url_param "jobID" r) h.job_store) out)

cancel_reply :
    Env → String → JobSubmissionHandler → Sent × Option String → Writer → Reply JobSubmissionHandler
cancel_reply env id h (sent, some e) out =
    returned (record h { sent = sent }) (http_error (concat "Failed to cancel job: " e) 500 out)
cancel_reply env id h (sent, none) out =
    returned (record h { sent = sent })
      (encode
        (job_response_json (record {
          job_id = id;
          status = job_status_cancelled;
          timestamp = env.clock 2;
          message = "Job cancellation requested";
        }))
        out)

cancelled :
    Env → String → JobSubmissionHandler → Result JobStore → Writer → Reply JobSubmissionHandler
unfolding cancel_reply publish_core
cancelled env id h (err e) out =
    returned h (http_error (concat "Failed to cancel job: " (error_text e)) 500 out)
cancelled env id h (ok s) out =
    cancel_reply env id (record h { job_store = s })
      (publish_core env.broker "jobs.cancel"
        (cancel_message_json (record { job_id = id; timestamp = env.clock 1 })) h.nats h.sent)
      out

cancel_found :
    Env → String → Result JobInfo → JobSubmissionHandler → Writer → Reply JobSubmissionHandler
unfolding cancelled store_failure
cancel_found env id (err e) h out = returned h (store_failure "Failed to cancel job: " e out)
cancel_found env id (ok job) h out =
    cancelled env id h
      (update_job_status (env.clock 0) id job_status_cancelled "Job cancellation requested"
        h.job_store)
      out

unfoldable pub cancel_job : Env → Handler JobSubmissionHandler
unfolding cancel_found
cancel_job env r h out =
    if url_param "jobID" r == ""
    then returned h (http_error "Job ID is required" 400 out)
    else cancel_found env (url_param "jobID" r) (get_job (url_param "jobID" r) h.job_store) h out

-- The response for a job in a list.
abbrev pub listed : JobInfo → JobResponse
listed job = record {
  job_id = job.job_id;
  status = job.status;
  timestamp = job.submitted_at;
  message = job.message;
}

list_for : Option String → JobSubmissionHandler → Writer → Writer
list_for none h out = http_error "User ID not found in request context" 401 out
list_for (some user) h out =
    encode (responses_json (map listed (list_jobs_by_user user h.job_store))) out

unfoldable pub list_jobs : Handler JobSubmissionHandler
unfolding list_for
list_jobs r h out = returned h (list_for (value (plain "user_id") r.context) h out)

-- `role == nil || role.(string) != "admin"`
abbrev is_admin : Option String → Bool
is_admin none = false
is_admin (some role) = role == "admin"

unfoldable pub list_jobs_by_status_handler : Handler JobSubmissionHandler
list_jobs_by_status_handler r h out =
    if url_param "status" r == ""
    then returned h (http_error "Status parameter is required" 400 out)
    else if not (is_admin (value (plain "user_role") r.context))
    then returned h (http_error "Unauthorized: admin role required" 403 out)
    else returned h (
        encode
          (responses_json (map listed (list_jobs_by_status (url_param "status" r) h.job_store)))
          out)
