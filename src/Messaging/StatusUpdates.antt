-- ===== src/Messaging/StatusUpdates.antt =====
-- The handler of status updates in internal/messaging/nats.go.
pub mod Effect
pub mod Lost
use siger_api_gateway.Common.{
  ℕ, ◌≡◌, refl, ◌≢◌, Bool, true, false, ◌==◌, String, Option, none, some, arith, if◌then◌else◌,
  Time, is_zero, eq_iff, eq-cases, inl, inr, ◌⊎◌, Option-cases, Bool-cases,
}
use siger_api_gateway.Storage.{
  JobInfo, JobStore, JobStatus, Result, ok, err, err_job_not_found, add_job, get_job,
  update_job_status, updated, with_defaults, job_status_queued, job_status_processing,
  job_status_completed, job_status_failed, job_status_cancelled,
}

-- `Timestamp` and `Progress` are not read by the handler, and are left out.
pub record JobStatusUpdate : Type 0 where
  pub job_id : String
  pub status : String
  pub message : String
  pub started_at : Time
  pub ended_at : Time

unfoldable pub to_status : String → Option JobStatus
to_status s =
    if s == "queued"
    then some job_status_queued
    else if s == "processing"
    then some job_status_processing
    else if s == "completed"
    then some job_status_completed
    else if s == "failed"
    then some job_status_failed
    else if s == "cancelled"
    then some job_status_cancelled
    else none

-- The part after `GetJob`: the job is stored again with the times that the worker reports. `now`
-- is the clock of `AddJob`, which reads it only for a job with no time of submission.
unfoldable pub add_times : Time → JobStatusUpdate → JobInfo → JobStore → JobStore
add_times now update job s =
    let started = record job { started_at = update.started_at } in
    let job' = if is_zero update.started_at then job else started in
    let s' = if is_zero update.started_at then s else add_job now started s in
    if is_zero update.ended_at
    then s'
    else add_job now (record job' { completed_at = update.ended_at }) s'

add_times_of : Time → JobStatusUpdate → JobStore → Result JobInfo → JobStore
unfolding add_times
add_times_of now update s (err e) = s
add_times_of now update s (ok job) = add_times now update job s

after_update : Time → JobStatusUpdate → JobStore → Result JobStore → JobStore
unfolding add_times_of
after_update now update s (err e) = s
after_update now update s (ok t) = add_times_of now update t (get_job update.job_id t)

with_status : Time → Time → JobStatusUpdate → JobStore → Option JobStatus → JobStore
unfolding after_update
with_status at now update s none = s
with_status at now update s (some status) =
    after_update now update s (update_job_status at update.job_id status update.message s)

-- `none` is a message that is no JSON of the right form; `at` is the clock of `UpdateJobStatus`.
unfoldable pub handle_status_update : Time → Time → Option JobStatusUpdate → JobStore → JobStore
unfolding with_status to_status
handle_status_update at now none s = s
handle_status_update at now (some update) s = with_status at now update s (to_status update.status)
