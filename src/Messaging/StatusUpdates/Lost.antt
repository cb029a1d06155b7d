-- ===== src/Messaging/StatusUpdates/Lost.antt =====
-- The handler of status updates in internal/messaging/nats.go is several calls of the job store: what another
-- request does between its `GetJob` and its last `AddJob`.
use siger_api_gateway.Common.{◌≡◌, refl, ◌∙◌, String, arith, if◌then◌else◌, Time, eq_refl}
use siger_api_gateway.Storage.{
  JobInfo, JobStore, ok, get_job, update_job_status, updated, job_status_cancelled,
}
use siger_api_gateway.Storage.Lookup.{get_job-updated}
use siger_api_gateway.Storage.Invariant.{IsValid}
use siger_api_gateway.Messaging.StatusUpdates.{JobStatusUpdate, add_times}
use siger_api_gateway.Messaging.StatusUpdates.Effect.{
  reports_time, get_job-add_times, get_job-IsEntry,
}

-- If a job of a valid store is cancelled after the handler of a status update has read it, it is
-- cancelled until the handler goes on; then, if the worker has reported a time, the job is as if it
-- had never been cancelled, and otherwise it stays cancelled.
pub cancel_lost :
    (now later : Time) (u : JobStatusUpdate) (why : String) (job : JobInfo) (s t : JobStore)
    → IsValid s
    → get_job u.job_id s ≡ ok job
    → update_job_status later u.job_id job_status_cancelled why s ≡ ok t
    → (get_job u.job_id t ≡ ok (updated later job_status_cancelled why job))
      × (get_job u.job_id (add_times now u job t) ≡ (
          if reports_time u then get_job u.job_id (add_times now u job s) else get_job u.job_id t))
cancel_lost now later u why job s t v found done =
    let e = get_job-IsEntry u.job_id job s v found in
    let cancelled =
      get_job-updated later u.job_id u.job_id job_status_cancelled why s t job found done in
    (
      cancelled ∙ rw (eq_refl u.job_id) refl,
      ground (
        arith,
        eq_refl u.job_id,
        get_job-add_times now u u.job_id job t e,
        get_job-add_times now u u.job_id job s e,
      ),
    )
