-- ===== src/Messaging/StatusUpdates/Effect.antt =====
-- What a status update makes of the job store.
use siger_api_gateway.Common.{
  ◌||◌, Bool-cases, Bool, not, ◌&&◌, ◌≡◌, refl, ap, ◌∙◌, ◌≢◌, ◌==◌, String, none, some, arith,
  if◌then◌else◌, Time, is_zero, eq_iff, inl, inr, ◌⊎◌, ne→eq_false, ne_of_eq_false, All-lookup,
  eq_refl, subst,
}
use siger_api_gateway.Storage.{
  JobInfo, JobStore, JobStatus, Result, ok, err, err_job_not_found, add_job, get_job,
  update_job_status, updated, job_status_queued, job_status_processing, job_status_completed,
  job_status_failed, job_status_cancelled,
}
use siger_api_gateway.Storage.Expected.{as_updated, updated-as_updated}
use siger_api_gateway.Storage.Lookup.{get_job-add_job, update_job_status_cases, get_job-updated}
use siger_api_gateway.Storage.Invariant.{IsValid, IsEntry, after, update_job_status-IsValid}
use siger_api_gateway.Messaging.StatusUpdates.{
  JobStatusUpdate, to_status, add_times, after_update, handle_status_update,
}

to_status-ne-empty : (s : String) {st : JobStatus} → to_status s ≡ some st → st ≢ ""
unfolding to_status
to_status-ne-empty s h e = ground (
  arith,
  ne_of_eq_false job_status_queued "" refl,
  ne_of_eq_false job_status_processing "" refl,
  ne_of_eq_false job_status_completed "" refl,
  ne_of_eq_false job_status_failed "" refl,
  ne_of_eq_false job_status_cancelled "" refl,
)

pub get_job-IsEntry :
    (id : String) (job : JobInfo) (s : JobStore)
    → IsValid s
    → get_job id s ≡ ok job
    → IsEntry (id, job)
unfolding get_job
get_job-IsEntry id job s v h = All-lookup IsEntry id job s.jobs v.entries (ground arith)

-- A complete job is stored as it is.
pub get_job-add_job_entry :
    (now : Time) (id j : String) (job : JobInfo) (s : JobStore)
    → IsEntry (id, job)
    → get_job j (add_job now job s) ≡ (if id == j then ok job else get_job j s)
get_job-add_job_entry now id j job s (same, ne, st, sub) =
    ground
      (arith, get_job-add_job now job j s, ne→eq_false job.job_id "", ne→eq_false job.status "")

-- The job that an update is to leave: the status and the message are the reported ones; a start and an end
-- are the reported ones where there are any, and else what the change of the status makes of them.
abbrev pub reported : Time → JobStatusUpdate → JobInfo → JobInfo
reported at u job =
    let job' = as_updated at u.status u.message job in
    record job' {
      started_at = if is_zero u.started_at then job'.started_at else u.started_at;
      completed_at = if is_zero u.ended_at then job'.completed_at else u.ended_at;
    }

-- The statuses that an update may report.
abbrev pub is_known : String → Bool
is_known status =
    status == "queued"
    || (status == "processing"
        || (status == "completed" || (status == "failed" || status == "cancelled")))

to_status-is_known : (s : String) → to_status s ≡ (if is_known s then some s else none)
unfolding to_status
to_status-is_known s = ground (
  arith,
  eq_iff s "queued",
  eq_iff s "processing",
  eq_iff s "completed",
  eq_iff s "failed",
  eq_iff s "cancelled",
)

abbrev pub with_times : JobStatusUpdate → JobInfo → JobInfo
with_times u job = record job {
  started_at = if is_zero u.started_at then job.started_at else u.started_at;
  completed_at = if is_zero u.ended_at then job.completed_at else u.ended_at;
}

-- The worker reports a time, so that the job is stored again.
abbrev pub reports_time : JobStatusUpdate → Bool
reports_time u = not (is_zero u.started_at && is_zero u.ended_at)

-- The job that was read replaces whatever is stored by then.
pub get_job-add_times :
    (now : Time) (u : JobStatusUpdate) (j : String) (job : JobInfo) (s : JobStore)
    → IsEntry (u.job_id, job)
    → get_job j (add_times now u job s)
      ≡ (if u.job_id == j && reports_time u then ok (with_times u job) else get_job j s)
unfolding add_times
get_job-add_times now u j job s e =
    let started = record job { started_at = u.started_at } in
    let first = get_job-add_job_entry now u.job_id j started s e in
    let ended = record job { completed_at = u.ended_at } in
    let alone = get_job-add_job_entry now u.job_id j ended s e in
    let both =
      get_job-add_job_entry now u.job_id j (record started { completed_at = u.ended_at })
        (add_job now started s) e in
    ground (arith, first, alone, both, eq_iff u.job_id j)

-- The job that is stored gets the times.
get_job-add_times_own :
    (now : Time) (u : JobStatusUpdate) (j : String) (job : JobInfo) (s : JobStore)
    → IsEntry (u.job_id, job)
    → get_job u.job_id s ≡ ok job
    → get_job j (add_times now u job s)
      ≡ (if u.job_id == j then ok (with_times u job) else get_job j s)
get_job-add_times_own now u j job s e h =
    ground (arith, get_job-add_times now u j job s e, ap (λ i. get_job i s), eq_iff u.job_id j)

abbrev pub mapped : (JobInfo → JobInfo) → Result JobInfo → Result JobInfo
mapped f (ok job) = ok (f job)
mapped f (err e) = err e

-- What a look-up of `j` finds after an update, if it found `before`.
abbrev pub reported_at : Time → JobStatusUpdate → String → Result JobInfo → Result JobInfo
reported_at at u j before =
    if is_known u.status && u.job_id == j then mapped (reported at u) before else before

-- In a valid store an update with a known status gives the job, if it is stored, the status, the message
-- and the times that the worker reports, and leaves every other job as it was. An update with an
-- unknown status or job changes no job.
pub get_job-handle_status_update :
    (at now : Time) (u : JobStatusUpdate) (j : String) (s : JobStore)
    → IsValid s
    → get_job j (handle_status_update at now (some u) s) ≡ reported_at at u j (get_job j s)
unfolding handle_status_update
get_job-handle_status_update at now u j s v = elim (Bool-cases (is_known u.status)) [
  | inl t ↦
      let e : to_status u.status ≡ some u.status = to_status-is_known u.status ∙ rw t refl in
      rw (t, e)
        (stored u.status (to_status-ne-empty u.status e)
          (update_job_status_cases at u.job_id j u.status u.message s) refl)
  | inr t ↦
      let e : to_status u.status ≡ none = to_status-is_known u.status ∙ rw t refl in rw (t, e) refl
]
  where
    stored :
        (status : JobStatus)
        → status ≢ ""
        → ((get_job u.job_id s ≡ err err_job_not_found)
            × (update_job_status at u.job_id status u.message s ≡ err err_job_not_found))
          ⊎ ((job : JobInfo) × (t : JobStore) × (get_job u.job_id s ≡ ok job)
              × (update_job_status at u.job_id status u.message s ≡ ok t)
              × (t.max_jobs ≡ s.max_jobs)
              × (get_job j t
                  ≡ (if u.job_id == j then ok (updated at status u.message job) else get_job j s)))
        → status ≡ u.status
        → get_job j (after_update now u s (update_job_status at u.job_id status u.message s))
          ≡ (if u.job_id == j then mapped (reported at u) (get_job j s) else get_job j s)
    stored status ne (inl (missing, refused)) same =
        rw refused (ground (arith, missing, ap (λ i. get_job i s), eq_iff u.job_id j))
    stored status ne (inr (job, t, found, done, limit, _)) same =
        let new = updated at status u.message job in
        let own : get_job u.job_id t ≡ ok new = ground (
          arith,
          get_job-updated at u.job_id u.job_id status u.message s t job found done,
          eq_refl u.job_id,
        ) in
        let w : IsValid t =
          subst (λ r. IsValid (after s r)) done
            (update_job_status-IsValid at u.job_id status u.message s ne v) in
        let times =
          get_job-add_times_own now u j new t (get_job-IsEntry u.job_id new t w own) own in
        rw (done, own)
          (times
            ∙ ground (
              arith,
              get_job-updated at u.job_id j status u.message s t job found done,
              found,
              ap (λ i. get_job i s),
              eq_iff u.job_id j,
              updated-as_updated at status u.message job,
              same,
            ))
