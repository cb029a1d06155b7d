-- ===== src/Storage/Lookup.antt =====
-- What each operation of the job store makes of the job under each ID.
use siger_api_gateway.Common.{
  ◌≡◌, refl, ◌==◌, String, arith, lookup, lookup-store, lookup-delete, store, Option-cases,
  if◌then◌else◌, Time, inl, inr, ◌⊎◌,
}
use siger_api_gateway.Storage.{
  JobInfo, JobStore, JobStatus, err_job_not_found, ok, err, add_job, get_job, updated,
  with_defaults, update_job_status, delete_job,
}

-- After `AddJob` a look-up finds the new job, its empty fields filled in, under its own ID, and
-- under any other ID what it found before. A job with an empty ID is not stored.
pub get_job-add_job :
    (now : Time) (job : JobInfo) (id : String) (s : JobStore)
    → get_job id (add_job now job s) ≡ (
        if job.job_id == ""
        then get_job id s
        else if job.job_id == id
        then ok (with_defaults now job)
        else get_job id s)
unfolding get_job add_job
get_job-add_job now job id s =
    ground (arith, lookup-store job.job_id id (with_defaults now job) s.jobs)

-- `UpdateJobStatus` fails exactly on an ID that is not stored; otherwise it replaces that job by
-- its update, and leaves every other job and the limit as they were.
pub update_job_status_cases :
    (now : Time) (id j : String) (status : JobStatus) (message : String) (s : JobStore)
    → ((get_job id s ≡ err err_job_not_found)
        × (update_job_status now id status message s ≡ err err_job_not_found))
      ⊎ ((job : JobInfo) × (t : JobStore) × (get_job id s ≡ ok job)
          × (update_job_status now id status message s ≡ ok t)
          × (t.max_jobs ≡ s.max_jobs)
          × (get_job j t ≡ (if id == j then ok (updated now status message job) else get_job j s)))
unfolding get_job update_job_status
update_job_status_cases now id j status message s = elim (Option-cases (lookup id s.jobs)) [
  | inl e ↦ inl (rw e, rw e)
  | inr (job, e) ↦ inr (
    job,
    record s { jobs = store id (updated now status message job) s.jobs },
    rw e,
    rw e,
    refl,
    ground (arith, lookup-store id j (updated now status message job) s.jobs),
  )
]

-- An update keeps the job's identity: ID, owner, type, name and time of submission.
pub updated-keeps :
    (now : Time) (status : JobStatus) (message : String) (job : JobInfo)
    → let job' = updated now status message job in
      (job'.job_id ≡ job.job_id)
      × (job'.user_id ≡ job.user_id)
      × (job'.type ≡ job.type)
      × (job'.name ≡ job.name)
      × (job'.submitted_at ≡ job.submitted_at)
unfolding updated
updated-keeps now status message job = ground arith

pub get_job-delete_job :
    (id j : String) (s : JobStore)
    → get_job j (delete_job id s) ≡ (if id == j then err err_job_not_found else get_job j s)
unfolding get_job delete_job
get_job-delete_job id j s = ground (arith, lookup-delete id j s.jobs)

-- What a look-up finds after an update that succeeds.
pub get_job-updated :
    (now : Time) (id j : String) (status : JobStatus) (message : String) (s t : JobStore)
    (job : JobInfo)
    → get_job id s ≡ ok job
    → update_job_status now id status message s ≡ ok t
    → get_job j t ≡ (if id == j then ok (updated now status message job) else get_job j s)
unfolding get_job update_job_status
get_job-updated now id j status message s t job found done =
    ground (arith, lookup-store id j (updated now status message job) s.jobs)
