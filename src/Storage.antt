-- ===== src/Storage.antt =====
-- internal/storage/job_store.go: the job store. The clock is an argument (`now`). The type
-- assertions on what `sync.Map` holds always succeed, since only `JobInfo` values are stored.
mod Sort
pub mod Expected
pub mod Lookup
pub mod Invariant
pub mod Listing
pub mod Cleanup
pub mod Refinement
pub mod Tests
use siger_api_gateway.Common.{
  ℕ, ◌+◌, ◌-◌, ◌*◌, ◌<◌, ◌≡◌, Bool, true, false, not, ◌&&◌, ◌||◌, ◌==◌, String, Option, none, some,
  List, [], ◌∷◌, map, Map, lookup, store, delete, delete_all, length, take, ltb, ℤ, pos, negsuc,
  if◌then◌else◌, Time, is_zero, is_before, hour,
}
use Sort.{JobWithTime, ids, sort_jobs}

-- A status is a text: `UpdateJobStatus` and `ListJobsByStatus` take any.
abbrev pub JobStatus : Type 0
JobStatus = String

abbrev pub job_status_queued : JobStatus
job_status_queued = "queued"

abbrev pub job_status_processing : JobStatus
job_status_processing = "processing"

abbrev pub job_status_completed : JobStatus
job_status_completed = "completed"

abbrev pub job_status_failed : JobStatus
job_status_failed = "failed"

abbrev pub job_status_cancelled : JobStatus
job_status_cancelled = "cancelled"

-- The errors of the store: `ErrJobNotFound`, and the message of a failed type assertion.
pub data StoreError : Type 0 where
  err_job_not_found : StoreError
  invalid_job_data : StoreError

pub data Result (A : Type 0) : Type 0 where
  ok : A → Result A
  err : StoreError → Result A

pub record JobInfo : Type 0 where
  pub job_id : String
  pub user_id : String
  pub type : String
  pub name : String
  pub status : JobStatus
  pub submitted_at : Time
  pub started_at : Time
  pub completed_at : Time
  pub message : String

pub record JobStore : Type 0 where
  pub jobs : Map JobInfo
  pub max_jobs : ℕ

-- `if maxJobs <= 0 { maxJobs = 1000 }`
abbrev pub job_limit : ℤ → ℕ
job_limit (pos n) = if ltb 0 n then n else 1000
job_limit (negsuc n) = 1000

unfoldable pub new_job_store : ℤ → JobStore
new_job_store max_jobs = record { jobs = []; max_jobs = job_limit max_jobs }

abbrev pub with_defaults : Time → JobInfo → JobInfo
with_defaults now job = record job {
  status = if job.status == "" then job_status_queued else job.status;
  submitted_at = if is_zero job.submitted_at then now else job.submitted_at;
}

unfoldable pub add_job : Time → JobInfo → JobStore → JobStore
add_job now job s =
    if job.job_id == ""
    then s
    else record s { jobs = store job.job_id (with_defaults now job) s.jobs }

abbrev pub or_not_found : Option JobInfo → Result JobInfo
or_not_found none = err err_job_not_found
or_not_found (some job) = ok job

unfoldable pub get_job : String → JobStore → Result JobInfo
get_job id s = or_not_found (lookup id s.jobs)

-- `case JobStatusCompleted, JobStatusFailed, JobStatusCancelled`
abbrev pub is_terminal : JobStatus → Bool
is_terminal status =
    status == job_status_completed
    || (status == job_status_failed || status == job_status_cancelled)

-- The job that `UpdateJobStatus` stores.
unfoldable pub updated : Time → JobStatus → String → JobInfo → JobInfo
updated now status message job =
    let job' = record job { status = status; message = message } in
    if status == job_status_processing
    then (if is_zero job.started_at then record job' { started_at = now } else job')
    else (if is_terminal status then record job' { completed_at = now } else job')

save : Time → String → JobStatus → String → JobStore → Result JobInfo → Result JobStore
save now id status message s (err e) = err e
save now id status message s (ok job) =
    ok (record s { jobs = store id (updated now status message job) s.jobs })

-- The error leaves the store as it was.
unfoldable pub update_job_status : Time → String → JobStatus → String → JobStore → Result JobStore
unfolding save
update_job_status now id status message s =
    save now id status message s (or_not_found (lookup id s.jobs))

-- The loop of the two listing functions.
unfoldable pub select : (JobInfo → Bool) → Map JobInfo → List JobInfo
select p [] = []
select p ((k, job) ∷ m) = let rest = select p m in if p job then job ∷ rest else rest

unfoldable pub list_jobs_by_user : String → JobStore → List JobInfo
unfolding select
list_jobs_by_user user s = select (λ job. job.user_id == user) s.jobs

unfoldable pub list_jobs_by_status : JobStatus → JobStore → List JobInfo
unfolding select
list_jobs_by_status status s = select (λ job. job.status == status) s.jobs

unfoldable pub delete_job : String → JobStore → JobStore
delete_job id s = record s { jobs = delete id s.jobs }

unfoldable pub count : JobStore → ℕ
count s = length s.jobs

-- The condition of the first pass of `cleanupOldJobs`. `now - 24 h` stops at the zero time, before
-- which no time stands.
abbrev pub is_expired : Time → JobInfo → Bool
is_expired now job =
    is_terminal job.status
    && (not (is_zero job.completed_at) && is_before job.completed_at (now - 24 * hour))

-- `jobsToDelete`
unfoldable pub expired_ids : Time → Map JobInfo → List String
expired_ids now [] = []
expired_ids now ((k, job) ∷ m) =
    let rest = expired_ids now m in if is_expired now job then k ∷ rest else rest

unfoldable pub remove_expired : Time → JobStore → JobStore
unfolding expired_ids
remove_expired now s = record s { jobs = delete_all (expired_ids now s.jobs) s.jobs }

-- `allJobs`
abbrev pub all_jobs : Map JobInfo → List JobWithTime
all_jobs [] = []
all_jobs ((k, job) ∷ m) = record { id = k; time = job.submitted_at } ∷ all_jobs m

-- The jobs that the last loop deletes: the first `len(allJobs) - maxJobs` of the sorted list.
unfoldable pub evicted : JobStore → List JobWithTime
evicted s = let jobs = all_jobs s.jobs in take (length jobs - s.max_jobs) (sort_jobs jobs)

unfoldable pub evict_oldest : JobStore → JobStore
unfolding count evicted
evict_oldest s =
    if ltb s.max_jobs (count s) then record s { jobs = delete_all (ids (evicted s)) s.jobs } else s

unfoldable pub cleanup_old_jobs : Time → JobStore → JobStore
unfolding remove_expired evict_oldest
cleanup_old_jobs now s = evict_oldest (remove_expired now s)

-- `periodicCleanup`: one cleanup for each tick of the hourly ticker, at the times of the list.
unfoldable pub periodic_cleanup : List Time → JobStore → JobStore
periodic_cleanup [] s = s
periodic_cleanup (now ∷ ticks) s = periodic_cleanup ticks (cleanup_old_jobs now s)
