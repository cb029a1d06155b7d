-- ===== src/Storage/Cleanup.antt =====
-- What `cleanupOldJobs` of internal/storage/job_store.go removes, and what it keeps.
mod Expiry
mod Eviction
use siger_api_gateway.Common.{
  sym, ◌∙◌, ℕ, ◌≤◌, ◌<◌, ◌≡◌, arith, String, Bool, true, false, ◌⊎◌, inl, inr, Option, none, some,
  lookup, ltb, contains, take, refl, if◌then◌else◌, Time, Bool-cases,
}
use siger_api_gateway.Storage.Sort.{ids}
use siger_api_gateway.Storage.{
  JobInfo, JobStore, ok, err, Result, err_job_not_found, or_not_found, get_job, count, is_expired,
  remove_expired, evict_oldest, cleanup_old_jobs,
}
use siger_api_gateway.Storage.Invariant.{IsValid, remove_expired-IsValid}
use siger_api_gateway.Storage.Expected.{count_fresh, has_expired, is_expired-has_expired}
use Expiry.{get_job-remove_expired, unless_expired, count-remove_expired}
use Eviction.{count-evict_oldest, get_job-evict_oldest, evicted-le, excess, sorted}

max_jobs-remove_expired : (now : Time) (s : JobStore) → (remove_expired now s).max_jobs ≡ s.max_jobs
unfolding remove_expired
max_jobs-remove_expired now s = refl

-- After a cleanup the store holds as many jobs as had not expired, or its limit if those are more; so
-- never more jobs than its limit.
pub count-cleanup_old_jobs :
    (now : Time) (s : JobStore)
    → IsValid s
    → (count (cleanup_old_jobs now s)
        ≡ (if ltb s.max_jobs (count_fresh now s.jobs) then s.max_jobs else count_fresh now s.jobs))
      × (count (cleanup_old_jobs now s) ≤ s.max_jobs)
unfolding cleanup_old_jobs
count-cleanup_old_jobs now s v = ground (
  arith,
  count-evict_oldest (remove_expired now s) (remove_expired-IsValid now s v),
  max_jobs-remove_expired now s,
  count-remove_expired now s v,
)

lookup_of_get_job :
    (id : String) (s : JobStore) (job : JobInfo)
    → get_job id s ≡ ok job
    → lookup id s.jobs ≡ some job
unfolding get_job
lookup_of_get_job id s job h = ground arith

-- A job that is found after a cleanup was stored before it, just so, and has not expired.
pub cleanup_old_jobs_keeps :
    (now : Time) (id : String) (job : JobInfo) (s : JobStore)
    → IsValid s
    → get_job id (cleanup_old_jobs now s) ≡ ok job
    → (get_job id s ≡ ok job) × (has_expired now job ≡ false)
unfolding cleanup_old_jobs
cleanup_old_jobs_keeps now id job s v h = ground (
  arith,
  get_job-evict_oldest (remove_expired now s) (remove_expired-IsValid now s v) id,
  get_job-remove_expired now id s v,
  is_expired-has_expired now job,
)

-- A stored job that a cleanup loses has expired, or more jobs than the limit had not expired and it was
-- submitted no later than any job that stays.
pub cleanup_old_jobs_loses :
    (now : Time) (gone : String) (old : JobInfo) (s : JobStore)
    → IsValid s
    → get_job gone s ≡ ok old
    → get_job gone (cleanup_old_jobs now s) ≡ err err_job_not_found
    → (has_expired now old ≡ true)
      ⊎ ((s.max_jobs < count_fresh now s.jobs)
          × ((kept : String) (young : JobInfo)
              → get_job kept (cleanup_old_jobs now s) ≡ ok young
              → old.submitted_at ≤ young.submitted_at))
unfolding cleanup_old_jobs
cleanup_old_jobs_loses now gone old s v before lost = elim (Bool-cases (is_expired now old)) [
  | inl e ↦ inl (sym (is_expired-has_expired now old) ∙ e)
  | inr fresh ↦
      let t = remove_expired now s in
      let w = remove_expired-IsValid now s v in
      let there : get_job gone t ≡ ok old = ground (arith, get_job-remove_expired now gone s v) in
      let full : (ltb t.max_jobs (count t) ≡ true)
          × (contains gone (ids (take (excess t w) (sorted t w))) ≡ true) =
        ground (arith, get_job-evict_oldest t w gone) in
      inr (
        ground (arith, max_jobs-remove_expired now s, count-remove_expired now s v),
        λ kept young stays.
            let there' : get_job kept t ≡ ok young =
              ground (arith, get_job-evict_oldest t w kept) in
            let out : contains kept (ids (take (excess t w) (sorted t w))) ≡ false =
              ground (arith, get_job-evict_oldest t w kept) in
            evicted-le t w gone kept old young (lookup_of_get_job gone t old there)
              (lookup_of_get_job kept t young there') full.1 out,
      )
]
