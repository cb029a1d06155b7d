-- ===== src/Storage/Invariant.antt =====
-- The invariant of the job store, and that every sequence of calls keeps it.
use siger_api_gateway.Common.{
  ◌<◌, ◌≡◌, refl, ◌≢◌, ◌==◌, String, List, [], ◌∷◌, arith, lookup, All, Distinct, store-Distinct,
  delete-Distinct, delete_all-Distinct, delete_all, All-store, All-delete, All-delete_all,
  All-lookup, Time, eq_iff, eq-cases, Option-cases, inl, inr, ℤ, pos, negsuc, Bool-cases,
}
use siger_api_gateway.Storage.Sort.{ids}
use siger_api_gateway.Storage.{
  job_status_queued, JobInfo, JobStore, JobStatus, ok, err, Result, new_job_store, add_job, updated,
  with_defaults, update_job_status, delete_job, remove_expired, evict_oldest, cleanup_old_jobs,
  evicted,
}

-- An entry stands under its job's ID, which is not empty, and has a status and a submission time.
abbrev pub IsEntry : String × JobInfo → Type 0
IsEntry e = (e.1.job_id ≡ e.0) × (e.0 ≢ "") × (e.1.status ≢ "") × (e.1.submitted_at ≢ 0)

pub record IsValid (s : JobStore) : Type 0 where
  pub distinct : Distinct s.jobs
  pub entries : All IsEntry s.jobs
  pub capped : 0 < s.max_jobs

pub new_job_store-IsValid : (n : ℤ) → IsValid (new_job_store n)
unfolding new_job_store
new_job_store-IsValid (pos n) = record { distinct = tt; entries = tt; capped = ground arith }
new_job_store-IsValid (negsuc n) = record { distinct = tt; entries = tt; capped = omega arith }

ne_empty : job_status_queued ≢ ""
ne_empty e = ground (arith, (eq_iff "queued" "").1 e)

with_defaults-IsEntry :
    (now : Time) (job : JobInfo)
    → now ≢ 0
    → job.job_id ≢ ""
    → IsEntry (job.job_id, with_defaults now job)
with_defaults-IsEntry now job h k = elim (eq-cases job.status "") [
  | inl (e, t) ↦ rw t (refl, k, (λ p. ground (arith, ne_empty p)), ground arith)
  | inr (e, t) ↦ rw t (refl, k, e, ground arith)
]

pub add_job-IsValid :
    (now : Time) (job : JobInfo) (s : JobStore) → now ≢ 0 → IsValid s → IsValid (add_job now job s)
unfolding add_job
add_job-IsValid now job s h v = elim (Bool-cases (job.job_id == "")) [
  | inl e ↦ rw e v
  | inr e ↦ rw e (record {
    distinct = store-Distinct _ _ s.jobs v.distinct;
    entries =
        All-store IsEntry _ _ s.jobs
          (with_defaults-IsEntry now job h (λ p. ground (arith, eq_iff job.job_id ""))) v.entries;
    capped = v.capped;
  })
]

updated-IsEntry :
    (now : Time) (status : JobStatus) (message : String) (id : String) (job : JobInfo)
    → status ≢ ""
    → IsEntry (id, job)
    → IsEntry (id, updated now status message job)
unfolding updated
updated-IsEntry now status message id job h e = ground arith

-- The store after a call that may fail.
abbrev pub after : JobStore → Result JobStore → JobStore
after s (ok t) = t
after s (err e) = s

pub update_job_status-IsValid :
    (now : Time) (id : String) (status : JobStatus) (message : String) (s : JobStore)
    → status ≢ ""
    → IsValid s
    → IsValid (after s (update_job_status now id status message s))
unfolding update_job_status
update_job_status-IsValid now id status message s h v = elim (Option-cases (lookup id s.jobs)) [
  | inl e ↦ rw e v
  | inr (job, e) ↦ rw e (record {
    distinct = store-Distinct _ _ s.jobs v.distinct;
    entries =
        All-store IsEntry _ _ s.jobs
          (updated-IsEntry now status message id job h
            (All-lookup IsEntry id job s.jobs v.entries e))
          v.entries;
    capped = v.capped;
  })
]

delete_job-IsValid : (id : String) (s : JobStore) → IsValid s → IsValid (delete_job id s)
unfolding delete_job
delete_job-IsValid id s v = record {
  distinct = delete-Distinct id s.jobs v.distinct;
  entries = All-delete IsEntry id s.jobs v.entries;
  capped = v.capped;
}

pub remove_expired-IsValid :
    (now : Time) (s : JobStore) → IsValid s → IsValid (remove_expired now s)
unfolding remove_expired
remove_expired-IsValid now s v = record {
  distinct = delete_all-Distinct _ s.jobs v.distinct;
  entries = All-delete_all IsEntry _ s.jobs v.entries;
  capped = v.capped;
}

evict_oldest-IsValid : (s : JobStore) → IsValid s → IsValid (evict_oldest s)
unfolding evict_oldest
evict_oldest-IsValid s v = ground (
  arith,
  let r : IsValid (record s { jobs = delete_all (ids (evicted s)) s.jobs }) = record {
    distinct = delete_all-Distinct _ s.jobs v.distinct;
    entries = All-delete_all IsEntry _ s.jobs v.entries;
    capped = v.capped;
  } in
      r,
)

pub cleanup_old_jobs-IsValid :
    (now : Time) (s : JobStore) → IsValid s → IsValid (cleanup_old_jobs now s)
unfolding cleanup_old_jobs
cleanup_old_jobs-IsValid now s v =
    evict_oldest-IsValid (remove_expired now s) (remove_expired-IsValid now s v)

-- The calls that change a store.
pub data Call : Type 0 where
  adds : Time → JobInfo → Call
  updates : Time → String → JobStatus → String → Call
  deletes : String → Call
  cleans : Time → Call

-- What the callers see to: the clock is past the zero time, and a status is not empty.
abbrev pub IsProper : Call → Type 0
IsProper (adds now job) = now ≢ 0
IsProper (updates now id status message) = status ≢ ""
IsProper _ = Unit

unfoldable pub perform : JobStore → Call → JobStore
perform s (adds now job) = add_job now job s
perform s (updates now id status message) = after s (update_job_status now id status message s)
perform s (deletes id) = delete_job id s
perform s (cleans now) = cleanup_old_jobs now s

unfoldable pub perform_all : JobStore → List Call → JobStore
perform_all s [] = s
perform_all s (c ∷ cs) = perform_all (perform s c) cs

pub perform-IsValid : (s : JobStore) (c : Call) → IsProper c → IsValid s → IsValid (perform s c)
unfolding perform
perform-IsValid s (adds now job) h v = add_job-IsValid now job s h v
perform-IsValid s (updates now id status message) h v =
    update_job_status-IsValid now id status message s h v
perform-IsValid s (deletes id) h v = delete_job-IsValid id s v
perform-IsValid s (cleans now) h v = cleanup_old_jobs-IsValid now s v

perform_all-keeps :
    (s : JobStore) (cs : List Call) → All IsProper cs → IsValid s → IsValid (perform_all s cs)
unfolding perform_all
perform_all-keeps s [] h v = v
perform_all-keeps s (c ∷ cs) h v =
    perform_all-keeps (perform s c) cs h.1 (perform-IsValid s c h.0 v)

-- Whatever limit a store is made with and whatever proper calls follow: no ID stands twice, each
-- job stands under its own ID, which is not empty, has a status and a submission time, and the
-- limit is positive.
pub perform_all-IsValid :
    (limit : ℤ) (cs : List Call) → All IsProper cs → IsValid (perform_all (new_job_store limit) cs)
perform_all-IsValid limit cs h =
    perform_all-keeps (new_job_store limit) cs h (new_job_store-IsValid limit)
