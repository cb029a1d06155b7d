-- ===== src/Storage/Cleanup/Expiry.antt =====
-- The first two passes of `cleanupOldJobs`: jobs that ended more than a day ago.
use siger_api_gateway.Common.{
  ◌+◌, List, ◌∙◌, ap, length, length-delete_all, Present, eq-cases, eq_refl, ◌≡◌, refl, String,
  Bool, false, Option, none, some, [], ◌∷◌, arith, lookup, Map, Distinct, contains,
  lookup-delete_all, if◌then◌else◌, Bool-cases, inl, inr, eq_iff, Time,
}
use siger_api_gateway.Storage.{
  JobInfo, JobStore, ok, err, Result, err_job_not_found, get_job, is_expired, expired_ids,
  remove_expired, count,
}
use siger_api_gateway.Storage.Expected.{count_fresh, is_expired-has_expired}
use siger_api_gateway.Storage.Invariant.{IsValid}

-- Whether the job of a look-up, if there is one, is expired.
abbrev expired_at : Time → Option JobInfo → Bool
expired_at now none = false
expired_at now (some job) = is_expired now job

contains-expired_ids :
    (now : Time) (id : String) (m : Map JobInfo)
    → Distinct m
    → contains id (expired_ids now m) ≡ expired_at now (lookup id m)
unfolding contains expired_ids lookup
contains-expired_ids now id [] d = refl
contains-expired_ids now id ((k, job) ∷ m) (fresh, d) = elim (Bool-cases (is_expired now job)) [
  | inl e ↦ ground (arith, contains-expired_ids now id m d, eq_iff k id)
  | inr e ↦ ground (arith, contains-expired_ids now id m d, eq_iff k id)
]

-- An expired job, as `GetJob` finds it.
abbrev pub unless_expired : Time → Result JobInfo → Result JobInfo
unless_expired now (err e) = err e
unless_expired now (ok job) = if is_expired now job then err err_job_not_found else ok job

pub get_job-remove_expired :
    (now : Time) (id : String) (s : JobStore)
    → IsValid s
    → get_job id (remove_expired now s) ≡ unless_expired now (get_job id s)
unfolding get_job remove_expired
get_job-remove_expired now id s v = ground (
  arith,
  lookup-delete_all (expired_ids now s.jobs) id s.jobs,
  contains-expired_ids now id s.jobs v.distinct,
)

-- The expired jobs stand under different IDs.
Present-cons :
    (k : String) (job : JobInfo) (m : Map JobInfo) (ks : List String)
    → contains k ks ≡ false
    → Present m ks
    → Present ((k, job) ∷ m) ks
unfolding contains lookup
Present-cons k job m [] c p = tt
Present-cons k job m (j ∷ ks) c ((v, e), q, p) = elim (eq-cases j k) [
  | inl (_, t) ↦ cc
  | inr (ne, t) ↦
      ((v, ground (arith, e, eq_iff k j, eq_iff j k)), q, Present-cons k job m ks (rw t at c) p)
]

absent-expired_ids :
    (now : Time) (k : String) (m : Map JobInfo)
    → Distinct m
    → lookup k m ≡ none
    → contains k (expired_ids now m) ≡ false
absent-expired_ids now k m d e = contains-expired_ids now k m d ∙ ap (expired_at now) e

Present-expired_ids : (now : Time) (m : Map JobInfo) → Distinct m → Present m (expired_ids now m)
unfolding expired_ids lookup
Present-expired_ids now [] d = tt
Present-expired_ids now ((k, job) ∷ m) (fresh, d) =
    let there = absent-expired_ids now k m d fresh in
    let rest = Present-cons k job m (expired_ids now m) there (Present-expired_ids now m d) in
    elim (Bool-cases (is_expired now job)) [
      | inl e ↦ rw e ((job, rw (eq_refl k) refl), there, rest)
      | inr e ↦ rw e rest
    ]

length-expired_ids :
    (now : Time) (m : Map JobInfo) → length (expired_ids now m) + count_fresh now m ≡ length m
unfolding expired_ids count_fresh
length-expired_ids now [] = refl
length-expired_ids now ((k, job) ∷ m) =
    ground (arith, length-expired_ids now m, is_expired-has_expired now job)

-- The first pass leaves the jobs that have not expired.
pub count-remove_expired :
    (now : Time) (s : JobStore) → IsValid s → count (remove_expired now s) ≡ count_fresh now s.jobs
unfolding count remove_expired
count-remove_expired now s v = omega (
  arith,
  length-delete_all (expired_ids now s.jobs) s.jobs v.distinct
      (Present-expired_ids now s.jobs v.distinct),
  length-expired_ids now s.jobs,
)
