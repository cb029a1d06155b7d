-- ===== src/Storage/Listing.antt =====
-- What `ListJobsByUser` and `ListJobsByStatus` return.
use siger_api_gateway.Common.{
  ◌≡◌, ◌==◌, ◌↔◌, ◌⊎◌, inl, inr, String, Bool, true, some, [], ◌∷◌, arith, lookup, Map, Distinct,
  In, Bool-cases, eq_iff, eq-cases, ap, sym, eq_refl, All-lookup,
}
use siger_api_gateway.Storage.{
  JobInfo, JobStore, ok, get_job, select, list_jobs_by_user, list_jobs_by_status,
}
use siger_api_gateway.Storage.Invariant.{IsValid, IsEntry}

-- A job that is stored under some ID.
abbrev pub Stored : JobInfo → Map JobInfo → Type 0
Stored job m = (id : String) × (lookup id m ≡ some job)

select_sound :
    (p : JobInfo → Bool) (job : JobInfo) (m : Map JobInfo)
    → Distinct m
    → In job (select p m)
    → Stored job m × (p job ≡ true)
unfolding select lookup
select_sound p job [] d i = elim i [ ]
select_sound p job ((k, w) ∷ m) d i = elim (Bool-cases (p w)) [
  | inl e ↦ found (select_sound p job m d.1) (rw e at i) e
  | inr e ↦ later (select_sound p job m d.1 (rw e at i))
]
  where
    later : Stored job m × (p job ≡ true) → Stored job ((k, w) ∷ m) × (p job ≡ true)
    later ((id, h), q) = elim (eq-cases k id) [
      | inl (same, t) ↦ cc (d.0, h, ap (λ x. lookup x m) same)
      | inr (_, t) ↦ ((id, rw t h), q)
    ]

    found :
        (In job (select p m) → Stored job m × (p job ≡ true))
        → (job ≡ w) ⊎ In job (select p m)
        → p w ≡ true
        → Stored job ((k, w) ∷ m) × (p job ≡ true)
    found rest (inl e) q = ((k, rw (eq_refl k) (ap some (sym e))), rw e q)
    found rest (inr j) q = later (rest j)

select_complete :
    (p : JobInfo → Bool) (id : String) (job : JobInfo) (m : Map JobInfo)
    → lookup id m ≡ some job
    → p job ≡ true
    → In job (select p m)
unfolding select lookup
select_complete p id job [] h q = cc
select_complete p id job ((k, w) ∷ m) h q = ground (arith, select_complete p id job m)

select_iff :
    (p : JobInfo → Bool) (job : JobInfo) (s : JobStore)
    → IsValid s
    → In job (select p s.jobs) ↔ ((get_job job.job_id s ≡ ok job) × (p job ≡ true))
unfolding get_job
select_iff p job s v = (
  (λ i.
      let ((id, e), q) = select_sound p job s.jobs v.distinct i in
      let own = (All-lookup IsEntry id job s.jobs v.entries e).0 in (cc own, q)),
  (λ h. select_complete p job.job_id job s.jobs (ground arith) h.1),
)

-- Of a valid store `ListJobsByUser` returns the stored jobs of the user and no others, and
-- `ListJobsByStatus` those with the status, each job being found under its own ID.
pub listed_iff :
    (key : String) (job : JobInfo) (s : JobStore)
    → IsValid s
    → (In job (list_jobs_by_user key s) ↔ ((get_job job.job_id s ≡ ok job) × (job.user_id ≡ key)))
      × (In job (list_jobs_by_status key s)
          ↔ ((get_job job.job_id s ≡ ok job) × (job.status ≡ key)))
unfolding list_jobs_by_user list_jobs_by_status
listed_iff key job s v =
    let by_user = select_iff (λ j. j.user_id == key) job s v in
    let by_status = select_iff (λ j. j.status == key) job s v in
    let user = eq_iff job.user_id key in
    let status = eq_iff job.status key in
    (
      ((λ i. ((by_user.0 i).0, user.0 (by_user.0 i).1)), (λ h. by_user.1 (h.0, user.1 h.1))),
      (
        (λ i. ((by_status.0 i).0, status.0 (by_status.0 i).1)),
        (λ h. by_status.1 (h.0, status.1 h.1)),
      ),
    )
