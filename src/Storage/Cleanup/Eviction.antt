-- ===== src/Storage/Cleanup/Eviction.antt =====
-- The last part of `cleanupOldJobs`: the oldest jobs go until the limit is met.
use siger_api_gateway.Common.{
  ℕ, zero, suc, ◌+◌, ◌-◌, ◌≤◌, ◌≡◌, refl, sym, ap, ◌∙◌, String, true, false, Option, none, some,
  List, [], ◌∷◌, arith, length, take, drop, lookup, Map, Distinct, contains, occurs,
  contains-occurs, Present, lookup-delete_all, length-delete_all, ltb, All, if◌then◌else◌, eq-cases,
  inl, inr, eq_refl, ◌&&◌, subst₂,
}
use siger_api_gateway.Storage.Sort.{
  ids, JobWithTime, IsSorted, IsLeast, sort_jobs, sort_jobs-sorts, occurs-sort_jobs,
  length-sort_jobs, sort_jobs-All,
}
use siger_api_gateway.Storage.{
  JobInfo, JobStore, err, err_job_not_found, get_job, all_jobs, evicted, evict_oldest, count,
}
use siger_api_gateway.Storage.Invariant.{IsValid}

-- An element of `allJobs` tells the submission time of a stored job.
abbrev Records : Map JobInfo → JobWithTime → Type 0
Records m j = (job : JobInfo) × (lookup j.id m ≡ some job) × (job.submitted_at ≡ j.time)

Records-cons :
    (k : String) (w : JobInfo) (m : Map JobInfo) (xs : List JobWithTime)
    → lookup k m ≡ none
    → All (Records m) xs
    → All (Records ((k, w) ∷ m)) xs
unfolding lookup
Records-cons k w m [] fresh h = tt
Records-cons k w m (x ∷ xs) fresh ((job, e, t), h) = elim (eq-cases k x.id) [
  | inl (same, _) ↦ cc (fresh, e, ap (λ y. lookup y m) same)
  | inr (_, ne) ↦ ((job, rw ne e, t), Records-cons k w m xs fresh h)
]

all_jobs-Records : (m : Map JobInfo) → Distinct m → All (Records m) (all_jobs m)
unfolding lookup
all_jobs-Records [] d = tt
all_jobs-Records ((k, w) ∷ m) (fresh, d) =
    ((w, rw (eq_refl k), refl), Records-cons k w m (all_jobs m) fresh (all_jobs-Records m d))

abbrev found : Option JobInfo → ℕ
found none = 0
found (some _) = 1

occurs-all_jobs :
    (k : String) (m : Map JobInfo) → Distinct m → occurs k (ids (all_jobs m)) ≡ found (lookup k m)
unfolding lookup occurs
occurs-all_jobs k [] d = refl
occurs-all_jobs k ((j, w) ∷ m) (fresh, d) = elim (eq-cases j k) [
  | inl (same, t) ↦
      rw t (omega (arith, occurs-all_jobs k m d, ap (λ x. found (lookup x m)) same, ap found fresh))
  | inr (_, t) ↦ rw t (omega (arith, occurs-all_jobs k m d))
]

length-all_jobs : (m : Map JobInfo) → length (all_jobs m) ≡ length m
length-all_jobs [] = refl
length-all_jobs (e ∷ m) = omega (arith, length-all_jobs m)

-- An ID of the list belongs to an element of it.
find-id {ℓ} :
    (P : JobWithTime → Type ℓ) (k : String) (xs : List JobWithTime)
    → contains k (ids xs) ≡ true
    → All P xs
    → (j : JobWithTime) × (j.id ≡ k) × P j
unfolding contains
find-id P k [] h a = cc
find-id P k (x ∷ xs) h a = elim (eq-cases x.id k) [
  | inl (same, t) ↦ (x, same, a.0)
  | inr (_, t) ↦ find-id P k xs (rw t at h) a.1
]

All-take {ℓ} :
    (P : JobWithTime → Type ℓ) (n : ℕ) (xs : List JobWithTime) → All P xs → All P (take n xs)
All-take P zero xs h = tt
All-take P (suc n) [] h = tt
All-take P (suc n) (x ∷ xs) h = (h.0, All-take P n xs h.1)

All-drop {ℓ} :
    (P : JobWithTime → Type ℓ) (n : ℕ) (xs : List JobWithTime) → All P xs → All P (drop n xs)
All-drop P zero xs h = h
All-drop P (suc n) [] h = tt
All-drop P (suc n) (x ∷ xs) h = All-drop P n xs h.1

-- In a sorted list what is taken off the front is no younger than what is left.
take-IsLeast :
    (n : ℕ) (xs : List JobWithTime) → IsSorted xs → All (λ a. IsLeast a (drop n xs)) (take n xs)
take-IsLeast zero xs h = tt
take-IsLeast (suc n) [] h = tt
take-IsLeast (suc n) (x ∷ xs) h = (All-drop _ n xs h.0, take-IsLeast n xs h.1)

occurs-take-drop :
    (k : String) (n : ℕ) (xs : List JobWithTime)
    → occurs k (ids (take n xs)) + occurs k (ids (drop n xs)) ≡ occurs k (ids xs)
unfolding occurs
occurs-take-drop k zero xs = omega arith
occurs-take-drop k (suc n) [] = omega arith
occurs-take-drop k (suc n) (x ∷ xs) = omega (arith, occurs-take-drop k n xs)

length-take : (n : ℕ) (xs : List JobWithTime) → n ≤ length xs → length (ids (take n xs)) ≡ n
length-take zero xs h = refl
length-take (suc n) [] h = absurd (omega arith)
length-take (suc n) (x ∷ xs) h = omega (arith, length-take n xs)

-- The IDs of different stored jobs.
Present-ids :
    (m : Map JobInfo) (xs : List JobWithTime)
    → All (Records m) xs
    → ((k : String) → occurs k (ids xs) ≤ 1)
    → Present m (ids xs)
unfolding occurs
Present-ids m [] h once = tt
Present-ids m (x ∷ xs) ((job, e, t), h) once = (
  (job, e),
  ground (arith, contains-occurs x.id (ids xs), once x.id, eq_refl x.id),
  Present-ids m xs h (λ k. omega (arith, once k)),
)

All-zip {ℓ κ} :
    (P : JobWithTime → Type ℓ) (Q : JobWithTime → Type κ) (xs : List JobWithTime)
    → All P xs
    → All Q xs
    → All (λ j. P j × Q j) xs
All-zip P Q [] h k = tt
All-zip P Q (x ∷ xs) h k = ((h.0, k.0), All-zip P Q xs h.1 k.1)

time-eq :
    (m : Map JobInfo) (k : String) (job : JobInfo) (j : JobWithTime)
    → j.id ≡ k
    → lookup k m ≡ some job
    → Records m j
    → j.time ≡ job.submitted_at
time-eq m k job j same e (job', e', t) =
    let p : some job' ≡ some job = sym e' ∙ (ap (λ y. lookup y m) same ∙ e) in
    let q : job' ≡ job = cc in sym t ∙ ap (λ z. z.submitted_at) q

module _ (s : JobStore) (v : IsValid s) where
  abbrev pub sorted : List JobWithTime
  sorted = sort_jobs (all_jobs s.jobs)

  sorted-Records : All (Records s.jobs) sorted
  sorted-Records = sort_jobs-All _ (all_jobs s.jobs) (all_jobs-Records s.jobs v.distinct)

  occurs-sorted : (k : String) → occurs k (ids sorted) ≡ found (lookup k s.jobs)
  occurs-sorted k = occurs-sort_jobs k (all_jobs s.jobs) ∙ occurs-all_jobs k s.jobs v.distinct

  abbrev pub excess : ℕ
  excess = length (all_jobs s.jobs) - s.max_jobs

  evicted_once : (k : String) → occurs k (ids (take excess sorted)) ≤ 1
  evicted_once k = ground (arith, occurs-take-drop k excess sorted, occurs-sorted k)

  -- After the eviction the store holds as many jobs as before, or as many as its limit allows.
  pub count-evict_oldest :
      count (evict_oldest s) ≡ (if ltb s.max_jobs (count s) then s.max_jobs else count s)
  unfolding count evict_oldest evicted
  count-evict_oldest = ground (
    arith,
    length-delete_all (ids (take excess sorted)) s.jobs v.distinct
        (Present-ids s.jobs _ (All-take _ excess sorted sorted-Records) evicted_once),
    length-take excess sorted,
    length-sort_jobs (all_jobs s.jobs),
    length-all_jobs s.jobs,
  )

  -- A look-up finds what it found, or nothing where the job was evicted.
  pub get_job-evict_oldest :
      (id : String)
      → get_job id (evict_oldest s) ≡ (
          if ltb s.max_jobs (count s) && contains id (ids (take excess sorted))
          then err err_job_not_found
          else get_job id s)
  unfolding get_job evict_oldest evicted
  get_job-evict_oldest id = ground (arith, lookup-delete_all (ids (take excess sorted)) id s.jobs)

  -- A job that is evicted was submitted no later than any job that stays.
  pub evicted-le :
      (gone kept : String) (old young : JobInfo)
      → lookup gone s.jobs ≡ some old
      → lookup kept s.jobs ≡ some young
      → contains gone (ids (take excess sorted)) ≡ true
      → contains kept (ids (take excess sorted)) ≡ false
      → old.submitted_at ≤ young.submitted_at
  evicted-le gone kept old young eo ey g k =
      let least = take-IsLeast excess sorted (sort_jobs-sorts (all_jobs s.jobs)).0 in
      let (a, ida, (ra, la)) =
        find-id (λ j. Records s.jobs j × IsLeast j (drop excess sorted)) gone (take excess sorted) g
          (All-zip _ _ (take excess sorted) (All-take _ excess sorted sorted-Records) least) in
      let stays : contains kept (ids (drop excess sorted)) ≡ true = ground (
        arith,
        contains-occurs kept (ids (drop excess sorted)),
        contains-occurs kept (ids (take excess sorted)),
        occurs-take-drop kept excess sorted,
        occurs-sorted kept,
      ) in
      let (b, idb, (rb, lb)) =
        find-id (λ j. Records s.jobs j × (a.time ≤ j.time)) kept (drop excess sorted) stays
          (All-zip _ _ (drop excess sorted) (All-drop _ excess sorted sorted-Records) la) in
      subst₂ ◌≤◌ (time-eq s.jobs gone old a ida eo ra) (time-eq s.jobs kept young b idb ey rb) lb
