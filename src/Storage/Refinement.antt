-- ===== src/Storage/Refinement.antt =====
-- What the job store promises: a function from IDs to jobs. How the map holds the jobs, and in which
-- order, is forgotten.
use mathlib.Core.Path.{fun_ext}
use siger_api_gateway.Common.{
  ℕ, zero, suc, ◌<◌, pos, negsuc, ap, subst, length, contains, Map, keys, Distinct, All-map,
  Bool-cases, eq_refl, arith, ◌≤◌, ◌≡◌, refl, ◌∙◌, ◌≢◌, ◌⊎◌, inl, inr, ◌==◌, String, true, false,
  Option, none, some, List, [], ◌∷◌, All, Time, ℤ, if◌then◌else◌, eq-cases, lookup,
}
use siger_api_gateway.Storage.{
  JobInfo, JobStore, JobStatus, StoreError, err_job_not_found, Result, ok, err, get_job, add_job,
  update_job_status, delete_job, cleanup_old_jobs, new_job_store, count, remove_expired,
  evict_oldest,
}
use siger_api_gateway.Storage.Expected.{
  as_added, as_updated, has_expired, count_fresh, updated-as_updated,
}
use siger_api_gateway.Storage.Lookup.{
  get_job-add_job, update_job_status_cases, get_job-updated, get_job-delete_job,
}
use siger_api_gateway.Storage.Invariant.{
  IsValid, Call, adds, updates, deletes, cleans, IsProper, after, perform, perform_all,
  perform-IsValid, new_job_store-IsValid, cleanup_old_jobs-IsValid,
}
use siger_api_gateway.Storage.Cleanup.{
  cleanup_old_jobs_keeps, cleanup_old_jobs_loses, count-cleanup_old_jobs,
}

-- What a client sees of a store.
abbrev pub Jobs : Type 0
Jobs = String → Result JobInfo

abbrev pub view : JobStore → Jobs
view s id = get_job id s

-- No text stands twice in a list.
abbrev pub Different : List String → Type 0
Different [] = Unit
Different (k ∷ ks) = (contains k ks ≡ false) × Different ks

abbrev pub put : String → JobInfo → Jobs → Jobs
put id job f j = if id == j then ok job else f j

abbrev pub drop : String → Jobs → Jobs
drop id f j = if id == j then err err_job_not_found else f j

-- As many different jobs as the limit are seen in `g`, none of them older than `old`.
pub record IsFull (limit : ℕ) (g : Jobs) (old : JobInfo) : Type 0 where
  pub kept : List String
  pub exactly : length kept ≡ limit
  pub different : Different kept
  pub younger :
      All (λ k. (young : JobInfo) × (g k ≡ ok young) × (old.submitted_at ≤ young.submitted_at)) kept

-- A call, its error if it has one, and what may be seen after it. A cleanup loses no job that has not
-- expired, unless it leaves as many as the limit, none of them older. Which of several jobs of one
-- time it leaves is open.
pub data Step (limit : ℕ) (f : Jobs) : Call → Option StoreError → Jobs → Type 0 where
  adds_job :
      {g : Jobs} (now : Time) (job : JobInfo)
      → job.job_id ≢ ""
      → g ≡ put job.job_id (as_added now job) f
      → Step limit f (adds now job) none g
  adds_nothing : (now : Time) (job : JobInfo) → job.job_id ≡ "" → Step limit f (adds now job) none f
  updates_job :
      {g : Jobs} (now : Time) (id : String) (status : JobStatus) (message : String) (job : JobInfo)
      → f id ≡ ok job
      → g ≡ put id (as_updated now status message job) f
      → Step limit f (updates now id status message) none g
  updates_nothing :
      (now : Time) (id : String) (status : JobStatus) (message : String)
      → f id ≡ err err_job_not_found
      → Step limit f (updates now id status message) (some err_job_not_found) f
  deletes_job : {g : Jobs} (id : String) → g ≡ drop id f → Step limit f (deletes id) none g
  cleans_jobs :
      {g : Jobs} (now : Time)
      → ((id : String) (job : JobInfo)
          → g id ≡ ok job
          → (f id ≡ ok job) × (has_expired now job ≡ false))
      → ((gone : String) (old : JobInfo)
          → f gone ≡ ok old
          → g gone ≡ err err_job_not_found
          → (has_expired now old ≡ true) ⊎ IsFull limit g old)
      → Step limit f (cleans now) none g

-- The calls of a client in a row, with their errors.
pub data Run (limit : ℕ) : Jobs → List Call → List (Option StoreError) → Jobs → Type 0 where
  done : {f : Jobs} → Run limit f [] [] f
  next :
      {f g h : Jobs} {c : Call} {e : Option StoreError} {cs : List Call}
      {es : List (Option StoreError)}
      → Step limit f c e g
      → Run limit g cs es h
      → Run limit f (c ∷ cs) (e ∷ es) h

abbrev pub error_of : Result JobStore → Option StoreError
error_of (ok s) = none
error_of (err e) = some e

-- The errors of the store's own operations.
unfoldable pub reply : JobStore → Call → Option StoreError
reply s (updates now id status message) = error_of (update_job_status now id status message s)
reply s (adds now job) = none
reply s (deletes id) = none
reply s (cleans now) = none

unfoldable pub replies : JobStore → List Call → List (Option StoreError)
unfolding reply
replies s [] = []
replies s (c ∷ cs) = reply s c ∷ replies (perform s c) cs

add_job-Step :
    (now : Time) (job : JobInfo) (s : JobStore)
    → Step s.max_jobs (view s) (adds now job) none (view (add_job now job s))
add_job-Step now job s = elim (eq-cases job.job_id "") [
  | inl (e, t) ↦
      let same : view (add_job now job s) ≡ view s =
        fun_ext (λ id. get_job-add_job now job id s ∙ rw t refl) in
      rw same (adds_nothing now job e)
  | inr (named, t) ↦
      adds_job now job named (fun_ext (λ id. get_job-add_job now job id s ∙ rw t refl))
]

delete_job-Step :
    (id : String) (s : JobStore)
    → Step s.max_jobs (view s) (deletes id) none (view (delete_job id s))
delete_job-Step id s = deletes_job id (fun_ext (λ j. get_job-delete_job id j s))

update_job_status-Step :
    (now : Time) (id : String) (status : JobStatus) (message : String) (s : JobStore)
    → let r = update_job_status now id status message s in
      Step s.max_jobs (view s) (updates now id status message) (error_of r) (view (after s r))
update_job_status-Step now id status message s =
    elim (update_job_status_cases now id id status message s) [
      | inl (absent, e) ↦ rw e (updates_nothing now id status message absent)
      | inr (job, t, there, e, _, _) ↦ rw e (
          updates_job now id status message job there (
            fun_ext (λ j.
              get_job-updated now id j status message s t job there e
              ∙ rw (updated-as_updated now status message job) refl)))
    ]

-- The keys of a map are all there, and differ.
keys-found : {A : Type 0} (m : Map A) → All (λ k. (v : A) × (lookup k m ≡ some v)) (keys m)
unfolding lookup
keys-found {A} [] = tt
keys-found {A} ((k, v) ∷ m) =
    ((v, rw (eq_refl k) refl), All-map (λ j h. later j h) (keys m) (keys-found m))
  where
    later :
        (j : String) → (w : A) × (lookup j m ≡ some w) → (w : A) × (lookup j ((k, v) ∷ m) ≡ some w)
    later j (w, e) = elim (Bool-cases (k == j)) [
      | inl t ↦ (v, rw t refl)
      | inr t ↦ (w, rw (t, e) refl)
    ]

absent-keys :
    {A : Type 0} (k : String) (m : Map A) → lookup k m ≡ none → contains k (keys m) ≡ false
unfolding lookup contains
absent-keys k [] e = refl
absent-keys k ((j, v) ∷ m) e = elim (Bool-cases (j == k)) [
  | inl t ↦ cc
  | inr t ↦ rw t (absent-keys k m (rw t at e))
]

keys-Different : {A : Type 0} (m : Map A) → Distinct m → Different (keys m)
keys-Different [] d = tt
keys-Different ((k, v) ∷ m) (fresh, d) = (absent-keys k m fresh, keys-Different m d)

length-keys : {A : Type 0} (m : Map A) → length (keys m) ≡ length m
length-keys [] = refl
length-keys (e ∷ m) = ap suc (length-keys m)

cleanup_old_jobs-IsFull :
    (now : Time) (old : JobInfo) (s : JobStore)
    → IsValid s
    → s.max_jobs < count_fresh now s.jobs
    → ((kept : String) (young : JobInfo)
        → get_job kept (cleanup_old_jobs now s) ≡ ok young
        → old.submitted_at ≤ young.submitted_at)
    → IsFull s.max_jobs (view (cleanup_old_jobs now s)) old
unfolding count get_job
cleanup_old_jobs-IsFull now old s v over oldest =
    let t = cleanup_old_jobs now s in
    let d = (cleanup_old_jobs-IsValid now s v).distinct in
    record {
      kept = keys t.jobs;
      exactly = length-keys t.jobs ∙ ground (arith, (count-cleanup_old_jobs now s v).0);
      different = keys-Different t.jobs d;
      younger =
          All-map (λ k (young, e). (young, rw e refl, oldest k young (rw e refl))) (keys t.jobs)
            (keys-found t.jobs);
    }

cleanup_old_jobs-Step :
    (now : Time) (s : JobStore)
    → IsValid s
    → Step s.max_jobs (view s) (cleans now) none (view (cleanup_old_jobs now s))
cleanup_old_jobs-Step now s v =
    cleans_jobs now (λ id job h. cleanup_old_jobs_keeps now id job s v h)
      (λ gone old there lost. elim (cleanup_old_jobs_loses now gone old s v there lost) [
        | inl e ↦ inl e
        | inr (over, oldest) ↦ inr (cleanup_old_jobs-IsFull now old s v over oldest)
      ])

perform-Step :
    (s : JobStore) (c : Call)
    → IsValid s
    → Step s.max_jobs (view s) c (reply s c) (view (perform s c))
unfolding perform reply
perform-Step s (adds now job) v = add_job-Step now job s
perform-Step s (updates now id status message) v = update_job_status-Step now id status message s
perform-Step s (deletes id) v = delete_job-Step id s
perform-Step s (cleans now) v = cleanup_old_jobs-Step now s v

after-max_jobs :
    (now : Time) (id : String) (status : JobStatus) (message : String) (s : JobStore)
    → (after s (update_job_status now id status message s)).max_jobs ≡ s.max_jobs
after-max_jobs now id status message s = elim (update_job_status_cases now id id status message s) [
  | inl (absent, e) ↦ rw e refl
  | inr (job, t, there, e, limit, _) ↦ rw e limit
]

perform-max_jobs : (s : JobStore) (c : Call) → (perform s c).max_jobs ≡ s.max_jobs
unfolding perform add_job delete_job cleanup_old_jobs remove_expired evict_oldest
perform-max_jobs s (adds now job) = ground arith
perform-max_jobs s (updates now id status message) = after-max_jobs now id status message s
perform-max_jobs s (deletes id) = refl
perform-max_jobs s (cleans now) = ground arith

perform_all-Run :
    (limit : ℕ) (s : JobStore) (cs : List Call)
    → s.max_jobs ≡ limit
    → All IsProper cs
    → IsValid s
    → Run limit (view s) cs (replies s cs) (view (perform_all s cs))
unfolding perform_all replies
perform_all-Run limit s [] e h v = done
perform_all-Run limit s (c ∷ cs) e h v =
    next (subst (λ n. Step n (view s) c (reply s c) (view (perform s c))) e (perform-Step s c v)) (
      perform_all-Run limit (perform s c) cs (perform-max_jobs s c ∙ e) h.1
        (perform-IsValid s c h.0 v))

view-new_job_store : (limit : ℤ) → view (new_job_store limit) ≡ (λ id. err err_job_not_found)
unfolding get_job new_job_store lookup
view-new_job_store limit = refl

-- The limit of a store: 1000 in place of a number that is not positive.
abbrev pub proper_limit : ℤ → ℕ
proper_limit (pos zero) = 1000
proper_limit (pos (suc n)) = suc n
proper_limit (negsuc n) = 1000

new_job_store-max_jobs : (limit : ℤ) → (new_job_store limit).max_jobs ≡ proper_limit limit
unfolding new_job_store
new_job_store-max_jobs (pos zero) = refl
new_job_store-max_jobs (pos (suc n)) = ground arith
new_job_store-max_jobs (negsuc n) = refl

-- Whatever limit a store is made with and whatever proper calls follow, their errors and what can
-- be looked up afterwards are a run of the specification from the empty function.
pub perform_all_refines :
    (limit : ℤ) (cs : List Call)
    → All IsProper cs
    → Run
        (proper_limit limit)
        (λ id. err err_job_not_found)
        cs
        (replies (new_job_store limit) cs)
        (view (perform_all (new_job_store limit) cs))
perform_all_refines limit cs h = rw (← view-new_job_store limit) (
    perform_all-Run (proper_limit limit) (new_job_store limit) cs (new_job_store-max_jobs limit) h
      (new_job_store-IsValid limit))
