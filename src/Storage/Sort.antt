-- ===== src/Storage/Sort.antt =====
-- The exchange sort of `cleanupOldJobs` (internal/storage/job_store.go).
use mathlib.Core.List.{Perm}
use mathlib.Core.List.Perm
use siger_api_gateway.Common.{
  ℕ, zero, map, occurs, suc, ◌≤◌, ◌≡◌, refl, Bool, String, List, [], ◌∷◌, arith, length, ltb, All,
  if◌then◌else◌, Bool-cases, inl, inr,
}

-- `jobWithTime`, the local struct of the source; `time` is in nanoseconds.
pub record JobWithTime : Type 0 where
  pub id : String
  pub time : ℕ

abbrev pub ids : List JobWithTime → List String
ids = map (λ j. j.id)

-- `a.Time.After(b.Time)`
abbrev pub is_after : JobWithTime → JobWithTime → Bool
is_after a b = ltb b.time a.time

-- The inner loop: `pivot` is `allJobs[i]`, and the list is `allJobs[i+1:]`. A swap puts the old
-- pivot where the new one stood.
unfoldable pub sweep : JobWithTime → List JobWithTime → JobWithTime × List JobWithTime
sweep pivot [] = (pivot, [])
sweep pivot (x ∷ xs) =
    let swap = is_after pivot x in
    let (least, rest) = sweep (if swap then x else pivot) xs in
    (least, (if swap then pivot else x) ∷ rest)

-- The outer loop, over the rounds left.
unfoldable pub sort_rounds : ℕ → List JobWithTime → List JobWithTime
unfolding sweep
sort_rounds zero xs = xs
sort_rounds (suc n) [] = []
sort_rounds (suc n) (x ∷ xs) = let (least, rest) = sweep x xs in least ∷ sort_rounds n rest

unfoldable pub sort_jobs : List JobWithTime → List JobWithTime
unfolding sort_rounds
sort_jobs xs = sort_rounds (length xs) xs

length-sweep : (p : JobWithTime) (xs : List JobWithTime) → length (sweep p xs).1 ≡ length xs
unfolding sweep
length-sweep p [] = refl
length-sweep p (x ∷ xs) = omega (arith, length-sweep (if is_after p x then x else p) xs)

-- What holds of the pivot and of the list holds of what a round leaves.
sweep-All {ℓ} :
    (P : JobWithTime → Type ℓ) (p : JobWithTime) (xs : List JobWithTime)
    → P p
    → All P xs
    → P (sweep p xs).0 × All P (sweep p xs).1
unfolding sweep
sweep-All P p [] h k = (h, tt)
sweep-All P p (x ∷ xs) h k = elim (Bool-cases (is_after p x)) [
  | inl e ↦ rw e (let (a, b) = sweep-All P x xs k.0 k.1 in (a, (h, b)))
  | inr e ↦ rw e (let (a, b) = sweep-All P p xs h k.1 in (a, (k.0, b)))
]

pub sort_rounds-All {ℓ} :
    (P : JobWithTime → Type ℓ) (n : ℕ) (xs : List JobWithTime) → All P xs → All P (sort_rounds n xs)
unfolding sort_rounds
sort_rounds-All P zero xs h = h
sort_rounds-All P (suc n) [] h = tt
sort_rounds-All P (suc n) (x ∷ xs) h =
    let (a, b) = sweep-All P x xs h.0 h.1 in (a, sort_rounds-All P n (sweep x xs).1 b)

-- `a` was submitted no later than any job of the list.
abbrev pub IsLeast : JobWithTime → List JobWithTime → Type 0
IsLeast a = All (λ b. a.time ≤ b.time)

-- Oldest first.
abbrev pub IsSorted : List JobWithTime → Type 0
IsSorted [] = Unit
IsSorted (x ∷ xs) = IsLeast x xs × IsSorted xs

sweep_le : (p : JobWithTime) (xs : List JobWithTime) → (sweep p xs).0.time ≤ p.time
unfolding sweep
sweep_le p [] = omega arith
sweep_le p (x ∷ xs) = ground (arith, sweep_le x xs, sweep_le p xs)

sweep-IsLeast : (p : JobWithTime) (xs : List JobWithTime) → IsLeast (sweep p xs).0 (sweep p xs).1
unfolding sweep
sweep-IsLeast p [] = tt
sweep-IsLeast p (x ∷ xs) =
    ground (arith, sweep-IsLeast x xs, sweep-IsLeast p xs, sweep_le x xs, sweep_le p xs)

sort_rounds-IsSorted : (n : ℕ) (xs : List JobWithTime) → length xs ≤ n → IsSorted (sort_rounds n xs)
unfolding sort_rounds
sort_rounds-IsSorted zero [] h = tt
sort_rounds-IsSorted zero (x ∷ xs) h = absurd (omega arith)
sort_rounds-IsSorted (suc n) [] h = tt
sort_rounds-IsSorted (suc n) (x ∷ xs) h = (
  sort_rounds-All (λ b. (sweep x xs).0.time ≤ b.time) n (sweep x xs).1 (sweep-IsLeast x xs),
  sort_rounds-IsSorted n (sweep x xs).1 (omega (arith, length-sweep x xs)),
)

sweep-perm :
    (p : JobWithTime) (xs : List JobWithTime) → Perm ((sweep p xs).0 ∷ (sweep p xs).1) (p ∷ xs)
unfolding sweep
sweep-perm p [] = Perm.refl _
sweep-perm p (x ∷ xs) = elim (Bool-cases (is_after p x)) [
  | inl e ↦
      rw e (Perm.trans (Perm.swap _ _ _) (Perm.trans (Perm.cons p (sweep-perm x xs)) (Perm.refl _)))
  | inr e ↦
      rw e (
        Perm.trans (Perm.swap _ _ _) (Perm.trans (Perm.cons x (sweep-perm p xs)) (Perm.swap _ _ _)))
]

sort_rounds-perm : (n : ℕ) (xs : List JobWithTime) → Perm (sort_rounds n xs) xs
unfolding sort_rounds
sort_rounds-perm zero xs = Perm.refl xs
sort_rounds-perm (suc n) [] = Perm.refl []
sort_rounds-perm (suc n) (x ∷ xs) =
    Perm.trans (Perm.cons _ (sort_rounds-perm n (sweep x xs).1)) (sweep-perm x xs)

pub sort_jobs-All {ℓ} :
    (P : JobWithTime → Type ℓ) (xs : List JobWithTime) → All P xs → All P (sort_jobs xs)
unfolding sort_jobs
sort_jobs-All P xs h = sort_rounds-All P (length xs) xs h

occurs-sweep :
    (k : String) (p : JobWithTime) (xs : List JobWithTime)
    → occurs k (ids ((sweep p xs).0 ∷ (sweep p xs).1)) ≡ occurs k (ids (p ∷ xs))
unfolding sweep occurs
occurs-sweep k p [] = refl
occurs-sweep k p (x ∷ xs) = elim (Bool-cases (is_after p x)) [
  | inl e ↦ rw e (omega (arith, occurs-sweep k x xs))
  | inr e ↦ rw e (omega (arith, occurs-sweep k p xs))
]

occurs-sort_rounds :
    (k : String) (n : ℕ) (xs : List JobWithTime)
    → occurs k (ids (sort_rounds n xs)) ≡ occurs k (ids xs)
unfolding sort_rounds occurs
occurs-sort_rounds k zero xs = refl
occurs-sort_rounds k (suc n) [] = refl
occurs-sort_rounds k (suc n) (x ∷ xs) =
    omega (arith, occurs-sort_rounds k n (sweep x xs).1, occurs-sweep k x xs)

pub occurs-sort_jobs :
    (k : String) (xs : List JobWithTime) → occurs k (ids (sort_jobs xs)) ≡ occurs k (ids xs)
unfolding sort_jobs
occurs-sort_jobs k xs = occurs-sort_rounds k (length xs) xs

length-sort_rounds : (n : ℕ) (xs : List JobWithTime) → length (sort_rounds n xs) ≡ length xs
unfolding sort_rounds
length-sort_rounds zero xs = refl
length-sort_rounds (suc n) [] = refl
length-sort_rounds (suc n) (x ∷ xs) =
    omega (arith, length-sort_rounds n (sweep x xs).1, length-sweep x xs)

pub length-sort_jobs : (xs : List JobWithTime) → length (sort_jobs xs) ≡ length xs
unfolding sort_jobs
length-sort_jobs xs = length-sort_rounds (length xs) xs

-- The exchange sort leaves the jobs of the list, each as often, in order of submission.
pub sort_jobs-sorts : (xs : List JobWithTime) → IsSorted (sort_jobs xs) × Perm (sort_jobs xs) xs
unfolding sort_jobs
sort_jobs-sorts xs =
    (sort_rounds-IsSorted (length xs) xs (omega arith), sort_rounds-perm (length xs) xs)
