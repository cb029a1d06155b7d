-- ===== src/Common/Maps.antt =====
-- Go's `map[string]V` and `sync.Map` with text keys: an association list whose order stands for the
-- order in which a `range` happens to go through the map.
use Prim.Native.Nat.{ℕ, suc, ◌+◌, ◌≤◌}
use Prim.Native.String.{String}
use mathlib.Core.Path.{subst₂, ◌≡◌, refl, ap}
use mathlib.Core.Logic.{inl, inr}
use mathlib.Core.Bool.{Bool, true, false}
use mathlib.Core.List.{◌++◌, List, [], ◌∷◌}
use mathlib.Core.Option.{Option, none, some}
use native.Mathlib.Omega.{arith}
use text.Mathlib.Text.{◌==◌}
use text.Mathlib.TextEquality.{eq_iff}
use siger_api_gateway.Common.Tests.{ltb, if◌then◌else◌, Bool-cases, eq-cases}
use siger_api_gateway.Common.Lists.{length, All}

abbrev pub Map {ℓ} : Type ℓ → Type ℓ
Map V = List (String × V)

abbrev pub keys {ℓ} : {V : Type ℓ} → Map V → List String
keys [] = []
keys (e ∷ m) = e.0 ∷ keys m

unfoldable pub contains : String → List String → Bool
contains k [] = false
contains k (j ∷ js) = if j == k then true else contains k js

module _ {ℓ} {V : Type ℓ} where
  -- `v, ok := m[k]` and `m.Load(k)`.
  unfoldable pub lookup : String → Map V → Option V
  lookup k [] = none
  lookup k ((j, v) ∷ m) = if j == k then some v else lookup k m

  -- `m[k] = v` and `m.Store(k, v)`.
  unfoldable pub store : String → V → Map V → Map V
  store k v [] = (k, v) ∷ []
  store k v ((j, w) ∷ m) = if j == k then (k, v) ∷ m else (j, w) ∷ store k v m

  -- `delete(m, k)` and `m.Delete(k)`.
  unfoldable pub delete : String → Map V → Map V
  delete k [] = []
  delete k ((j, w) ∷ m) = let rest = delete k m in if j == k then rest else (j, w) ∷ rest

  unfoldable pub delete_all : List String → Map V → Map V
  delete_all [] m = m
  delete_all (k ∷ ks) m = delete_all ks (delete k m)

  pub lookup-store :
      (k j : String) (v : V) (m : Map V)
      → lookup j (store k v m) ≡ (if k == j then some v else lookup j m)
  unfolding lookup store
  lookup-store k j v [] = refl
  lookup-store k j v ((i, w) ∷ m) =
      ground (arith, eq_iff k j, eq_iff i k, eq_iff i j, lookup-store k j v m)

  pub store_same : (k : String) (v : V) (m : Map V) → lookup k m ≡ some v → store k v m ≡ m
  unfolding store lookup
  store_same k v [] h = cc
  store_same k v ((j, w) ∷ m) h = elim (eq-cases j k) [
    | inl (same, t) ↦ let found : some w ≡ some v = rw t at h in rw t (cc)
    | inr (_, t) ↦ rw t (ap (◌∷◌ (j, w)) (store_same k v m (rw t at h)))
  ]

  pub lookup-delete :
      (k j : String) (m : Map V) → lookup j (delete k m) ≡ (if k == j then none else lookup j m)
  unfolding lookup delete
  lookup-delete k j [] = ground arith
  lookup-delete k j ((i, w) ∷ m) =
      ground (arith, eq_iff k j, eq_iff i k, eq_iff i j, lookup-delete k j m)

  pub lookup-delete_all :
      (ks : List String) (j : String) (m : Map V)
      → lookup j (delete_all ks m) ≡ (if contains j ks then none else lookup j m)
  unfolding delete_all contains
  lookup-delete_all [] j m = refl
  lookup-delete_all (k ∷ ks) j m =
      ground (arith, lookup-delete_all ks j (delete k m), lookup-delete k j m)

  -- No key stands twice.
  abbrev pub Distinct : Map V → Type ℓ
  Distinct [] = Unit
  Distinct (e ∷ m) = (lookup e.0 m ≡ none) × Distinct m

  pub store-Distinct : (k : String) (v : V) (m : Map V) → Distinct m → Distinct (store k v m)
  unfolding store lookup
  store-Distinct k v [] d = (refl, tt)
  store-Distinct k v ((j, w) ∷ m) d =
      ground (arith, eq_iff j k, eq_iff k j, store-Distinct k v m d.1, lookup-store k j v m)

  pub delete-Distinct : (k : String) (m : Map V) → Distinct m → Distinct (delete k m)
  unfolding delete
  delete-Distinct k [] d = tt
  delete-Distinct k ((j, w) ∷ m) d = ground (arith, delete-Distinct k m d.1, lookup-delete k j m)

  pub delete_all-Distinct : (ks : List String) (m : Map V) → Distinct m → Distinct (delete_all ks m)
  unfolding delete_all
  delete_all-Distinct [] m d = d
  delete_all-Distinct (k ∷ ks) m d = delete_all-Distinct ks (delete k m) (delete-Distinct k m d)

  pub length-store :
      (k : String) (v : V) (m : Map V)
      → length (store k v m) ≡ (elim (lookup k m) [ none ↦ suc (length m) | some _ ↦ length m ])
  unfolding store lookup
  length-store k v [] = refl
  length-store k v ((j, w) ∷ m) = ground (arith, length-store k v m)

  pub delete_of_none : (k : String) (m : Map V) → lookup k m ≡ none → delete k m ≡ m
  unfolding delete lookup
  delete_of_none k [] h = refl
  delete_of_none k ((j, w) ∷ m) h = ground (arith, delete_of_none k m)

  pub length-delete :
      (k : String) (v : V) (m : Map V)
      → Distinct m
      → lookup k m ≡ some v
      → length (delete k m) + 1 ≡ length m
  unfolding delete lookup
  length-delete k v [] d h = cc
  length-delete k v ((j, w) ∷ m) d h = elim (eq-cases j k) [
    | inl (e, t) ↦ rw t (omega (arith, ap length (delete_of_none k m (rw (← e) d.0))))
    | inr (e, t) ↦ rw t (omega (arith, length-delete k v m d.1 (rw t at h)))
  ]

  pub length-delete-le : (k : String) (m : Map V) → length (delete k m) ≤ length m
  unfolding delete
  length-delete-le k [] = omega arith
  length-delete-le k ((j, w) ∷ m) = ground (arith, length-delete-le k m)

  pub length-delete_all-le : (ks : List String) (m : Map V) → length (delete_all ks m) ≤ length m
  unfolding delete_all
  length-delete_all-le [] m = omega arith
  length-delete_all-le (k ∷ ks) m =
      omega (arith, length-delete_all-le ks (delete k m), length-delete-le k m)

  -- Deleting different keys that are present takes away as many entries.
  abbrev pub Present : Map V → List String → Type ℓ
  Present m [] = Unit
  Present m (k ∷ ks) = ((v : V) × (lookup k m ≡ some v)) × (contains k ks ≡ false) × Present m ks

  Present-delete :
      (k : String) (ks : List String) (m : Map V)
      → contains k ks ≡ false
      → Present m ks
      → Present (delete k m) ks
  unfolding contains
  Present-delete k [] m c p = tt
  Present-delete k (j ∷ ks) m c ((v, e), q, p) = elim (eq-cases j k) [
    | inl (_, t) ↦ cc
    | inr (n, t) ↦ (
      (v, ground (arith, lookup-delete k j m, eq_iff k j)),
      q,
      Present-delete k ks m (rw t at c) p,
    )
  ]

  pub length-delete_all :
      (ks : List String) (m : Map V)
      → Distinct m
      → Present m ks
      → length (delete_all ks m) + length ks ≡ length m
  unfolding delete_all
  length-delete_all [] m d p = omega arith
  length-delete_all (k ∷ ks) m d ((v, e), q, p) = omega (
    arith,
    length-delete_all ks (delete k m) (delete-Distinct k m d) (Present-delete k ks m q p),
    length-delete k v m d e,
  )

  -- What holds of every entry.
  pub All-store {κ} :
      (P : String × V → Type κ) (k : String) (v : V) (m : Map V)
      → P (k, v)
      → All P m
      → All P (store k v m)
  unfolding store
  All-store P k v [] h a = (h, tt)
  All-store P k v ((j, w) ∷ m) h a = elim (Bool-cases (j == k)) [
    | inl e ↦ rw e (h, a.1)
    | inr e ↦ rw e (a.0, All-store P k v m h a.1)
  ]

  pub All-delete {κ} :
      (P : String × V → Type κ) (k : String) (m : Map V) → All P m → All P (delete k m)
  unfolding delete
  All-delete P k [] a = tt
  All-delete P k ((j, w) ∷ m) a = elim (Bool-cases (j == k)) [
    | inl e ↦ rw e (All-delete P k m a.1)
    | inr e ↦ rw e (a.0, All-delete P k m a.1)
  ]

  pub All-delete_all {κ} :
      (P : String × V → Type κ) (ks : List String) (m : Map V) → All P m → All P (delete_all ks m)
  unfolding delete_all
  All-delete_all P [] m a = a
  All-delete_all P (k ∷ ks) m a = All-delete_all P ks (delete k m) (All-delete P k m a)

  pub All-lookup {κ} :
      (P : String × V → Type κ) (k : String) (v : V) (m : Map V)
      → All P m
      → lookup k m ≡ some v
      → P (k, v)
  unfolding lookup
  All-lookup P k v [] a h = cc
  All-lookup P k v ((j, w) ∷ m) a h = elim (eq-cases j k) [
    | inl (e, t) ↦
        let h' : some w ≡ some v = rw t at h in
        let q : w ≡ v = cc in subst₂ (λ x y. P (x, y)) e q a.0
    | inr (e, t) ↦ All-lookup P k v m a.1 (rw t at h)
  ]

-- How often a key stands in a list.
unfoldable pub occurs : String → List String → ℕ
occurs k [] = 0
occurs k (j ∷ js) = (if j == k then 1 else 0) + occurs k js

pub occurs-cons :
    (k j : String) (js : List String) → occurs k (j ∷ js) ≡ (if j == k then 1 else 0) + occurs k js
unfolding occurs
occurs-cons k j js = refl

pub contains-occurs : (k : String) (ks : List String) → contains k ks ≡ ltb 0 (occurs k ks)
unfolding contains occurs
contains-occurs k [] = refl
contains-occurs k (j ∷ js) = ground (arith, contains-occurs k js)

pub occurs-append :
    (k : String) (xs ys : List String) → occurs k (xs ++ ys) ≡ occurs k xs + occurs k ys
unfolding occurs
occurs-append k [] ys = omega arith
occurs-append k (x ∷ xs) ys = omega (arith, occurs-append k xs ys)
