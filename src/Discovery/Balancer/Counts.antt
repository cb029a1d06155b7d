-- ===== src/Discovery/Balancer/Counts.antt =====
-- The connection counters of internal/discovery/loadbalancer.go through every operation.
use siger_api_gateway.Common.{
  ℕ, ◌+◌, ◌-◌, ◌<◌, ◌≡◌, refl, ap, ◌∙◌, subst, ◌≢◌, ◌⊎◌, inl, inr, ◌==◌, String, true, false,
  Option, none, some, List, [], ◌∷◌, Map, lookup, store, lookup-store, arith, if◌then◌else◌,
  Option-cases, eq-cases, contains,
}
use siger_api_gateway.Discovery.Instance.{ServiceInstance}
use siger_api_gateway.Discovery.Balancer.{
  LoadBalancer, uint64_mod, update_instances, carry_counts, zero_counts, or_zero, instance_begin,
  instance_end, increment, decrement, set_count,
}

-- The IDs of the instances.
abbrev pub instance_ids : List ServiceInstance → List String
instance_ids [] = []
instance_ids (x ∷ xs) = x.id ∷ instance_ids xs

pub lookup-carry_counts :
    (old : Map ℕ) (is : List ServiceInstance) (counts : Map ℕ) (id : String)
    → lookup id (carry_counts old is counts)
      ≡ (if contains id (instance_ids is) then some (or_zero (lookup id old)) else lookup id counts)
unfolding carry_counts contains
lookup-carry_counts old [] counts id = refl
lookup-carry_counts old (x ∷ xs) counts id = elim (eq-cases x.id id) [
  | inl (same, t) ↦
      let later = lookup-carry_counts old xs (store x.id (or_zero (lookup x.id old)) counts) id in
      ground (
        arith,
        later,
        lookup-store x.id id (or_zero (lookup x.id old)) counts,
        ap (λ y. or_zero (lookup y old)) same,
      )
  | inr (_, t) ↦
      let later = lookup-carry_counts old xs (store x.id (or_zero (lookup x.id old)) counts) id in
      ground (arith, later, lookup-store x.id id (or_zero (lookup x.id old)) counts)
]

-- `UpdateInstances` keeps the counter of every instance that stays, gives 0 to every new one, and
-- forgets the others.
pub lookup-update_instances :
    (instances : List ServiceInstance) (lb : LoadBalancer) (id : String)
    → lookup id (update_instances instances lb).connection_count ≡ (
        if contains id (instance_ids instances)
        then some (or_zero (lookup id lb.connection_count))
        else none)
unfolding update_instances lookup
lookup-update_instances instances lb id = lookup-carry_counts lb.connection_count instances [] id

pub zero_counts-carry :
    (is : List ServiceInstance) (counts : Map ℕ) → zero_counts is counts ≡ carry_counts [] is counts
unfolding zero_counts carry_counts lookup
zero_counts-carry [] counts = refl
zero_counts-carry (x ∷ xs) counts = zero_counts-carry xs (store x.id 0 counts)

abbrev pub mapped : (ℕ → ℕ) → Option ℕ → Option ℕ
mapped f none = none
mapped f (some n) = some (f n)

-- A change of one counter, if it is there, changes no other.
pub lookup-set_count :
    (id j : String) (f : ℕ → ℕ) (lb : LoadBalancer)
    → lookup j (set_count id (lookup id lb.connection_count) f lb).connection_count
      ≡ (if id == j then mapped f (lookup j lb.connection_count) else lookup j lb.connection_count)
unfolding set_count
lookup-set_count id j f lb = elim (Option-cases (lookup id lb.connection_count)) [
  | inl e ↦ elim (eq-cases id j) [
    | inl (same, t) ↦ rw e (ground (arith, t, e, ap (λ y. lookup y lb.connection_count) same))
    | inr (_, t) ↦ rw (e, t)
  ]
  | inr (n, e) ↦ elim (eq-cases id j) [
    | inl (same, t) ↦ rw e (
        ground (
          arith,
          t,
          e,
          lookup-store id j (f n) lb.connection_count,
          ap (λ y. lookup y lb.connection_count) same,
        ))
    | inr (_, t) ↦ rw (e, t, lookup-store id j (f n) lb.connection_count, t)
  ]
]

-- `InstanceBegin` and `InstanceEnd` change the counter of the instance alone, if it has one.
pub lookup-instance_begin_end :
    (id j : String) (lb : LoadBalancer)
    → (lookup j (instance_begin id lb).connection_count ≡ (
        if id == j
        then mapped increment (lookup j lb.connection_count)
        else lookup j lb.connection_count))
      × (lookup j (instance_end id lb).connection_count ≡ (
          if id == j
          then mapped decrement (lookup j lb.connection_count)
          else lookup j lb.connection_count))
unfolding instance_begin instance_end
lookup-instance_begin_end id j lb =
    (lookup-set_count id j (λ n. increment n) lb, lookup-set_count id j (λ n. decrement n) lb)

undo : (n : ℕ) → n < uint64_mod - 1 → decrement (increment n) ≡ n
undo n h = let e : increment n ≡ n + 1 = omega arith in rw e (ground arith)

-- A request that begins and ends leaves every counter as it was, unless the instance has 2^64 - 1
-- requests under way.
pub instance_end-instance_begin :
    (id j : String) (lb : LoadBalancer)
    → or_zero (lookup id lb.connection_count) < uint64_mod - 1
    → lookup j (instance_end id (instance_begin id lb)).connection_count
      ≡ lookup j lb.connection_count
instance_end-instance_begin id j lb small =
    (lookup-instance_begin_end id j (instance_begin id lb)).1 ∙ back (eq-cases id j)
  where
    begun : Option ℕ
    begun = lookup j (instance_begin id lb).connection_count

    round_trip :
        (o : Option ℕ) → or_zero o < uint64_mod - 1 → mapped decrement (mapped increment o) ≡ o
    round_trip none h = refl
    round_trip (some n) h = ap some (undo n h)

    back :
        ((id ≡ j) × ((id == j) ≡ true)) ⊎ ((id ≢ j) × ((id == j) ≡ false))
        → (if id == j then mapped decrement begun else begun) ≡ lookup j lb.connection_count
    back (inl (same, t)) = rw t (
        ap (mapped decrement) ((lookup-instance_begin_end id j lb).0 ∙ rw t)
        ∙ round_trip (lookup j lb.connection_count)
            (subst (λ y. or_zero (lookup y lb.connection_count) < uint64_mod - 1) same small))
    back (inr (_, t)) = rw t ((lookup-instance_begin_end id j lb).0 ∙ rw t)
