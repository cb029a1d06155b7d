-- ===== src/Discovery/Balancer/LeastConnections.antt =====
-- The least-connections choice of internal/discovery/loadbalancer.go.
use siger_api_gateway.Common.{
  ℕ, zero, suc, ◌+◌, ◌-◌, ◌≤◌, ◌<◌, ◌≡◌, sym, subst, ◌==◌, String, In, refl, ap, ◌⊎◌, inl, inr,
  true, false, some, List, [], ◌∷◌, Map, lookup, arith, get_elem?, ltb, All, Bool-cases,
}
use siger_api_gateway.Discovery.Instance.{ServiceInstance}
use siger_api_gateway.Discovery.Balancer.{
  LoadBalancer, uint64_mod, least_connections, least_index, get_instance, round_robin, random,
  chosen, or_zero,
}

-- The instance has a counter, a `uint64`.
abbrev pub IsTracked : Map ℕ → ServiceInstance → Type 0
IsTracked counts x = (n : ℕ) × (lookup x.id counts ≡ some n) × (n < uint64_mod)

abbrev pub connections : Map ℕ → ServiceInstance → ℕ
connections counts x = or_zero (lookup x.id counts)

-- What the loop has found: no counter below `least`, and so `best`; or the instance with it.
abbrev Found : Map ℕ → List ServiceInstance → (i least best r : ℕ) → Type 0
Found counts xs i least best r =
    ((r ≡ best) × All (λ y. least ≤ connections counts y) xs)
    ⊎ ((k : ℕ) × (x : ServiceInstance) × (r ≡ i + k)
        × (get_elem? xs k ≡ some x)
        × (connections counts x < least)
        × All (λ y. connections counts x ≤ connections counts y) xs)

All-le :
    {m n : ℕ} (counts : Map ℕ) (xs : List ServiceInstance)
    → m ≤ n
    → All (λ y. n ≤ connections counts y) xs
    → All (λ y. m ≤ connections counts y) xs
All-le counts [] h a = tt
All-le counts (x ∷ xs) h a = (omega arith, All-le counts xs h a.1)

module _ (counts : Map ℕ) (x : ServiceInstance) (xs : List ServiceInstance) (i least best : ℕ)
    {n : ℕ} (e : lookup x.id counts ≡ some n) where
  step_closer :
      ltb n least ≡ true
      → least_index counts (x ∷ xs) i least best ≡ least_index counts xs (suc i) n i
  unfolding least_index
  step_closer h = ground arith

  step_over :
      ltb n least ≡ false
      → least_index counts (x ∷ xs) i least best ≡ least_index counts xs (suc i) least best
  unfolding least_index
  step_over h = ground arith

least_index-Found :
    (counts : Map ℕ) (xs : List ServiceInstance) (i least best : ℕ)
    → All (IsTracked counts) xs
    → Found counts xs i least best (least_index counts xs i least best)
unfolding least_index
least_index-Found counts [] i least best t = inl (refl, tt)
least_index-Found counts (x ∷ xs) i least best ((n, e, small), t) =
    elim (Bool-cases (ltb n least)) [
      | inl lt ↦
          subst (Found counts (x ∷ xs) i least best)
            (sym (step_closer counts x xs i least best e lt))
            (closer (least_index-Found counts xs (suc i) n i t) lt)
      | inr ge ↦
          subst (Found counts (x ∷ xs) i least best) (sym (step_over counts x xs i least best e ge))
            (as_before (least_index-Found counts xs (suc i) least best t) ge)
    ]
  where
    closer :
        {r : ℕ}
        → Found counts xs (suc i) n i r
        → ltb n least ≡ true
        → Found counts (x ∷ xs) i least best r
    closer (inl (same, all)) lt = inr (
      0,
      x,
      omega arith,
      refl,
      ground arith,
      (omega arith, All-le {n = n} counts xs (omega (arith, ap or_zero e)) all),
    )
    closer (inr (k, y, same, at, lower, all)) lt =
        inr (suc k, y, omega arith, at, ground arith, (ground arith, all))

    as_before :
        {r : ℕ}
        → Found counts xs (suc i) least best r
        → ltb n least ≡ false
        → Found counts (x ∷ xs) i least best r
    as_before (inl (same, all)) ge = inl (same, (ground arith, all))
    as_before (inr (k, y, same, at, lower, all)) ge =
        inr (suc k, y, omega arith, at, lower, (ground arith, all))

-- The type of a balancer that counts connections, as the switch of `GetInstance` tests it.
switch_least :
    (lb_type : String)
    → lb_type ≡ least_connections
    → ((lb_type == round_robin) ≡ false)
      × ((lb_type == random) ≡ false)
      × ((lb_type == least_connections) ≡ true)
switch_least t e =
    (ap (λ x. x == round_robin) e, ap (λ x. x == random) e, ap (λ x. x == least_connections) e)

pub In-of_get_elem? :
    (xs : List ServiceInstance) (k : ℕ) {x : ServiceInstance} → get_elem? xs k ≡ some x → In x xs
In-of_get_elem? [] k h = cc
In-of_get_elem? (y ∷ ys) zero h = inl (cc)
In-of_get_elem? (y ∷ ys) (suc k) h = inr (In-of_get_elem? ys k h)

-- The instance at the index of the loop has no more connections than any other.
least_index-least :
    (counts : Map ℕ) (x : ServiceInstance) (xs : List ServiceInstance)
    → All (IsTracked counts) (x ∷ xs)
    → (y : ServiceInstance) × (get_elem? (x ∷ xs) (least_index counts (x ∷ xs) 0 (uint64_mod - 1) 0)
        ≡ some y)
      × In y (x ∷ xs)
      × All (λ z. connections counts y ≤ connections counts z) (x ∷ xs)
least_index-least counts x xs t =
    pick (least_index counts (x ∷ xs) 0 (uint64_mod - 1) 0)
      (least_index-Found counts (x ∷ xs) 0 (uint64_mod - 1) 0 t) t.0
  where
    pick :
        (r : ℕ)
        → Found counts (x ∷ xs) 0 (uint64_mod - 1) 0 r
        → IsTracked counts x
        → (y : ServiceInstance) × (get_elem? (x ∷ xs) r ≡ some y)
          × In y (x ∷ xs)
          × All (λ z. connections counts y ≤ connections counts z) (x ∷ xs)
    pick r (inl (same, all)) (n, e, small) =
        (x, rw same refl, inl refl, All-le counts (x ∷ xs) (omega (arith, ap or_zero e)) all)
    pick r (inr (k, y, same, at, lower, all)) _ =
        let r-k : r ≡ k = omega arith in (y, rw r-k at, In-of_get_elem? (x ∷ xs) k at, all)

-- Where each instance of a `LeastConnections` balancer has a counter, `GetInstance` leaves the
-- balancer as it was and returns one of the instances, which has no more connections than any.
pub get_instance-least :
    (draw : ℕ) (lb : LoadBalancer) (x : ServiceInstance) (xs : List ServiceInstance)
    → lb.lb_type ≡ least_connections
    → lb.service_instances ≡ x ∷ xs
    → All (IsTracked lb.connection_count) (x ∷ xs)
    → (y : ServiceInstance) × (get_instance draw lb ≡ (lb, chosen y))
      × In y (x ∷ xs)
      × All (λ z. connections lb.connection_count y ≤ connections lb.connection_count z) (x ∷ xs)
unfolding get_instance
get_instance-least draw lb x xs ty is t =
    let (y, at, member, least) = least_index-least lb.connection_count x xs t in
    (y, ground (arith, switch_least lb.lb_type ty, at, is), member, least)
