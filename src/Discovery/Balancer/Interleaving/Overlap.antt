-- ===== src/Discovery/Balancer/Interleaving/Overlap.antt =====
-- Ends that overlap at an instance whose counter is smaller than the number of its requests, as it is
-- after an update that drops the instance and one that brings it back.
use siger_api_gateway.Common.{
  ℕ, zero, suc, ◌+◌, ◌-◌, ◌*◌, ◌%◌, ◌<◌, ◌≤◌, ◌≡◌, refl, ap, ◌∙◌, String, some, lookup, eq_refl,
  arith, sym, store_same, ltb, true, if◌then◌else◌,
}
use siger_api_gateway.Discovery.Balancer.{
  LoadBalancer, uint64_mod, set_count, instance_end, decrement,
}
use siger_api_gateway.Discovery.Balancer.Counts.{lookup-instance_begin_end}
use siger_api_gateway.Discovery.Balancer.Interleaving.{minus_one, subtract}
use siger_api_gateway.Discovery.Balancer.Interleaving.Exact.{lookup-subtract}

-- `k` ends one after the other.
unfoldable pub ends_in_turn : ℕ → String → LoadBalancer → LoadBalancer
ends_in_turn zero id lb = lb
ends_in_turn (suc k) id lb = ends_in_turn k id (instance_end id lb)

-- The second steps of `k` ends that have all loaded `seen`.
unfoldable pub second_steps : ℕ → String → ℕ → LoadBalancer → LoadBalancer
second_steps zero id seen lb = lb
second_steps (suc k) id seen lb = second_steps k id seen (subtract id seen lb)

-- The two steps of an end are the whole of it, if nothing comes between them.
pub subtract-instance_end :
    (id : String) (n : ℕ) (lb : LoadBalancer)
    → lookup id lb.connection_count ≡ some n
    → subtract id n lb ≡ instance_end id lb
unfolding subtract instance_end set_count
subtract-instance_end id zero lb e =
    rw e
      (ap (λ m. record lb { connection_count = m }) (sym (store_same id 0 lb.connection_count e)))
subtract-instance_end id (suc n) lb e =
    let t : ltb 0 (suc n) ≡ true = ground arith in rw (e, t) refl

pub lookup-ends_in_turn :
    (k : ℕ) (id : String) (n : ℕ) (lb : LoadBalancer)
    → n < uint64_mod
    → lookup id lb.connection_count ≡ some n
    → lookup id (ends_in_turn k id lb).connection_count ≡ some (n - k)
unfolding ends_in_turn
lookup-ends_in_turn zero id n lb small e = e ∙ ap some (omega arith)
lookup-ends_in_turn (suc k) id n lb small e =
    let down : decrement n ≡ n - 1 = ground arith in
    let next : lookup id (instance_end id lb).connection_count ≡ some (n - 1) =
      (lookup-instance_begin_end id id lb).1 ∙ rw (eq_refl id, e, down) refl in
    lookup-ends_in_turn k id (n - 1) (instance_end id lb) (omega arith) next ∙ ap some (omega arith)

-- What `k` second steps make of a counter: it goes on from 2^64 - 1 below zero.
pub lookup-second_steps :
    (k : ℕ) (id : String) (seen n : ℕ) (lb : LoadBalancer)
    → 0 < seen
    → n < uint64_mod
    → lookup id lb.connection_count ≡ some n
    → lookup id (second_steps k id seen lb).connection_count
      ≡ some ((n + k * (uint64_mod - 1)) % uint64_mod)
unfolding second_steps
lookup-second_steps zero id seen n lb pos small e = e ∙ ap some (omega arith)
lookup-second_steps (suc k) id seen n lb pos small e =
    let next : lookup id (subtract id seen lb).connection_count ≡ some (minus_one n) =
      lookup-subtract id id seen lb pos ∙ rw (eq_refl id, e) refl in
    lookup-second_steps k id seen (minus_one n) (subtract id seen lb) pos (omega arith) next
    ∙ ap some (omega arith)

-- Where `k` ends, 2^64 at most, have all loaded a counter that is not zero before the first subtracts,
-- it is afterwards less by `k`, and if it was smaller than that, it has gone on from 2^64 - 1; one
-- after the other, the same ends stop at zero.
pub ends_overlap :
    (k : ℕ) (id : String) (n : ℕ) (lb : LoadBalancer)
    → 0 < n
    → n < uint64_mod
    → k ≤ uint64_mod
    → lookup id lb.connection_count ≡ some n
    → (lookup id (second_steps k id n lb).connection_count
        ≡ some (if ltb n k then uint64_mod - (k - n) else n - k))
      × (lookup id (ends_in_turn k id lb).connection_count ≡ some (n - k))
ends_overlap k id n lb pos small few e = (
  lookup-second_steps k id n n lb pos small e ∙ ap some (ground arith),
  lookup-ends_in_turn k id n lb small e,
)
