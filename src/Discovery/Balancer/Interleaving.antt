-- ===== src/Discovery/Balancer/Interleaving.antt =====
-- `InstanceEnd` of internal/discovery/loadbalancer.go in its two atomic steps: it loads the counter and,
-- if that was not zero, subtracts one. It holds the read lock in between, which keeps out
-- `UpdateInstances` but not the other calls.
pub mod UnderWay
pub mod Exact
pub mod Overlap
use siger_api_gateway.Common.{
  ℕ, zero, suc, ◌+◌, ◌-◌, ◌%◌, ◌<◌, ◌≡◌, refl, Bool, true, false, ◌==◌, String, Option, none, some,
  List, [], ◌∷◌, ◌++◌, lookup, ltb, if◌then◌else◌, All, contains,
}
use siger_api_gateway.Discovery.Instance.{ServiceInstance}
use siger_api_gateway.Discovery.Balancer.{
  LoadBalancer, LoadBalancerType, uint64_mod, new_load_balancer, update_instances, get_instance,
  set_count, instance_begin,
}
use siger_api_gateway.Discovery.Balancer.Counts.{instance_ids}

-- `atomic.AddUint64(counter, ^uint64(0))`.
abbrev pub minus_one : ℕ → ℕ
minus_one n = (n + (uint64_mod - 1)) % uint64_mod

-- The second step; `seen` is what the first has loaded.
unfoldable pub subtract : String → ℕ → LoadBalancer → LoadBalancer
unfolding set_count
subtract id seen lb =
    if ltb 0 seen then set_count id (lookup id lb.connection_count) (λ n. minus_one n) lb else lb

-- A request to an instance: it has begun, or its end has loaded the counter.
pub data Ongoing : Type 0 where
  running : String → Ongoing
  ending : String → ℕ → Ongoing

abbrev pub instance_of : Ongoing → String
instance_of (running id) = id
instance_of (ending id seen) = id

abbrev pub IsRunning : Ongoing → Type 0
IsRunning (running id) = Unit
IsRunning (ending id seen) = ⊥

-- The requests under way to an instance.
unfoldable pub under_way : String → List Ongoing → ℕ
under_way id [] = 0
under_way id (r ∷ rs) = (if instance_of r == id then 1 else 0) + under_way id rs

-- The steps of requests that overlap, with the choices of instances and the updates between them.
-- A request begins at an instance that has a counter. An update comes while no end is between its
-- steps, and keeps every instance with requests.
pub data Reach (t : LoadBalancerType) (is : List ServiceInstance)
    : List Ongoing → LoadBalancer → Type 0 where
  made : Reach t is [] (new_load_balancer t is)
  picks :
      {rs : List Ongoing} {lb : LoadBalancer} (draw : ℕ)
      → Reach t is rs lb
      → Reach t is rs (get_instance draw lb).0
  begins :
      {rs : List Ongoing} {lb : LoadBalancer} (id : String) (n : ℕ)
      → lookup id lb.connection_count ≡ some n
      → n < uint64_mod - 1
      → Reach t is rs lb
      → Reach t is (running id ∷ rs) (instance_begin id lb)
  loads :
      {lb : LoadBalancer} (id : String) (n : ℕ) (before after : List Ongoing)
      → lookup id lb.connection_count ≡ some n
      → Reach t is (before ++ running id ∷ after) lb
      → Reach t is (before ++ ending id n ∷ after) lb
  subtracts :
      {lb : LoadBalancer} (id : String) (n : ℕ) (before after : List Ongoing)
      → Reach t is (before ++ ending id n ∷ after) lb
      → Reach t is (before ++ after) (subtract id n lb)
  updates :
      {rs : List Ongoing} {lb : LoadBalancer} (new : List ServiceInstance)
      → All IsRunning rs
      → All (λ r. contains (instance_of r) (instance_ids new) ≡ true) rs
      → Reach t is rs lb
      → Reach t is rs (update_instances new lb)
