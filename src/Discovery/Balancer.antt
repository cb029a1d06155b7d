-- ===== src/Discovery/Balancer.antt =====
-- internal/discovery/loadbalancer.go: the load balancer, each call as one atomic step, as
-- `InstanceEnd` is not: Interleaving has its steps. Counters are `uint64` values; the map holds each instance's counter itself, since nothing but the map points
-- to it. The random index is an argument.
pub mod RoundRobin
pub mod LeastConnections
pub mod Members
pub mod Counts
pub mod Invariant
pub mod Interleaving
pub mod Tests
use siger_api_gateway.Common.{
  ℕ, zero, suc, ◌+◌, ◌-◌, ◌%◌, ◌^◌, Bool, true, false, ◌==◌, String, Option, none, some, List, [],
  ◌∷◌, Map, lookup, store, length, get_elem?, ltb, ℤ, pos, negsuc, if◌then◌else◌,
}
use siger_api_gateway.Discovery.Instance.{ServiceInstance}

abbrev pub uint64_mod : ℕ
uint64_mod = 2 ^ 64

abbrev pub LoadBalancerType : Type 0
LoadBalancerType = String

abbrev pub round_robin : LoadBalancerType
round_robin = "round_robin"

abbrev pub random : LoadBalancerType
random = "random"

abbrev pub least_connections : LoadBalancerType
least_connections = "least_connections"

pub record LoadBalancer : Type 0 where
  pub service_instances : List ServiceInstance
  pub lb_type : LoadBalancerType
  pub counter : ℕ
  pub connection_count : Map ℕ

-- The loop of `NewLoadBalancer`.
unfoldable pub zero_counts : List ServiceInstance → Map ℕ → Map ℕ
zero_counts [] counts = counts
zero_counts (i ∷ is) counts = zero_counts is (store i.id 0 counts)

unfoldable pub new_load_balancer : LoadBalancerType → List ServiceInstance → LoadBalancer
unfolding zero_counts
new_load_balancer lb_type instances = record {
  service_instances = instances;
  lb_type = lb_type;
  counter = 0;
  connection_count = zero_counts instances [];
}

abbrev pub or_zero : Option ℕ → ℕ
or_zero none = 0
or_zero (some n) = n

-- The loop of `UpdateInstances`: `old` is the map that is replaced.
unfoldable pub carry_counts : Map ℕ → List ServiceInstance → Map ℕ → Map ℕ
carry_counts old [] counts = counts
carry_counts old (i ∷ is) counts =
    carry_counts old is (store i.id (or_zero (lookup i.id old)) counts)

unfoldable pub update_instances : List ServiceInstance → LoadBalancer → LoadBalancer
unfolding carry_counts
update_instances instances lb = record lb {
  service_instances = instances;
  connection_count = carry_counts lb.connection_count instances [];
}

-- `int(count)` on a 64-bit machine.
unfoldable pub to_int : ℕ → ℤ
to_int count = if ltb count (2 ^ 63) then pos count else negsuc (uint64_mod - count - 1)

abbrev pub negate : ℕ → ℤ
negate zero = pos 0
negate (suc n) = negsuc n

-- Go's `%`: the remainder has the sign of the dividend.
unfoldable pub rem : ℤ → ℕ → ℤ
rem (pos a) n = pos (a % n)
rem (negsuc a) n = negate (suc a % n)

-- `serviceInstances[i]`; `none` is the panic of an index out of range.
abbrev pub index : List ServiceInstance → ℤ → Option ServiceInstance
index is (pos i) = get_elem? is i
index is (negsuc i) = none

pub data Selected : Type 0 where
  chosen : ServiceInstance → Selected
  no_instances : Selected
  index_out_of_range : Selected

abbrev pub selected : Option ServiceInstance → Selected
selected none = index_out_of_range
selected (some i) = chosen i

abbrev pub next_count : LoadBalancer → ℕ
next_count lb = (lb.counter + 1) % uint64_mod

unfoldable pub next_in_turn : LoadBalancer → LoadBalancer × Selected
unfolding to_int rem
next_in_turn lb = (
  record lb { counter = next_count lb },
  selected
      (index lb.service_instances (rem (to_int (next_count lb)) (length lb.service_instances))),
)

-- The loop of `LeastConnections`: `i` is the index of the first instance of the list, `least` is
-- `minConnections` and `best` is `selectedIdx`.
unfoldable pub least_index : Map ℕ → List ServiceInstance → (i least best : ℕ) → ℕ
least_index counts [] i least best = best
least_index counts (x ∷ xs) i least best = elim (lookup x.id counts) [
  | none ↦ least_index counts xs (suc i) least best
  | some n ↦
      let closer = least_index counts xs (suc i) n i in
      let as_before = least_index counts xs (suc i) least best in
      if ltb n least then closer else as_before
]

-- `draw` is the result of `r.Intn(len(lb.serviceInstances))`.
pub select : ℕ → LoadBalancer → LoadBalancer × Selected
unfolding next_in_turn least_index
select draw lb =
    if lb.lb_type == round_robin
    then next_in_turn lb
    else if lb.lb_type == random
    then (lb, selected (get_elem? lb.service_instances draw))
    else if lb.lb_type == least_connections
    then (
      lb,
      selected (
          get_elem? lb.service_instances
            (least_index lb.connection_count lb.service_instances 0 (uint64_mod - 1) 0)),
    )
    else next_in_turn lb

unfoldable pub get_instance : ℕ → LoadBalancer → LoadBalancer × Selected
unfolding select
get_instance draw lb = elim lb.service_instances [
  | [] ↦ (lb, no_instances)
  | _ ∷ _ ↦ select draw lb
]

pub set_count : String → Option ℕ → (ℕ → ℕ) → LoadBalancer → LoadBalancer
set_count id none f lb = lb
set_count id (some n) f lb = record lb { connection_count = store id (f n) lb.connection_count }

abbrev pub increment : ℕ → ℕ
increment n = (n + 1) % uint64_mod

-- Adding `^uint64(0)` to a counter that is not zero.
abbrev pub decrement : ℕ → ℕ
decrement n = if ltb 0 n then (n + (uint64_mod - 1)) % uint64_mod else n

unfoldable pub instance_begin : String → LoadBalancer → LoadBalancer
unfolding set_count
instance_begin id lb = set_count id (lookup id lb.connection_count) increment lb

unfoldable pub instance_end : String → LoadBalancer → LoadBalancer
unfolding set_count
instance_end id lb = set_count id (lookup id lb.connection_count) decrement lb
