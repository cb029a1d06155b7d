-- ===== src/Discovery/Balancer/Tests.antt =====
-- The load balancer at concrete inputs.
use siger_api_gateway.Common.{
  ◌-◌, ◌^◌, ◌≤◌, ◌≡◌, refl, String, true, some, List, [], ◌∷◌, arith, In, All, get_elem?, pos,
  ne_of_eq_false, lookup, store, contains,
}
use siger_api_gateway.Discovery.Instance.{ServiceInstance}
use siger_api_gateway.Discovery.Balancer.{
  LoadBalancer, round_robin, random, least_connections, new_load_balancer, update_instances,
  get_instance, instance_begin, instance_end, chosen, no_instances, index_out_of_range,
}
use siger_api_gateway.Discovery.Balancer.RoundRobin.{
  TakesTurns, calls, get_instance-calls, get_instance_panics,
}
use siger_api_gateway.Discovery.Balancer.LeastConnections.{connections, get_instance-least}
use siger_api_gateway.Discovery.Balancer.Invariant.{
  IsValid, Call, updates, begins, ends, perform, perform_all, lb_perform_all-IsValid,
  IsValid-IsTracked,
}
use siger_api_gateway.Discovery.Balancer.Interleaving.{
  subtract, Reach, made, loads, subtracts, running, ending,
}
use siger_api_gateway.Discovery.Balancer.Interleaving.Exact.{IsExact, Reach-IsExact}
use siger_api_gateway.Discovery.Balancer.Interleaving.Overlap.{
  second_steps, ends_in_turn, ends_overlap,
}

balancer : Unit {0}
unfolding new_load_balancer update_instances get_instance instance_begin instance_end perform
    perform_all lookup store contains
balancer = tt

abbrev node : String → ServiceInstance
node id = record {
  id = id;
  service_name = "s";
  address = "h";
  port = pos 80;
  healthy = true;
  metadata = [];
}

abbrev three : List ServiceInstance
three = node "a" ∷ node "b" ∷ node "c" ∷ []

abbrev turns : LoadBalancer
turns = record {
  service_instances = three;
  lb_type = round_robin;
  counter = 0;
  connection_count = [];
}

-- One call before the counter no longer fits a signed 64-bit integer.
abbrev worn : LoadBalancer
worn = record turns { counter = 2 ^ 63 - 1 }

abbrev uses : List Call
uses =
    begins "a"
    ∷ begins "b"
    ∷ begins "b"
    ∷ ends "a"
    ∷ updates (node "b" ∷ node "c" ∷ [])
    ∷ begins "c"
    ∷ []

busy : LoadBalancer
unfolding perform_all new_load_balancer
busy = perform_all (new_load_balancer least_connections three) uses

busy-IsValid : IsValid busy
unfolding busy
busy-IsValid = lb_perform_all-IsValid least_connections three uses

balancer_tests :
    (new_load_balancer round_robin three
      ≡ record turns { connection_count = ("a", 0) ∷ ("b", 0) ∷ ("c", 0) ∷ [] })
    × ((get_instance 0 turns).1 ≡ chosen (node "b"))
    × ((get_instance 2 (record turns { lb_type = random })).1 ≡ chosen (node "c"))
    × ((get_instance 0 (record turns { service_instances = [] })).1 ≡ no_instances)
    × (busy.connection_count ≡ ("b", 2) ∷ ("c", 1) ∷ [])
    × ((get_instance 0 busy).1 ≡ chosen (node "c"))
    × ((get_instance 0 worn).1 ≡ index_out_of_range)
unfolding busy balancer
balancer_tests = (refl, refl, refl, refl, refl, refl, refl)

turns-TakesTurns : TakesTurns turns.lb_type
turns-TakesTurns =
    (ne_of_eq_false round_robin random refl, ne_of_eq_false round_robin least_connections refl)

get_instance-calls_example :
    (y : ServiceInstance) × ((get_instance 0 (calls 1 turns)).1 ≡ chosen y)
    × (get_elem? three 2 ≡ some y)
get_instance-calls_example =
    get_instance-calls 1 0 turns (node "a") (node "b" ∷ node "c" ∷ []) turns-TakesTurns refl
      (omega arith)

get_instance_panics_example : (get_instance 0 worn).1 ≡ index_out_of_range
get_instance_panics_example =
    get_instance_panics 0 worn (node "a") (node "b" ∷ node "c" ∷ []) turns-TakesTurns refl
      (omega arith) (omega arith) (omega arith)

get_instance-least_example :
    (y : ServiceInstance) × (get_instance 0 busy ≡ (busy, chosen y))
    × In y (node "b" ∷ node "c" ∷ [])
    × All
        (λ z. connections busy.connection_count y ≤ connections busy.connection_count z)
        (node "b" ∷ node "c" ∷ [])
unfolding busy balancer
get_instance-least_example =
    get_instance-least 0 busy (node "b") (node "c" ∷ []) refl refl
      (IsValid-IsTracked busy busy-IsValid)

lb_perform_all-IsValid_example :
    IsValid (perform_all (new_load_balancer least_connections three) uses)
lb_perform_all-IsValid_example = lb_perform_all-IsValid least_connections three uses

-- Two requests to "a", an update without it, one that brings it back, and a third request to it.
abbrev forgotten : LoadBalancer
forgotten =
    perform_all (new_load_balancer least_connections three)
      (begins "a" ∷ begins "a" ∷ updates (node "b" ∷ []) ∷ updates three ∷ begins "a" ∷ [])

ends_overlap_example :
    (lookup "a" (second_steps 2 "a" 1 forgotten).connection_count ≡ some (2 ^ 64 - 1))
    × (lookup "a" (ends_in_turn 2 "a" forgotten).connection_count ≡ some 0)
unfolding balancer
ends_overlap_example = ends_overlap 2 "a" 1 forgotten (omega arith) (omega arith) (omega arith) refl

abbrev made_of_three : LoadBalancer
made_of_three = new_load_balancer least_connections three

-- Two requests to "a", of which one has loaded the counter when the other has subtracted.
Reach-IsExact_example :
    IsExact
      (ending "a" 2 ∷ [])
      (subtract "a" 2 (instance_begin "a" (instance_begin "a" made_of_three)))
unfolding balancer
Reach-IsExact_example = Reach-IsExact least_connections three (
    subtracts "a" 2 (ending "a" 2 ∷ []) [] (
      loads "a" 2 (ending "a" 2 ∷ []) [] refl (
        loads "a" 2 [] (running "a" ∷ []) refl
          (Reach.begins "a" 1 refl (omega arith) (Reach.begins "a" 0 refl (omega arith) made)))))
