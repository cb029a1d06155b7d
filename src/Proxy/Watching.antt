-- ===== src/Proxy/Watching.antt =====
-- How the load balancer of a service follows the registry.
use siger_api_gateway.Common.{
  ℕ, zero, suc, ◌≡◌, refl, ◌∙◌, String, some, List, [], ◌∷◌, ◌++◌, Map, lookup, lookup-store,
  eq_refl, Option-cases, inl, inr, ne→eq_false, ◌≢◌,
}
use siger_api_gateway.Discovery.Instance.{ServiceInstance}
use siger_api_gateway.Discovery.Balancer.{LoadBalancer, update_instances}
use siger_api_gateway.Discovery.Registry.Watch.{WatchEvent, instances, watch_failed}
use siger_api_gateway.Proxy.{watch_service_changes, on_balancer}

-- A number of failed queries.
abbrev pub failures : ℕ → List WatchEvent
failures zero = []
failures (suc n) = watch_failed ∷ failures n

watch_service_changes-append :
    (service : String) (before after : List WatchEvent) (lbs : Map LoadBalancer)
    → watch_service_changes service (before ++ after) lbs
      ≡ watch_service_changes service after (watch_service_changes service before lbs)
unfolding watch_service_changes
watch_service_changes-append service [] after lbs = refl
watch_service_changes-append service (watch_failed ∷ before) after lbs =
    watch_service_changes-append service before after lbs
watch_service_changes-append service (instances is ∷ before) after lbs =
    watch_service_changes-append service before after
      (on_balancer service (update_instances is) lbs)

watch_service_changes-failures :
    (service : String) (n : ℕ) (lbs : Map LoadBalancer)
    → watch_service_changes service (failures n) lbs ≡ lbs
unfolding watch_service_changes
watch_service_changes-failures service zero lbs = refl
watch_service_changes-failures service (suc n) lbs = watch_service_changes-failures service n lbs

-- A call of one balancer.
pub lookup-on_balancer :
    (service : String) (f : LoadBalancer → LoadBalancer) (lbs : Map LoadBalancer)
    (lb : LoadBalancer)
    → lookup service lbs ≡ some lb
    → lookup service (on_balancer service f lbs) ≡ some (f lb)
lookup-on_balancer service f lbs lb e =
    rw (on_balancer, e) (lookup-store service service (f lb) lbs ∙ rw (eq_refl service) refl)

pub lookup-on_balancer_other :
    (service other : String) (f : LoadBalancer → LoadBalancer) (lbs : Map LoadBalancer)
    → service ≢ other
    → lookup other (on_balancer service f lbs) ≡ lookup other lbs
lookup-on_balancer_other service other f lbs ne = elim (Option-cases (lookup service lbs)) [
  | inl e ↦ rw (on_balancer, e) refl
  | inr (lb, e) ↦
      rw (on_balancer, e)
        (lookup-store service other (f lb) lbs ∙ rw (ne→eq_false service other ne) refl)
]

-- The type and the counter of a balancer, which no watching changes.
pub record IsSameBalancer (lb lb' : LoadBalancer) : Type 0 where
  pub lb_type : lb'.lb_type ≡ lb.lb_type
  pub counter : lb'.counter ≡ lb.counter

watched :
    (service : String) (events : List WatchEvent) (lbs : Map LoadBalancer) (lb : LoadBalancer)
    → lookup service lbs ≡ some lb
    → (lb' : LoadBalancer) × (lookup service (watch_service_changes service events lbs) ≡ some lb')
      × IsSameBalancer lb lb'
unfolding watch_service_changes update_instances
watched service [] lbs lb e = (lb, e, record { lb_type = refl; counter = refl })
watched service (watch_failed ∷ events) lbs lb e = watched service events lbs lb e
watched service (instances is ∷ events) lbs lb e =
    let (lb', e', same) =
      watched service events (on_balancer service (update_instances is) lbs)
        (update_instances is lb) (lookup-on_balancer service (update_instances is) lbs lb e) in
    (lb', e', record { lb_type = same.lb_type; counter = same.counter })

-- After any events that end with the instances of a query that did not fail, and then failed ones,
-- the balancer of the service has just those instances; its type and its counter are the old ones.
pub watch_service_changes_follows :
    (service : String) (before : List WatchEvent) (is : List ServiceInstance) (n : ℕ)
    (lbs : Map LoadBalancer) (lb : LoadBalancer)
    → lookup service lbs ≡ some lb
    → (lb' : LoadBalancer) × (lookup service
          (watch_service_changes service (before ++ instances is ∷ failures n) lbs)
        ≡ some lb')
      × (lb'.service_instances ≡ is)
      × IsSameBalancer lb lb'
unfolding watch_service_changes update_instances
watch_service_changes_follows service before is n lbs lb e =
    let (lb', e', same) = watched service before lbs lb e in
    let before_lbs = watch_service_changes service before lbs in
    (
      update_instances is lb',
      rw
          (
            watch_service_changes-append service before (instances is ∷ failures n) lbs,
            watch_service_changes-failures service n
                (on_balancer service (update_instances is) before_lbs),
          )
          (lookup-on_balancer service (update_instances is) before_lbs lb' e'),
      refl,
      record { lb_type = same.lb_type; counter = same.counter },
    )
