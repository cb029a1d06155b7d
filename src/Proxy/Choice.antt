-- ===== src/Proxy/Choice.antt =====
-- Which balancer serves a request, and what a choice leaves of the balancers.
use siger_api_gateway.Common.{
  ℕ, ◌≡◌, refl, ◌∙◌, ◌≢◌, ◌⊎◌, inl, inr, String, none, some, List, [], ◌∷◌, Map, lookup, store,
  lookup-store, eq_refl, ne→eq_false, Option-cases,
}
use siger_api_gateway.Discovery.Instance.{ServiceInstance}
use siger_api_gateway.Discovery.Balancer.{
  LoadBalancer, round_robin, new_load_balancer, get_instance, no_instances,
}
use siger_api_gateway.Discovery.Registry.{Found, found, failed, RegistryError}
use siger_api_gateway.Proxy.{on_balancer, discovered, get_service_instance}
use siger_api_gateway.Proxy.Watching.{lookup-on_balancer, lookup-on_balancer_other}

-- The balancer that a request for a service uses: the one there is, or else a new one for the instances
-- that discovery finds.
abbrev pub IsServing :
    (String → Found (List ServiceInstance)) → String → Map LoadBalancer → LoadBalancer → Type 0
IsServing discover service lbs lb =
    (lookup service lbs ≡ some lb)
    ⊎ ((lookup service lbs ≡ none)
        × ((i : ServiceInstance) × (is : List ServiceInstance) × (discover service ≡ found (i ∷ is))
            × (lb ≡ new_load_balancer round_robin (i ∷ is))))

-- No balancer is there, and discovery fails or finds nothing.
abbrev pub IsUnknown : (String → Found (List ServiceInstance)) → String → Map LoadBalancer → Type 0
IsUnknown discover service lbs =
    (lookup service lbs ≡ none)
    × (((e : RegistryError) × (discover service ≡ failed e)) ⊎ (discover service ≡ found []))

-- The balancers after a choice: that of the service is the given one, and the others are as before.
pub record IsUpdated (service : String) (lb : LoadBalancer) (lbs lbs' : Map LoadBalancer)
    : Type 0 where
  pub own : lookup service lbs' ≡ some lb
  pub others : (other : String) → service ≢ other → lookup other lbs' ≡ lookup other lbs

store-IsUpdated :
    (service : String) (lb : LoadBalancer) (lbs : Map LoadBalancer)
    → IsUpdated service lb lbs (store service lb lbs)
store-IsUpdated service lb lbs = record {
  own = lookup-store service service lb lbs ∙ rw (eq_refl service) refl;
  others = λ other ne. lookup-store service other lb lbs ∙ rw (ne→eq_false service other ne) refl;
}

get_service_instance-none :
    (discover : String → Found (List ServiceInstance)) (draw : ℕ) (service : String)
    (lbs : Map LoadBalancer)
    → lookup service lbs ≡ none
    → get_service_instance discover draw service lbs
      ≡ discovered draw service (discover service) lbs
unfolding get_service_instance
get_service_instance-none discover draw service lbs e = rw (get_service_instance, e) refl

pub get_service_instance_cases :
    (discover : String → Found (List ServiceInstance)) (draw : ℕ) (service : String)
    (lbs : Map LoadBalancer)
    → (IsUnknown discover service lbs
        × (get_service_instance discover draw service lbs ≡ (lbs, no_instances)))
      ⊎ ((lb : LoadBalancer) × (lbs' : Map LoadBalancer) × IsServing discover service lbs lb
          × IsUpdated service (get_instance draw lb).0 lbs lbs'
          × (get_service_instance discover draw service lbs ≡ (lbs', (get_instance draw lb).1)))
unfolding get_service_instance discovered
get_service_instance_cases discover draw service lbs = elim (Option-cases (lookup service lbs)) [
  | inr (lb, e) ↦ inr (
    lb,
    store service (get_instance draw lb).0 lbs,
    inl e,
    store-IsUpdated service (get_instance draw lb).0 lbs,
    rw (get_service_instance, e) refl,
  )
  | inl e ↦ elim (found_cases (discover service)) [
    | inl (err, f) ↦ inl ((e, inl (err, f)), none_e e ∙ rw f refl)
    | inr ([], f) ↦ inl ((e, inr f), none_e e ∙ rw f refl)
    | inr (i ∷ is, f) ↦
        let lb = new_load_balancer round_robin (i ∷ is) in
        let new = store-IsUpdated service lb lbs in
        let lb' = (get_instance draw lb).0 in
        let next = store-IsUpdated service lb' (store service lb lbs) in
        inr (
          lb,
          store service lb' (store service lb lbs),
          inr (e, (i, is, f, refl)),
          record {
            own = next.own;
            others = λ other ne. next.others other ne ∙ new.others other ne;
          },
          none_e e ∙ rw f refl,
        )
  ]
]
  where
    none_e :
        lookup service lbs ≡ none
        → get_service_instance discover draw service lbs
          ≡ discovered draw service (discover service) lbs
    none_e e = get_service_instance-none discover draw service lbs e

    found_cases :
        (f : Found (List ServiceInstance))
        → ((e : RegistryError) × (f ≡ failed e)) ⊎ ((is : List ServiceInstance) × (f ≡ found is))
    found_cases (failed e) = inl (e, refl)
    found_cases (found is) = inr (is, refl)

pub on_balancer-IsUpdated :
    (service : String) (f : LoadBalancer → LoadBalancer) (lb : LoadBalancer)
    (lbs lbs' : Map LoadBalancer)
    → IsUpdated service lb lbs lbs'
    → IsUpdated service (f lb) lbs (on_balancer service f lbs')
on_balancer-IsUpdated service f lb lbs lbs' u = record {
  own = lookup-on_balancer service f lbs' lb u.own;
  others = λ other ne. lookup-on_balancer_other service other f lbs' ne ∙ u.others other ne;
}
