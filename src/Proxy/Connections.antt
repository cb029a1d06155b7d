-- ===== src/Proxy/Connections.antt =====
-- The connection counters after a request.
use siger_api_gateway.Common.{
  ℕ, ◌<◌, ◌-◌, ◌≡◌, refl, ◌∙◌, List, String, some, Map, lookup, store, lookup-store, eq_refl,
}
use siger_api_gateway.Http.{Request, Writer}
use siger_api_gateway.Discovery.Instance.{ServiceInstance}
use siger_api_gateway.Discovery.Balancer.{
  LoadBalancer, get_instance, Selected, chosen, no_instances, index_out_of_range, instance_begin,
  instance_end, uint64_mod, or_zero,
}
use siger_api_gateway.Discovery.Balancer.Members.{get_instance-Keeps}
use siger_api_gateway.Discovery.Balancer.Counts.{instance_end-instance_begin}
use siger_api_gateway.Discovery.Registry.{Found}
use siger_api_gateway.Proxy.{
  ProxyHandler, Outgoing, Answer, on_balancer, get_service_instance, serve, handle_proxy,
}
use siger_api_gateway.Proxy.Watching.{lookup-on_balancer}
use siger_api_gateway.Proxy.Requests.{handler_of}

-- No instance has 2^64 - 1 requests under way.
abbrev pub IsBelow : LoadBalancer → Type 0
IsBelow lb = (id : String) → or_zero (lookup id lb.connection_count) < uint64_mod - 1

-- The service has a balancer with the counters of `lb`.
abbrev pub HasCounts : String → Map LoadBalancer → LoadBalancer → Type 0
HasCounts service lbs lb =
    (lb' : LoadBalancer) × (lookup service lbs ≡ some lb')
    × ((id : String) → lookup id lb'.connection_count ≡ lookup id lb.connection_count)

serve-counts :
    (backend : Outgoing → Answer) (service : String) (s : Selected) (lb : LoadBalancer)
    (lbs : Map LoadBalancer) (r : Request) (ph : ProxyHandler) (out : Writer)
    → lookup service lbs ≡ some lb
    → IsBelow lb
    → HasCounts service (handler_of (serve backend service s lbs r ph out)).load_balancers lb
unfolding serve
serve-counts backend service no_instances lb lbs r ph out e below = (lb, e, λ id. refl)
serve-counts backend service index_out_of_range lb lbs r ph out e below = (lb, e, λ id. refl)
serve-counts backend service (chosen i) lb lbs r ph out e below = (
  instance_end i.id (instance_begin i.id lb),
  lookup-on_balancer service (instance_end i.id) (on_balancer service (instance_begin i.id) lbs)
      (instance_begin i.id lb) (lookup-on_balancer service (instance_begin i.id) lbs lb e),
  λ id. instance_end-instance_begin i.id id lb (below i.id),
)

get_service_instance-some :
    (discover : String → Found (List ServiceInstance)) (draw : ℕ) (service : String)
    (lbs : Map LoadBalancer) (lb : LoadBalancer)
    → lookup service lbs ≡ some lb
    → get_service_instance discover draw service lbs
      ≡ (store service (get_instance draw lb).0 lbs, (get_instance draw lb).1)
unfolding get_service_instance
get_service_instance-some discover draw service lbs lb e = rw (get_service_instance, e) refl

-- After a request, whatever becomes of it, the balancer of its service has the counters that it had
-- before, unless an instance had 2^64 - 1 requests under way.
pub handle_proxy-counts :
    (discover : String → Found (List ServiceInstance)) (draw : ℕ) (backend : Outgoing → Answer)
    (service : String) (r : Request) (ph : ProxyHandler) (out : Writer) (lb : LoadBalancer)
    → lookup service ph.load_balancers ≡ some lb
    → IsBelow lb
    → HasCounts service
        (handler_of (handle_proxy discover draw backend service r ph out)).load_balancers
        lb
unfolding handle_proxy
handle_proxy-counts discover draw backend service r ph out lb e below =
    let (lb2, s) = get_instance draw lb in
    let lbs = store service lb2 ph.load_balancers in
    let same = (get_instance-Keeps draw lb).1 in
    let stored : lookup service lbs ≡ some lb2 =
      lookup-store service service lb2 ph.load_balancers ∙ rw (eq_refl service) refl in
    let (lb', found, counts) =
      serve-counts backend service s lb2 lbs r ph out stored (λ id. rw same (below id)) in
    rw (get_service_instance-some discover draw service ph.load_balancers lb e)
      (lb', found, λ id. counts id ∙ rw same refl)
