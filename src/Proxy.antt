-- ===== src/Proxy.antt =====
-- internal/proxy/proxy.go: the reverse proxy, and the route of cmd/main.go that leads to it. One
-- request is one step. The registry's answers, the random index and the backend are arguments;
-- the map of load balancers holds the balancers themselves.
pub mod Choice
pub mod Requests
pub mod Paths
pub mod Watching
pub mod Connections
pub mod Tests
use siger_api_gateway.Common.{
  ℕ, Bool, true, false, not, ◌&&◌, ◌==◌, String, Option, none, some, List, [], ◌∷◌, ◌++◌, Map,
  lookup, store, if◌then◌else◌, concat, itoa, starts_with_slash, ends_with_slash, drop_first,
}
use siger_api_gateway.Http.{
  rewrite, Handler, Request, Writer, Reply, returned, panicked, http_error, write_header, write,
  text, url_param,
}
use siger_api_gateway.Discovery.Instance.{ServiceInstance}
use siger_api_gateway.Discovery.Balancer.{
  LoadBalancer, round_robin, new_load_balancer, get_instance, Selected, chosen, no_instances,
  index_out_of_range, instance_begin, instance_end, update_instances,
}
use siger_api_gateway.Discovery.Registry.{Found, found, failed}
use siger_api_gateway.Discovery.Registry.Watch.{WatchEvent, instances, watch_failed}

-- `upstream_requests` is `metrics.UpstreamRequestsTotal`: the labels of each increment, in order.
pub record ProxyHandler : Type 0 where
  pub load_balancers : Map LoadBalancer
  pub upstream_requests : List (String × String)

unfoldable pub new_proxy_handler : ProxyHandler
new_proxy_handler = record { load_balancers = []; upstream_requests = [] }

-- `singleJoiningSlash` of net/http/httputil.
unfoldable pub join_path : String → String → String
join_path a b =
    if ends_with_slash a && starts_with_slash b
    then concat a (drop_first b)
    else if not (ends_with_slash a) && not (starts_with_slash b)
    then concat a (concat "/" b)
    else concat a b

-- `Header.Set` unless the header is there.
abbrev set_if_absent : String → String → Map String → Map String
set_if_absent k v headers = elim (lookup k headers) [ none ↦ store k v headers | some _ ↦ headers ]

-- The request that the director makes.
pub record Outgoing : Type 0 where
  pub method : String
  pub scheme : String
  pub host : String
  pub path : String
  pub query : String
  pub headers : Map String
  pub body : String

-- The director of `NewSingleHostReverseProxy`, whose target has the path of the request, with the
-- headers that the gateway adds; the encoded form of a path is left out, and so is the User-Agent.
unfoldable pub director : ServiceInstance → Request → Outgoing
director i r = record {
  method = r.method;
  scheme = "http";
  host = concat i.address (concat ":" (itoa i.port));
  path = join_path r.path r.path;
  query = r.query;
  headers = store "X-Gateway" "siger-api-gateway" (
      set_if_absent "X-Forwarded-Proto" (if r.tls then "https" else "http")
        (set_if_absent "X-Forwarded-For" r.remote_addr r.headers));
  body = r.body;
}

-- What the backend makes of a request: the response copied to the client, or no response.
pub data Answer : Type 0 where
  answered : (Writer → Writer) → Answer
  unreachable : Answer

-- `getServiceInstance`, where the balancer of the service is known.
abbrev pub choose : ℕ → String → LoadBalancer → Map LoadBalancer → Map LoadBalancer × Selected
choose draw service lb lbs = let (lb', s) = get_instance draw lb in (store service lb' lbs, s)

-- With a balancer for what discovery finds, unless that is nothing.
discovered :
    ℕ → String → Found (List ServiceInstance) → Map LoadBalancer → Map LoadBalancer × Selected
discovered draw service (failed e) lbs = (lbs, no_instances)
discovered draw service (found []) lbs = (lbs, no_instances)
discovered draw service (found (i ∷ is)) lbs =
    let lb = new_load_balancer round_robin (i ∷ is) in choose draw service lb (store service lb lbs)

-- Every error of the source is `no_instances`: the caller does not tell them apart.
unfoldable pub get_service_instance :
    (String → Found (List ServiceInstance))
    → ℕ
    → String
    → Map LoadBalancer
    → Map LoadBalancer × Selected
unfolding discovered
get_service_instance discover draw service lbs = elim (lookup service lbs) [
  | none ↦ discovered draw service (discover service) lbs
  | some lb ↦ choose draw service lb lbs
]

-- A method call on `ph.loadBalancers[serviceName]`, which is there once an instance is chosen.
abbrev pub on_balancer :
    String → (LoadBalancer → LoadBalancer) → Map LoadBalancer → Map LoadBalancer
on_balancer service f lbs = elim (lookup service lbs) [
  | none ↦ lbs
  | some lb ↦ store service (f lb) lbs
]

-- The proxy's error handler, or the copied response.
forwarded : Answer → Writer → Writer
forwarded (answered copy) out = copy out
forwarded unreachable out = write (text "Bad Gateway") (write_header 502 out)

counted : String → Answer → List (String × String) → List (String × String)
counted service (answered copy) total = total ++ (service, "success") ∷ []
counted service unreachable total = total ++ (service, "error") ∷ (service, "success") ∷ []

-- From `InstanceBegin` to the deferred `InstanceEnd`.
serve :
    (Outgoing → Answer)
    → String
    → Selected
    → Map LoadBalancer
    → Request
    → ProxyHandler
    → Writer
    → Reply ProxyHandler
unfolding director forwarded counted
serve backend service no_instances lbs r ph out =
    returned (record ph { load_balancers = lbs }) (http_error "Service unavailable" 503 out)
serve backend service index_out_of_range lbs r ph out =
    panicked "index out of range" (record ph { load_balancers = lbs }) out
serve backend service (chosen i) lbs r ph out =
    let answer = backend (director i r) in
    let begun = on_balancer service (instance_begin i.id) lbs in
    returned
      (record {
        load_balancers = on_balancer service (instance_end i.id) begun;
        upstream_requests = counted service answer ph.upstream_requests;
      })
      (forwarded answer out)

unfoldable pub handle_proxy :
    (String → Found (List ServiceInstance))
    → ℕ
    → (Outgoing → Answer)
    → String
    → Handler ProxyHandler
unfolding get_service_instance serve
handle_proxy discover draw backend service r ph out =
    let (lbs, s) = get_service_instance discover draw service ph.load_balancers in
    serve backend service s lbs r ph out

-- The route "/services/{serviceName}/*", which rewrites the path in the URL of the request.
unfoldable pub proxy_route :
    (String → Found (List ServiceInstance)) → ℕ → (Outgoing → Answer) → Handler ProxyHandler
unfolding handle_proxy
proxy_route discover draw backend r ph out =
    if url_param "serviceName" r == ""
    then returned ph (http_error "Service name is required" 400 out)
    else handle_proxy discover draw backend (url_param "serviceName" r)
        (record r { path = concat "/" (url_param "*" r) }) ph
        (rewrite (concat "/" (url_param "*" r)) out)

-- One event of `watchServiceChanges`.
unfoldable pub watch_service_changes :
    String → List WatchEvent → Map LoadBalancer → Map LoadBalancer
watch_service_changes service [] lbs = lbs
watch_service_changes service (watch_failed ∷ events) lbs = watch_service_changes service events lbs
watch_service_changes service (instances is ∷ events) lbs =
    watch_service_changes service events (on_balancer service (update_instances is) lbs)
