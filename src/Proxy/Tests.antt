-- ===== src/Proxy/Tests.antt =====
-- The proxy at concrete inputs.
use siger_api_gateway.Common.{
  ◌≡◌, refl, ◌⊎◌, inl, inr, String, none, some, List, [], ◌∷◌, false, true, pos, Map, lookup,
  ends_with_slash, if◌then◌else◌, ◌==◌, arith, Bool-cases,
}
use siger_api_gateway.Http.{Request, returned, fresh_writer, http_error, write, text}
use siger_api_gateway.Discovery.Instance.{ServiceInstance}
use siger_api_gateway.Discovery.Balancer.{LoadBalancer, get_instance}
use siger_api_gateway.Discovery.Registry.{AgentService, Consul, Found, discover_service}
use siger_api_gateway.Discovery.Registry.Watch.{instances, watch_failed}
use siger_api_gateway.Proxy.{
  ProxyHandler, Outgoing, Answer, answered, new_proxy_handler, handle_proxy, proxy_route,
  watch_service_changes,
}
use siger_api_gateway.Proxy.Choice.{IsUnknown, IsServing, IsUpdated}
use siger_api_gateway.Proxy.Requests.{ServeOutcome, handle_proxy_cases}
use siger_api_gateway.Proxy.Paths.{proxy_route-doubles, at_path}
use siger_api_gateway.Proxy.Watching.{IsSameBalancer, watch_service_changes_follows}
use siger_api_gateway.Proxy.Connections.{IsBelow}

abbrev entry : AgentService
entry = record { id = "u1"; service = "users"; address = "10.0.0.1"; port = pos 80; meta = [] }

abbrev consul : Consul
consul = record {
  health_service = λ name. if name == "users" then some (entry ∷ []) else some [];
  service_register = λ x. none;
  service_deregister = λ id. none;
}

abbrev discover : String → Found (List ServiceInstance)
discover = discover_service (some consul)

abbrev users : ServiceInstance
users = record {
  id = "u1";
  service_name = "users";
  address = "10.0.0.1";
  port = pos 80;
  healthy = true;
  metadata = [];
}

-- The backend sends back the path that it gets.
abbrev echo : Outgoing → Answer
echo o = answered (λ out. write (text o.path) out)

abbrev ask : Request
ask = record {
  method = "GET";
  path = "/services/users/profile";
  query = "";
  headers = [];
  remote_addr = "1.2.3.4:5";
  tls = false;
  body = "";
  params = ("serviceName", "users") ∷ ("*", "profile") ∷ [];
  context = [];
}

abbrev turns : LoadBalancer
turns = record {
  service_instances = users ∷ [];
  lb_type = "round_robin";
  counter = 0;
  connection_count = ("u1", 3) ∷ [];
}

abbrev serving : ProxyHandler
serving = record { load_balancers = ("users", turns) ∷ []; upstream_requests = [] }

handle_proxy_cases_example :
    (IsUnknown discover "users" []
      × (handle_proxy discover 0 echo "users" ask new_proxy_handler fresh_writer
          ≡ returned new_proxy_handler (http_error "Service unavailable" 503 fresh_writer)))
    ⊎ ((lb : LoadBalancer) × (lbs' : Map LoadBalancer) × IsServing discover "users" [] lb
        × IsUpdated "users" (get_instance 0 lb).0 [] lbs'
        × ServeOutcome echo "users"
            (get_instance 0 lb).0
            (get_instance 0 lb).1
            []
            lbs'
            ask
            new_proxy_handler
            fresh_writer
            (handle_proxy discover 0 echo "users" ask new_proxy_handler fresh_writer))
unfolding new_proxy_handler
handle_proxy_cases_example =
    handle_proxy_cases discover 0 echo "users" ask new_proxy_handler fresh_writer

proxy_route-doubles_example :
    proxy_route discover 0 echo ask serving fresh_writer
    ≡ proxy_route discover 0 (at_path echo "/profile/profile") ask serving fresh_writer
unfolding ends_with_slash lookup
proxy_route-doubles_example = proxy_route-doubles discover 0 echo ask serving fresh_writer refl

watch_service_changes_follows_example :
    (lb' : LoadBalancer) × (lookup "users" (
        watch_service_changes "users"
          (watch_failed ∷ instances [] ∷ instances (users ∷ users ∷ []) ∷ watch_failed ∷ [])
          serving.load_balancers)
      ≡ some lb')
    × (lb'.service_instances ≡ users ∷ users ∷ [])
    × IsSameBalancer turns lb'
unfolding lookup
watch_service_changes_follows_example =
    watch_service_changes_follows "users" (watch_failed ∷ instances [] ∷ []) (users ∷ users ∷ []) 1
      serving.load_balancers turns refl

turns-IsBelow : IsBelow turns
unfolding lookup
turns-IsBelow id = elim (Bool-cases ("u1" == id)) [
  | inl t ↦ rw t (omega arith)
  | inr t ↦ rw t (omega arith)
]
