-- ===== src/Proxy/Requests.antt =====
-- What the proxy does with a request, and what is left of it in the load balancers.
use siger_api_gateway.Common.{ℕ, ◌≡◌, refl, ◌⊎◌, inl, inr, String, List, [], ◌∷◌, ◌++◌, Map, In}
use siger_api_gateway.Http.{
  Request, Writer, Reply, returned, panicked, http_error, write, write_header, text,
}
use siger_api_gateway.Discovery.Instance.{ServiceInstance}
use siger_api_gateway.Discovery.Balancer.{
  LoadBalancer, get_instance, Selected, chosen, no_instances, index_out_of_range, instance_begin,
  instance_end,
}
use siger_api_gateway.Discovery.Balancer.Members.{get_instance-In, get_instance-Keeps}
use siger_api_gateway.Discovery.Registry.{Found}
use siger_api_gateway.Proxy.{
  ProxyHandler, Outgoing, Answer, answered, unreachable, director, on_balancer, forwarded, counted,
  serve, handle_proxy,
}
use siger_api_gateway.Proxy.Choice.{
  IsServing, IsUnknown, IsUpdated, get_service_instance_cases, on_balancer-IsUpdated,
}

abbrev pub handler_of : Reply ProxyHandler → ProxyHandler
handler_of (returned ph out) = ph
handler_of (panicked why ph out) = ph

-- What the client and the counter of upstream requests get from the answer of the backend.
abbrev pub IsAnswered :
    String → Answer → List (String × String) → List (String × String) → Writer → Writer → Type 0
IsAnswered service (answered copy) total total' out out' =
    (out' ≡ copy out) × (total' ≡ total ++ (service, "success") ∷ [])
IsAnswered service unreachable total total' out out' =
    (out' ≡ write (text "Bad Gateway") (write_header 502 out))
    × (total' ≡ total ++ (service, "error") ∷ (service, "success") ∷ [])

is_answered :
    (service : String) (a : Answer) (total : List (String × String)) (out : Writer)
    → IsAnswered service a total (counted service a total) out (forwarded a out)
unfolding counted forwarded
is_answered service (answered copy) total out = (refl, refl)
is_answered service unreachable total out = (refl, refl)

-- What comes of a choice of the balancer `lb`, which made the balancers `lbs'` of `lbs`.
abbrev pub ServeOutcome :
    (Outgoing → Answer)
    → String
    → LoadBalancer
    → Selected
    → (lbs lbs' : Map LoadBalancer) → Request
    → ProxyHandler
    → Writer
    → Reply ProxyHandler
    → Type 0
ServeOutcome backend service lb no_instances lbs lbs' r ph out reply =
    reply
    ≡ returned (record ph { load_balancers = lbs' }) (http_error "Service unavailable" 503 out)
ServeOutcome backend service lb index_out_of_range lbs lbs' r ph out reply =
    reply ≡ panicked "index out of range" (record ph { load_balancers = lbs' }) out
ServeOutcome backend service lb (chosen i) lbs lbs' r ph out reply =
    In i lb.service_instances
    × (lbs'' : Map LoadBalancer) × (total : List (String × String)) × (out' : Writer) × IsUpdated
        service (instance_end i.id (instance_begin i.id lb)) lbs lbs''
    × IsAnswered service (backend (director i r)) ph.upstream_requests total out out'
    × (reply ≡ returned (record { load_balancers = lbs''; upstream_requests = total }) out')

serve_cases :
    (backend : Outgoing → Answer) (service : String) (lb : LoadBalancer) (s : Selected)
    (lbs lbs' : Map LoadBalancer) (r : Request) (ph : ProxyHandler) (out : Writer)
    → IsUpdated service lb lbs lbs'
    → ((i : ServiceInstance) → s ≡ chosen i → In i lb.service_instances)
    → ServeOutcome backend service lb s lbs lbs' r ph out (serve backend service s lbs' r ph out)
unfolding serve
serve_cases backend service lb no_instances lbs lbs' r ph out u own = refl
serve_cases backend service lb index_out_of_range lbs lbs' r ph out u own = refl
serve_cases backend service lb (chosen i) lbs lbs' r ph out u own =
    let begun = on_balancer-IsUpdated service (instance_begin i.id) lb lbs lbs' u in
    let ended =
      on_balancer-IsUpdated service (instance_end i.id) (instance_begin i.id lb) lbs
        (on_balancer service (instance_begin i.id) lbs') begun in
    (
      own i refl,
      _,
      _,
      _,
      ended,
      is_answered service (backend (director i r)) ph.upstream_requests out,
      refl,
    )

unserved :
    (backend : Outgoing → Answer) (service : String) (r : Request) (ph : ProxyHandler)
    (out : Writer)
    → serve backend service no_instances ph.load_balancers r ph out
      ≡ returned ph (http_error "Service unavailable" 503 out)
unfolding serve
unserved backend service r ph out = refl

-- Where no balancer of the service is there and discovery finds no instance, the proxy answers 503 and
-- nothing changes. Otherwise it asks the balancer of the service, a new round-robin one if there
-- was none. If that gives an instance, which is one of its own, the request is counted as begun and as
-- ended there, and the client gets the response of the backend; or 502 if there is none, when the request
-- is counted as an error and as a success. The balancers of other services stay as they were.
pub handle_proxy_cases :
    (discover : String → Found (List ServiceInstance)) (draw : ℕ) (backend : Outgoing → Answer)
    (service : String) (r : Request) (ph : ProxyHandler) (out : Writer)
    → (IsUnknown discover service ph.load_balancers
        × (handle_proxy discover draw backend service r ph out
            ≡ returned ph (http_error "Service unavailable" 503 out)))
      ⊎ ((lb : LoadBalancer) × (lbs' : Map LoadBalancer) × IsServing discover service
            ph.load_balancers lb
          × IsUpdated service (get_instance draw lb).0 ph.load_balancers lbs'
          × ServeOutcome backend service
              (get_instance draw lb).0
              (get_instance draw lb).1
              ph.load_balancers
              lbs'
              r
              ph
              out
              (handle_proxy discover draw backend service r ph out))
unfolding handle_proxy
handle_proxy_cases discover draw backend service r ph out =
    elim (get_service_instance_cases discover draw service ph.load_balancers) [
      | inl (unknown, e) ↦ inl (unknown, rw e (unserved backend service r ph out))
      | inr (lb, lbs', serving, updated, e) ↦ inr (
        lb,
        lbs',
        serving,
        updated,
        rw e (
            serve_cases backend service (get_instance draw lb).0 (get_instance draw lb).1
              ph.load_balancers lbs' r ph out updated
              (λ i chose. rw (get_instance-Keeps draw lb).0 (get_instance-In draw lb i chose))),
      )
    ]
