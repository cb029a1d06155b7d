-- ===== src/Proxy/Paths.antt =====
-- The path that reaches the backend.
use siger_api_gateway.Common.{
  ℕ, ◌≡◌, refl, ap, String, ◌==◌, true, false, List, concat, if◌then◌else◌, starts_with_slash,
  ends_with_slash, starts_with_slash-concat, Map,
}
use siger_api_gateway.Http.{Request, Writer, returned, http_error, url_param, rewrite}
use siger_api_gateway.Discovery.Instance.{ServiceInstance}
use siger_api_gateway.Discovery.Balancer.{
  LoadBalancer, Selected, chosen, no_instances, index_out_of_range,
}
use siger_api_gateway.Discovery.Registry.{Found}
use siger_api_gateway.Proxy.{
  ProxyHandler, Outgoing, Answer, join_path, director, serve, handle_proxy, proxy_route,
  get_service_instance,
}

join_path-twice :
    (p : String)
    → starts_with_slash p ≡ true
    → ends_with_slash p ≡ false
    → join_path p p ≡ concat p p
unfolding join_path
join_path-twice p starts ends = rw (starts, ends) refl

-- The backend, if it got the request with another path.
abbrev pub at_path : (Outgoing → Answer) → String → Outgoing → Answer
at_path backend path o = backend (record o { path = path })

serve-at_path :
    (backend : Outgoing → Answer) (service path : String) (s : Selected) (lbs : Map LoadBalancer)
    (r : Request) (ph : ProxyHandler) (out : Writer)
    → join_path r.path r.path ≡ path
    → serve backend service s lbs r ph out ≡ serve (at_path backend path) service s lbs r ph out
unfolding serve director
serve-at_path backend service path no_instances lbs r ph out e = refl
serve-at_path backend service path index_out_of_range lbs r ph out e = refl
serve-at_path backend service path (chosen i) lbs r ph out e = rw (← e) refl

-- The backend gets the path of a request twice: for "/services/users/profile" it is asked for
-- "/profile/profile". So it is for every request whose path after the service does not end in a slash.
pub proxy_route-doubles :
    (discover : String → Found (List ServiceInstance)) (draw : ℕ) (backend : Outgoing → Answer)
    (r : Request) (ph : ProxyHandler) (out : Writer)
    → ends_with_slash (concat "/" (url_param "*" r)) ≡ false
    → proxy_route discover draw backend r ph out
      ≡ proxy_route discover draw
          (at_path backend (concat (concat "/" (url_param "*" r)) (concat "/" (url_param "*" r))))
          r
          ph
          out
unfolding proxy_route handle_proxy
proxy_route-doubles discover draw backend r ph out ends =
    let p = concat "/" (url_param "*" r) in
    let service = url_param "serviceName" r in
    let (lbs, s) = get_service_instance discover draw service ph.load_balancers in
    let same =
      serve-at_path backend service (concat p p) s lbs (record r { path = p }) ph (rewrite p out)
        (join_path-twice p (starts_with_slash-concat (url_param "*" r)) ends) in
    ap
      (λ reply.
        if service == ""
        then returned ph (http_error "Service name is required" 400 out)
        else reply)
      same
