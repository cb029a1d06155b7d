-- ===== src/Router.antt =====
-- cmd/main.go: the routes, and the middlewares that every request passes before them. Which route a
-- request finds, with its path parameters, is chi's answer, an argument; so are chi's own
-- middlewares and the page of Prometheus.
pub mod Recovers
pub mod Guarded
pub mod Protection
pub mod Tests
use siger_api_gateway.Common.{
  ℕ, Bool, true, false, String, Option, none, some, List, [], ◌∷◌, Map, Time,
}
use siger_api_gateway.Http.{
  Handler, Request, Writer, Reply, returned, panicked, write, write_header, set_header, text, Chunk,
  http_error, map_reply, fresh_writer,
}
use siger_api_gateway.Middleware.Auth.Library.{Jwt}
use siger_api_gateway.Middleware.Auth.{jwt_auth, require_role}
use siger_api_gateway.Middleware.Recovery.{PanicLog, recoverer}
use siger_api_gateway.Middleware.Logging.{RequestLog, request_logger}
use siger_api_gateway.Middleware.Metrics.{HttpMetrics, metrics}
use siger_api_gateway.Middleware.Cors.{cors}
use siger_api_gateway.Middleware.RateLimit.Library.{RateLibrary}
use siger_api_gateway.Middleware.RateLimit.{RateLimiter, rate_limit}
use siger_api_gateway.Handlers.Jobs.{
  Env as JobsEnv, JobSubmissionHandler, submit_job, get_job_status, cancel_job, list_jobs,
  list_jobs_by_status_handler,
}
use siger_api_gateway.Handlers.Accounts.{
  Env as AccountsEnv, AuthHandler, login, register, get_profile,
}
use siger_api_gateway.Discovery.Instance.{ServiceInstance}
use siger_api_gateway.Discovery.Registry.{Found}
use siger_api_gateway.Proxy.{ProxyHandler, Outgoing, Answer, proxy_route}

-- The routes, in the order in which they are registered; `not_found` is none of them.
pub data Route : Type 0 where
  health_route metrics_route : Route
  login_route register_route profile_route : Route
  submit_route job_route cancel_route list_route by_status_route admin_stats_route : Route
  status_route services_route admin_route : Route
  not_found : Route

-- The method and the pattern of a route; "*" stands for every method.
unfoldable pub pattern_of : Route → Option (String × String)
pattern_of health_route = some ("GET", "/health")
pattern_of metrics_route = some ("*", "/metrics")
pattern_of login_route = some ("POST", "/auth/login")
pattern_of register_route = some ("POST", "/auth/register")
pattern_of profile_route = some ("GET", "/auth/profile")
pattern_of submit_route = some ("POST", "/api/v1/jobs")
pattern_of job_route = some ("GET", "/api/v1/jobs/{jobID}")
pattern_of cancel_route = some ("DELETE", "/api/v1/jobs/{jobID}")
pattern_of list_route = some ("GET", "/api/v1/jobs")
pattern_of by_status_route = some ("GET", "/api/v1/jobs/status/{status}")
pattern_of admin_stats_route = some ("GET", "/api/v1/admin-stats")
pattern_of status_route = some ("GET", "/api/v1/status")
pattern_of services_route = some ("*", "/services/{serviceName}/*")
pattern_of admin_route = some ("GET", "/admin/")
pattern_of not_found = none

-- The three handlers with a state of their own; `proxy` is `none` without a service registry.
pub record App : Type 0 where
  pub jobs : JobSubmissionHandler
  pub accounts : AuthHandler
  pub proxy : Option ProxyHandler

-- What a request meets outside the gateway; `now` is the time of the token's check.
pub record Outside : Type 0 where
  pub jobs : JobsEnv
  pub accounts : AccountsEnv
  pub jwt : Jwt
  pub now : Time
  pub secret : String
  pub discover : String → Found (List ServiceInstance)
  pub draw : ℕ
  pub backend : Outgoing → Answer
  pub metrics_page : Writer → Writer

abbrev on_jobs : Handler JobSubmissionHandler → Handler App
on_jobs h r a out = map_reply (λ j. record a { jobs = j }) (h r a.jobs out)

abbrev on_accounts : Handler AuthHandler → Handler App
on_accounts h r a out = map_reply (λ x. record a { accounts = x }) (h r a.accounts out)

-- The routes of the proxy are registered only if there is one.
abbrev on_proxy : Handler ProxyHandler → Handler App
on_proxy h r a out = elim a.proxy [
  | none ↦ returned a (http_error "404 page not found" 404 out)
  | some p ↦ map_reply (λ x. record a { proxy = some x }) (h r p out)
]

-- A handler that only writes a text with status 200, after the content type if there is one.
abbrev says : Option String → String → Handler App
says none body r a out = returned a (write (text body) (write_header 200 out))
says (some content_type) body r a out =
    returned a (write (text body) (write_header 200 (set_header "Content-Type" content_type out)))

-- The handler of a route, with the middlewares of its groups.
unfoldable pub route_handler : Outside → Route → Handler App
route_handler o health_route r a out = says none "OK" r a out
route_handler o metrics_route r a out = returned a (o.metrics_page out)
route_handler o login_route r a out = on_accounts (login o.accounts) r a out
route_handler o register_route r a out = on_accounts (register o.accounts) r a out
route_handler o profile_route r a out =
    jwt_auth o.jwt a.accounts.secret o.now (on_accounts get_profile) r a out
route_handler o submit_route r a out =
    jwt_auth o.jwt o.secret o.now (on_jobs (submit_job o.jobs)) r a out
route_handler o job_route r a out =
    jwt_auth o.jwt o.secret o.now (on_jobs (get_job_status o.jobs)) r a out
route_handler o cancel_route r a out =
    jwt_auth o.jwt o.secret o.now (on_jobs (cancel_job o.jobs)) r a out
route_handler o list_route r a out = jwt_auth o.jwt o.secret o.now (on_jobs list_jobs) r a out
route_handler o by_status_route r a out =
    jwt_auth o.jwt o.secret o.now (on_jobs list_jobs_by_status_handler) r a out
route_handler o admin_stats_route r a out =
    jwt_auth o.jwt o.secret o.now
      (require_role "admin" (
        says (some "application/json") "{\"admin\":\"true\",\"message\":\"Admin access granted\"}"))
      r a out
route_handler o status_route r a out =
    says (some "application/json") "{\"status\":\"operational\",\"version\":\"1.0.0\"}" r a out
route_handler o services_route r a out = on_proxy (proxy_route o.discover o.draw o.backend) r a out
route_handler o admin_route r a out =
    jwt_auth o.jwt o.secret o.now
      (require_role "admin" (says (some "application/json") "{\"message\":\"Admin dashboard\"}")) r
      a out
route_handler o not_found r a out = returned a (http_error "404 page not found" 404 out)

-- The router runs the handler of the route that chi finds, with the path parameters.
unfoldable pub routed : (Request → Route × Map String) → Outside → Handler App
unfolding route_handler
routed find_route o r a out =
    let (route, params) = find_route r in route_handler o route (record r { params = params }) a out

-- The readings of the clock by the middlewares, the sizes of responses, `strings.ToLower`, and the
-- four middlewares of chi.
pub record Server (L : Type 0) : Type 0 where
  pub start : Time
  pub stop : Time
  pub seen : Time
  pub taken : Time
  pub size : List Chunk → ℕ
  pub to_lower : String → String
  pub rate : RateLibrary L
  pub find_route : Request → Route × Map String
  pub outside : Outside
  pub request_id : Handler (RateLimiter L × App) → Handler (RateLimiter L × App)
  pub real_ip : Handler (RateLimiter L × App) → Handler (RateLimiter L × App)
  pub url_format : Handler (RateLimiter L × App) → Handler (RateLimiter L × App)
  pub timeout : Handler (RateLimiter L × App) → Handler (RateLimiter L × App)

-- The state of the whole gateway.
abbrev pub Gateway : Type 0 → Type 0
Gateway L = PanicLog × (RequestLog × (HttpMetrics × (RateLimiter L × App)))

module _ {L : Type 0} (v : Server L) where
  -- What stands behind the CORS middleware.
  abbrev pub behind_cors : Handler (RateLimiter L × App)
  behind_cors = v.request_id (
      v.real_ip (
        v.url_format
          (v.timeout (rate_limit v.rate v.seen v.taken (routed v.find_route v.outside)))))

  -- The first three middlewares.
  abbrev pub observed :
      {W : Type 0} → Handler W → Handler (PanicLog × (RequestLog × (HttpMetrics × W)))
  observed next =
      recoverer (request_logger v.size v.start v.stop (metrics v.size v.start v.stop next))

  abbrev gateway_with :
      Option (Handler (RateLimiter L × App) → Handler (RateLimiter L × App))
      → Option (Handler (Gateway L))
  gateway_with none = none
  gateway_with (some middleware) = some (observed (middleware behind_cors))

  -- The router of `main`; `none` is a panic while it is built.
  unfoldable pub gateway : Option (Handler (Gateway L))
  unfolding recoverer request_logger metrics rate_limit routed
  gateway = gateway_with (cors v.to_lower none)
