-- ===== src/Router/Protection.antt =====
-- What a request needs to reach the jobs, through all of the gateway.
use siger_api_gateway.Common.{
  ◌≡◌, refl, sym, ◌∙◌, subst, lookup, inl, inr, true, String, some, [], ◌∷◌, split_space, Map,
}
use siger_api_gateway.Http.{
  Handler, Request, Writer, Reply, returned, panicked, or_empty, state_of, fresh_writer,
}
use siger_api_gateway.Middleware.Auth.Library.{JwtLaws}
use siger_api_gateway.Middleware.RateLimit.{RateLimiter, rate_limit, beside}
use siger_api_gateway.Middleware.RateLimit.Requests.{rate_limit_cases}
use siger_api_gateway.Middleware.Recovery.{PanicLog}
use siger_api_gateway.Middleware.Logging.{RequestLog}
use siger_api_gateway.Middleware.Metrics.{HttpMetrics}
use siger_api_gateway.Middleware.Cors.{default_cors_options}
use siger_api_gateway.Middleware.Cors.Headers.{unwritten}
use siger_api_gateway.Middleware.Cors.Cases.{CorsOutcome}
use siger_api_gateway.Router.{App, Server, Gateway, routed, behind_cors, observed, gateway}
use siger_api_gateway.Router.Recovers.{IsRecorded, cors_made, observed_cases}
use siger_api_gateway.Router.Guarded.{is_guarded, IsEarned, route_handler-guarded}

-- What the middlewares of chi keep of a request.
pub record IsLike (r r' : Request) : Type 0 where
  pub method : r'.method ≡ r.method
  pub path : r'.path ≡ r.path
  pub headers : r'.headers ≡ r.headers
  pub body : r'.body ≡ r.body

-- The documented behaviour of those four: each runs the next handler once, on a request with the same
-- method, path, headers and body, and has no state of its own.
abbrev pub IsPassing : {S : Type 0} → (Handler S → Handler S) → Type 0
IsPassing {S} middleware =
    (next : Handler S) (r : Request) (s : S) (out : Writer)
    → (r' : Request) × IsLike r r' × (state_of (middleware next r s out) ≡ state_of (next r' s out))

pub record ChiLaws {L : Type 0} (v : Server L) : Type 0 where
  pub request_id : IsPassing v.request_id
  pub real_ip : IsPassing v.real_ip
  pub url_format : IsPassing v.url_format
  pub timeout : IsPassing v.timeout

IsLike-trans : (r r' r'' : Request) → IsLike r r' → IsLike r' r'' → IsLike r r''
IsLike-trans r r' r'' a b = record {
  method = b.method ∙ a.method;
  path = b.path ∙ a.path;
  headers = b.headers ∙ a.headers;
  body = b.body ∙ a.body;
}

IsPassing-compose :
    {S : Type 0} (f g : Handler S → Handler S)
    → IsPassing f
    → IsPassing g
    → IsPassing (λ next. f (g next))
IsPassing-compose f g pf pg next r s out =
    let (r', like, e) = pf (g next) r s out in
    let (r'', like', e') = pg next r' s out in (r'', IsLike-trans r r' r'' like like', e ∙ e')

module _ {L : Type 0} (v : Server L) (laws : JwtLaws v.outside.jwt) (chi : ChiLaws v) (r : Request)
    (found : (r' : Request) → IsLike r r' → is_guarded (v.find_route r').0 ≡ true) where
  routed-guarded :
      (r' : Request) (a : App) (out : Writer)
      → IsLike r r'
      → IsEarned v.outside r a (state_of (routed v.find_route v.outside r' a out))
  unfolding routed
  routed-guarded r' a out like =
      let params = (v.find_route r').1 in
      elim (route_handler-guarded v.outside laws (record r' { params = params }) a out
        (v.find_route r').0 (found r' like)) [
          | inl e ↦ inl e
          | inr (claims, t) ↦ inr (
            claims,
            record {
              token = t.token;
              alg = t.alg;
              carried =
                  subst
                    (λ h.
                      split_space (or_empty (lookup "Authorization" h)) ≡ "Bearer" ∷ t.token ∷ [])
                    like.headers t.carried;
              method = t.method;
              signed = t.signed;
              holds = t.holds;
              timely = t.timely;
            },
          )
        ]

  -- The state of the application after the handlers behind CORS.
  limited-guarded :
      (r' : Request) (s : RateLimiter L × App) (out : Writer)
      → IsLike r r'
      → IsEarned v.outside r s.1
          (state_of (rate_limit v.rate v.seen v.taken (routed v.find_route v.outside) r' s out)).1
  limited-guarded r' (rl, a) out like =
      let (l, rl', _, _, outcome) =
        rate_limit_cases v.rate (routed v.find_route v.outside) v.seen v.taken r' rl a out in
      elim outcome [
        | inl (_, e) ↦ rw e (
            beside-guarded rl' (routed v.find_route v.outside r' a out)
              (routed-guarded r' a out like))
        | inr (_, e) ↦ inl (rw e refl)
      ]
    where
      beside-guarded :
          (rl' : RateLimiter L) (reply : Reply App)
          → IsEarned v.outside r a (state_of reply)
          → IsEarned v.outside r a (state_of (beside rl' reply)).1
      beside-guarded rl' (returned w x) h = h
      beside-guarded rl' (panicked why w x) h = h

  behind_cors-guarded :
      (s : RateLimiter L × App) (out : Writer)
      → IsEarned v.outside r s.1 (state_of (behind_cors v r s out)).1
  behind_cors-guarded s out =
      let limited = rate_limit v.rate v.seen v.taken (routed v.find_route v.outside) in
      let inner = IsPassing-compose v.url_format v.timeout chi.url_format chi.timeout in
      let middle =
        IsPassing-compose v.real_ip (λ next. v.url_format (v.timeout next)) chi.real_ip inner in
      let (r', like, e) =
        IsPassing-compose v.request_id (λ next. v.real_ip (v.url_format (v.timeout next)))
          chi.request_id middle limited r s out in
      rw e (limited-guarded r' s out like)

  cors-guarded :
      (s : RateLimiter L × App) (before : Map String) (reply : Reply (RateLimiter L × App))
      → CorsOutcome v.to_lower default_cors_options (behind_cors v) r s before reply
      → IsEarned v.outside r s.1 (state_of reply).1
  cors-guarded s before reply (inl (_, e)) = rw e (behind_cors-guarded s (unwritten before))
  cors-guarded s before reply (inr (after, _, _, inl (_, _, e))) = inl (rw e refl)
  cors-guarded s before reply (inr (after, _, _, inr (_, e))) =
      rw e (behind_cors-guarded s (unwritten after))

-- The last part of the state.
abbrev pub app_of : {L : Type 0} → Gateway L → App
app_of g = g.1.1.1.1

recorded-state :
    {L : Type 0} (v : Server L) {W : Type 0} (r : Request) (plog : PanicLog) (log : RequestLog)
    (m : HttpMetrics) (inner : Reply W)
    (reply : Reply (PanicLog × (RequestLog × (HttpMetrics × W))))
    → IsRecorded v r plog log m inner reply
    → (state_of reply).1.1.1 ≡ state_of inner
recorded-state v r plog log m inner reply i = elim i.outcome [
  | inl (w, out, entry, e, e', _, _, _, _) ↦ rw (e, e') refl
  | inr (why, w, out, entry, e, e', _, _, _) ↦ rw (e, e') refl
]

-- If the middlewares of chi pass requests on, with their method, path, headers and body, and have no
-- state of their own, and the JWT library keeps its laws: a request that they send to one of the job
-- routes, to the statistics or to the page of the administrator changes no job, no account and no
-- load balancer, and publishes nothing, unless it carries a bearer token whose signature is
-- good for the secret of the gateway, and which has not expired, if it says when it does.
pub gateway_protects :
    {L : Type 0} (v : Server L)
    → JwtLaws v.outside.jwt
    → ChiLaws v
    → (r : Request) → ((r' : Request) → IsLike r r' → is_guarded (v.find_route r').0 ≡ true)
    → (g : Gateway L)
    → (serve : Handler (Gateway L)) × (gateway v ≡ some serve)
      × IsEarned v.outside r (app_of g) (app_of (state_of (serve r g fresh_writer)))
unfolding gateway
gateway_protects {L} v laws chi r found (plog, (log, (m, s))) =
    let (middleware, made, outcomes) = cors_made v in
    let inner = middleware (behind_cors v) in
    let same =
      recorded-state v r plog log m (inner r s fresh_writer)
        (observed v inner r (plog, (log, (m, s))) fresh_writer)
        (observed_cases v inner r plog log m s fresh_writer) in
    (
      observed v inner,
      rw made refl,
      subst (λ (x : RateLimiter L × App). IsEarned v.outside r s.1 x.1) (sym same)
          (cors-guarded v laws chi r found s [] (inner r s fresh_writer) (outcomes r s [])),
    )
