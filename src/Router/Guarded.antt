-- ===== src/Router/Guarded.antt =====
-- What a request needs to reach the jobs, once a route is found.
use siger_api_gateway.Common.{
  ◌≡◌, refl, ◌⊎◌, inl, inr, Bool, true, false, String, some, [], ◌∷◌, split_space,
}
use siger_api_gateway.Http.{Handler, Request, Writer, header, state_of}
use siger_api_gateway.Middleware.Auth.Library.{JwtLaws, IsTimely, UserClaims, hmac}
use siger_api_gateway.Middleware.Auth.{jwt_auth}
use siger_api_gateway.Middleware.Auth.Guards.{jwt_auth_cases}
use siger_api_gateway.Router.{
  Route, health_route, metrics_route, login_route, register_route, profile_route, submit_route,
  job_route, cancel_route, list_route, by_status_route, admin_stats_route, status_route,
  services_route, admin_route, not_found, App, Outside, route_handler,
}

-- The job routes and the statistics in the group of /api/v1 that the JWT middleware guards, and the page
-- of the administrator.
abbrev pub is_guarded : Route → Bool
is_guarded submit_route = true
is_guarded job_route = true
is_guarded cancel_route = true
is_guarded list_route = true
is_guarded by_status_route = true
is_guarded admin_stats_route = true
is_guarded admin_route = true
is_guarded _ = false

-- A bearer token of the request whose signature is good for the gateway's secret, and which has not
-- expired, if it says when it does.
pub record HasToken (o : Outside) (r : Request) (claims : UserClaims) : Type 0 where
  pub token : String
  pub alg : String
  pub carried : split_space (header "Authorization" r) ≡ "Bearer" ∷ token ∷ []
  pub method : o.jwt.method_of token ≡ some (hmac alg)
  pub signed : o.jwt.verifies (hmac alg) o.secret token ≡ true
  pub holds : o.jwt.claims_of token ≡ some claims
  pub timely : IsTimely o.now claims

-- The state is kept, or the request has such a token.
abbrev pub IsEarned : {S : Type 0} → Outside → Request → S → S → Type 0
IsEarned o r s s' = (s' ≡ s) ⊎ ((claims : UserClaims) × HasToken o r claims)

module _ (o : Outside) (laws : JwtLaws o.jwt) (r : Request) (a : App) (out : Writer) where
  guarded :
      (next : Handler App) → IsEarned o r a (state_of (jwt_auth o.jwt o.secret o.now next r a out))
  guarded next = elim (jwt_auth_cases o.jwt laws o.secret o.now next r a out) [
    | inl (claims, i, e) ↦ inr (
      claims,
      record {
        token = i.token;
        alg = i.alg;
        carried = i.carried;
        method = i.method;
        signed = i.signed;
        holds = i.holds;
        timely = i.timely;
      },
    )
    | inr (message, e) ↦ inl (rw e refl)
  ]

  pub route_handler-guarded :
      (route : Route)
      → is_guarded route ≡ true
      → IsEarned o r a (state_of (route_handler o route r a out))
  unfolding route_handler
  route_handler-guarded submit_route g = guarded _
  route_handler-guarded job_route g = guarded _
  route_handler-guarded cancel_route g = guarded _
  route_handler-guarded list_route g = guarded _
  route_handler-guarded by_status_route g = guarded _
  route_handler-guarded admin_stats_route g = guarded _
  route_handler-guarded admin_route g = guarded _
  route_handler-guarded health_route g = cc
  route_handler-guarded metrics_route g = cc
  route_handler-guarded login_route g = cc
  route_handler-guarded register_route g = cc
  route_handler-guarded profile_route g = cc
  route_handler-guarded status_route g = cc
  route_handler-guarded services_route g = cc
  route_handler-guarded not_found g = cc
