-- ===== src/Middleware/Auth/Tests.antt =====
-- The authentication middleware at concrete inputs.
use siger_api_gateway.Common.{
  ℕ, ◌+◌, ◌≡◌, refl, ◌⊎◌, false, String, some, [], ◌∷◌, arith, pos, split_space, lookup,
}
use siger_api_gateway.Http.{
  Handler, Request, returned, status_of, fresh_writer, value, http_error, write, text, Context,
}
use siger_api_gateway.Middleware.Auth.Example.{known, sign, parse, library, library-laws}
use siger_api_gateway.Middleware.Auth.Library.{UserClaims}
use siger_api_gateway.Middleware.Auth.{
  jwt_auth, require_role, generate_token, new_claims, user_context, bearer_token, key_for,
  user_id_context_key, username_context_key, user_role_context_key,
}
use siger_api_gateway.Middleware.Auth.Guards.{
  IsAuthenticated, IsAllowed, IsRefused, jwt_auth_cases, require_role_cases,
}
use siger_api_gateway.Middleware.Auth.RoundTrip.{jwt_auth-generate_token}

auth : Unit {0}
unfolding jwt_auth require_role generate_token value http_error write lookup user_context
auth = tt

abbrev ask : String → Context → Request
ask authorization context = record {
  method = "GET";
  path = "/";
  query = "";
  headers = ("Authorization", authorization) ∷ [];
  remote_addr = "1.2.3.4:5";
  tls = false;
  body = "";
  params = [];
  context = context;
}

-- A handler that counts its calls.
abbrev hello : Handler ℕ
hello r n out = returned (n + 1) (write (text "hello") out)

auth_tests :
    (status_of (jwt_auth library "s" 7 hello (ask "Bearer t" []) 0 fresh_writer) ≡ some 200)
    × (status_of (jwt_auth library "s" 7 hello (ask "" []) 0 fresh_writer) ≡ some 401)
    × (status_of (jwt_auth library "s" 7 hello (ask "Basic t" []) 0 fresh_writer) ≡ some 401)
    × (status_of (jwt_auth library "s" 7 hello (ask "Bearer t u" []) 0 fresh_writer) ≡ some 401)
    × (status_of (jwt_auth library "x" 7 hello (ask "Bearer t" []) 0 fresh_writer) ≡ some 401)
    × (status_of (jwt_auth library "s" 3600000000005 hello (ask "Bearer t" []) 0 fresh_writer)
        ≡ some 401)
    × (status_of (require_role "admin" hello (ask "" (user_context known [])) 0 fresh_writer)
        ≡ some 200)
    × (status_of (require_role "admin" hello (ask "" []) 0 fresh_writer) ≡ some 403)
    × (generate_token library 5 6 "1" "ann" "admin" "s" (pos 60) ≡ some "t")
unfolding auth parse sign bearer_token split_space key_for
auth_tests = (refl, refl, refl, refl, refl, refl, refl, refl, refl)

jwt_auth_cases_example :
    ((claims : UserClaims) × IsAuthenticated library library-laws "s" 7 hello
        (ask "Bearer t" [])
        0
        fresh_writer
        claims
      × (jwt_auth library "s" 7 hello (ask "Bearer t" []) 0 fresh_writer
          ≡ hello (ask "Bearer t" (user_context claims [])) 0 fresh_writer))
    ⊎ ((message : String) × (jwt_auth library "s" 7 hello (ask "Bearer t" []) 0 fresh_writer
          ≡ returned 0 (http_error message 401 fresh_writer)))
jwt_auth_cases_example =
    jwt_auth_cases library library-laws "s" 7 hello (ask "Bearer t" []) 0 fresh_writer

require_role_cases_example :
    (IsAllowed "admin" (value user_role_context_key (user_context known []))
      × (require_role "admin" hello (ask "" (user_context known [])) 0 fresh_writer
          ≡ hello (ask "" (user_context known [])) 0 fresh_writer))
    ⊎ (IsRefused "admin" (value user_role_context_key (user_context known []))
        × ((message : String) × (require_role "admin" hello
                (ask "" (user_context known []))
                0
                fresh_writer
              ≡ returned 0 (http_error message 403 fresh_writer))))
require_role_cases_example =
    require_role_cases "admin" hello (ask "" (user_context known [])) 0 fresh_writer

made_t : generate_token library 5 6 "1" "ann" "admin" "s" (pos 60) ≡ some "t"
unfolding auth sign
made_t = refl

jwt_auth-generate_token_example :
    (ctx : Context) × (value user_id_context_key ctx ≡ some "1")
    × (value username_context_key ctx ≡ some "ann")
    × (value user_role_context_key ctx ≡ some "admin")
    × (jwt_auth library "s" 7 hello (ask "Bearer t" []) 0 fresh_writer
        ≡ hello (record (ask "Bearer t" []) { context = ctx }) 0 fresh_writer)
unfolding new_claims lookup
jwt_auth-generate_token_example =
    jwt_auth-generate_token library library-laws 5 6 7 "1" "ann" "admin" "s" (pos 60) "t" hello
      (ask "Bearer t" []) 0 fresh_writer made_t (omega arith) refl
