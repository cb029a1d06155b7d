-- ===== src/Middleware/Cors/Tests.antt =====
-- The CORS middleware at concrete inputs.
use siger_api_gateway.Common.{
  itoa, ℕ, ◌≡◌, refl, ◌⊎◌, String, none, some, [], ◌∷◌, false, Map, pos, lookup, store,
}
use siger_api_gateway.Http.{Handler, Request, returned, write, text, set_header, write_header}
use siger_api_gateway.Middleware.Cors.{CorsOptions, cors, default_cors_options, preflight}
use siger_api_gateway.Middleware.Cors.Headers.{unwritten}
use siger_api_gateway.Middleware.Cors.Cases.{cors_cases, CorsOutcome}

abbrev hello : Handler ℕ
hello r w out = returned w (write (text "hello") out)

abbrev shop : CorsOptions
shop = record default_cors_options { allowed_origins = "http://shop" ∷ "*" ∷ [] }

abbrev ask : String → String → Request
ask method origin = record {
  method = method;
  path = "/";
  query = "";
  headers = ("Origin", origin) ∷ [];
  remote_addr = "1.2.3.4:5";
  tls = false;
  body = "";
  params = [];
  context = [];
}

-- The origin and the credentials that the default options allow: every site, with its cookies.
default_cors_tests :
    (lookup "Access-Control-Allow-Origin"
        (preflight default_cors_options
          (set_header "Access-Control-Allow-Origin" "*" (unwritten []))).headers
      ≡ some "*")
    × (lookup "Access-Control-Allow-Credentials"
          (preflight default_cors_options (unwritten [])).headers
        ≡ some "true")
unfolding preflight set_header write_header itoa lookup store
default_cors_tests = (refl, refl)

max_age_text : itoa (pos 300) ≡ "300"
unfolding itoa
max_age_text = refl

cors_cases_example :
    ((shop.allowed_origins ≡ []) × (cors {W = ℕ} (λ s. s) (some shop) ≡ none))
    ⊎ ((middleware : Handler ℕ → Handler ℕ) × (cors (λ s. s) (some shop) ≡ some middleware)
        × ((r : Request) (w : ℕ) (before : Map String)
            → CorsOutcome (λ s. s) shop hello r w before (middleware hello r w (unwritten before))))
cors_cases_example = cors_cases (λ s. s) shop hello
