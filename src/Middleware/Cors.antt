-- ===== src/Middleware/Cors.antt =====
-- internal/middleware/cors.go: the CORS middleware. `to_lower` stands for `strings.ToLower`, whose
-- Unicode tables are not modelled.
pub mod Headers
pub mod Cases
pub mod Tests
use siger_api_gateway.Common.{
  itoa, ℕ, zero, suc, ◌/◌, ◌%◌, Bool, true, false, not, ◌||◌, ◌==◌, ltb, String, Option, none, some,
  List, [], ◌∷◌, map, concat, if◌then◌else◌, contains, get_elem?, ℤ, pos, negsuc,
}
use siger_api_gateway.Http.{
  Handler, Request, Writer, returned, header, set_header, write_header, or_empty,
}

pub record CorsOptions : Type 0 where
  pub allowed_origins : List String
  pub allowed_methods : List String
  pub allowed_headers : List String
  pub exposed_headers : List String
  pub allow_credentials : Bool
  pub max_age : ℤ

abbrev pub default_cors_options : CorsOptions
default_cors_options = record {
  allowed_origins = "*" ∷ [];
  allowed_methods = "GET" ∷ "POST" ∷ "PUT" ∷ "DELETE" ∷ "OPTIONS" ∷ "PATCH" ∷ [];
  allowed_headers =
      "Accept" ∷ "Authorization" ∷ "Content-Type" ∷ "X-CSRF-Token" ∷ "X-Request-ID" ∷ [];
  exposed_headers = "Link" ∷ [];
  allow_credentials = true;
  max_age = pos 300;
}

-- `strings.Join`
abbrev pub join : String → List String → String
join sep [] = ""
join sep (s ∷ []) = s
join sep (s ∷ t ∷ ss) = concat s (concat sep (join sep (t ∷ ss)))

-- `options.MaxAge > 0`
abbrev pub is_positive : ℤ → Bool
is_positive (pos n) = ltb 0 n
is_positive (negsuc n) = false

-- `Set` of a header under a condition.
abbrev pub set_header_if : Bool → String → String → Writer → Writer
set_header_if b k v out = if b then set_header k v out else out

-- The answer to a preflight request, the allowed origin aside.
unfoldable pub preflight : CorsOptions → Writer → Writer
preflight o out = write_header 204 (
    set_header_if (is_positive o.max_age) "Access-Control-Max-Age" (itoa o.max_age) (
      set_header_if o.allow_credentials "Access-Control-Allow-Credentials" "true" (
        set_header "Access-Control-Expose-Headers" (join ", " o.exposed_headers) (
          set_header "Access-Control-Allow-Headers" (join ", " o.allowed_headers)
            (set_header "Access-Control-Allow-Methods" (join ", " o.allowed_methods) out)))))

-- The headers of any other request, the allowed origin aside.
unfoldable pub expose : CorsOptions → Writer → Writer
expose o out =
    set_header_if o.allow_credentials "Access-Control-Allow-Credentials" "true"
      (set_header "Access-Control-Expose-Headers" (join ", " o.exposed_headers) out)

-- `all` is `allowedOriginsAll`.
abbrev pub origin_allowed : (String → String) → CorsOptions → Bool → String → Bool
origin_allowed to_lower o all origin =
    all || contains (to_lower origin) (map to_lower o.allowed_origins)

module _ {W : Type 0} (to_lower : String → String) where
  cors_handler : CorsOptions → Bool → Handler W → Handler W
  unfolding preflight expose
  cors_handler o all next r w out =
      let origin = header "Origin" r in
      let out' = set_header "Access-Control-Allow-Origin" (if all then "*" else origin) out in
      if origin == ""
      then next r w out
      else if not (origin_allowed to_lower o all origin)
      then next r w out
      else if r.method == "OPTIONS"
      then returned w (preflight o out')
      else next r w (expose o out')

  -- `options.AllowedOrigins[0] == "*"`; `none` is the panic of an index out of range.
  cors_for : CorsOptions → List String → Option (Handler W → Handler W)
  unfolding cors_handler
  cors_for o [] = none
  cors_for o (first ∷ rest) = some (cors_handler o (first == "*"))

  -- `none` among the arguments is the nil pointer.
  unfoldable pub cors : Option CorsOptions → Option (Handler W → Handler W)
  unfolding cors_for
  cors none = cors_for default_cors_options default_cors_options.allowed_origins
  cors (some o) = cors_for o o.allowed_origins
