-- ===== src/Middleware/Cors/Headers.antt =====
-- The headers that the CORS middleware leaves.
use siger_api_gateway.Common.{
  itoa, ◌∙◌, get_elem?, In, ◌≡◌, refl, ◌≢◌, ◌⊎◌, inl, inr, Bool, true, false, ◌==◌, String, none,
  some, [], Map, lookup, lookup-store, store, if◌then◌else◌, Bool-cases, map,
}
use siger_api_gateway.Http.{Request, Writer, header, set_header, write_header}
use siger_api_gateway.Middleware.Cors.{
  is_positive, CorsOptions, preflight, expose, join, set_header_if,
}

-- A response that nothing is written to yet, with some headers.
abbrev pub unwritten : Map String → Writer
unwritten headers = record { headers = headers; status = none; body = []; rewritten = none }

-- The middleware allows the origin of a request.
abbrev pub IsFrom : (String → String) → CorsOptions → Request → Type 0
IsFrom to_lower o r =
    (header "Origin" r ≢ "")
    × ((get_elem? o.allowed_origins 0 ≡ some "*")
        ⊎ In (to_lower (header "Origin" r)) (map to_lower o.allowed_origins))

-- The headers that both kinds of answers have.
pub record HasCors (o : CorsOptions) (origin : String) (before after : Map String) : Type 0 where
  pub allows :
      ((get_elem? o.allowed_origins 0 ≡ some "*")
        × (lookup "Access-Control-Allow-Origin" after ≡ some "*"))
      ⊎ ((get_elem? o.allowed_origins 0 ≢ some "*")
          × (lookup "Access-Control-Allow-Origin" after ≡ some origin))
  pub exposes : lookup "Access-Control-Expose-Headers" after ≡ some (join ", " o.exposed_headers)
  pub credentials : lookup "Access-Control-Allow-Credentials" after ≡ (
      if o.allow_credentials then some "true" else lookup "Access-Control-Allow-Credentials" before)

abbrev store_if : Bool → String → String → Map String → Map String
store_if b k v hs = if b then store k v hs else hs

set_header_if-unwritten :
    (b : Bool) (k v : String) (hs : Map String)
    → set_header_if b k v (unwritten hs) ≡ unwritten (store_if b k v hs)
unfolding set_header
set_header_if-unwritten true k v hs = refl
set_header_if-unwritten false k v hs = refl

lookup-store_if :
    (b : Bool) (k j v : String) (hs : Map String)
    → lookup j (store_if b k v hs)
      ≡ (if b then (if k == j then some v else lookup j hs) else lookup j hs)
lookup-store_if true k j v hs = lookup-store k j v hs
lookup-store_if false k j v hs = refl

-- The headers that `expose` leaves.
pub exposed : CorsOptions → Map String → Map String
exposed o hs =
    store_if o.allow_credentials "Access-Control-Allow-Credentials" "true"
      (store "Access-Control-Expose-Headers" (join ", " o.exposed_headers) hs)

-- The headers that `preflight` leaves.
pub preflighted : CorsOptions → Map String → Map String
preflighted o hs = store_if (is_positive o.max_age) "Access-Control-Max-Age" (itoa o.max_age) (
    store_if o.allow_credentials "Access-Control-Allow-Credentials" "true" (
      store "Access-Control-Expose-Headers" (join ", " o.exposed_headers) (
        store "Access-Control-Allow-Headers" (join ", " o.allowed_headers)
          (store "Access-Control-Allow-Methods" (join ", " o.allowed_methods) hs))))

pub expose-unwritten :
    (o : CorsOptions) (hs : Map String) → expose o (unwritten hs) ≡ unwritten (exposed o hs)
unfolding expose exposed set_header
expose-unwritten o hs =
    set_header_if-unwritten o.allow_credentials "Access-Control-Allow-Credentials" "true"
      (store "Access-Control-Expose-Headers" (join ", " o.exposed_headers) hs)

pub preflight-unwritten :
    (o : CorsOptions) (hs : Map String)
    → preflight o (unwritten hs) ≡ record (unwritten (preflighted o hs)) { status = some 204 }
unfolding preflight preflighted set_header write_header
preflight-unwritten o hs = elim (Bool-cases o.allow_credentials) [
  | inl on ↦ elim (Bool-cases (is_positive o.max_age)) [
    | inl aged ↦ rw (on, aged) refl
    | inr plain ↦ rw (on, plain) refl
  ]
  | inr off ↦ elim (Bool-cases (is_positive o.max_age)) [
    | inl aged ↦ rw (off, aged) refl
    | inr plain ↦ rw (off, plain) refl
  ]
]

if-same : {A : Type 0} (b : Bool) (a : A) → (if b then a else a) ≡ a
if-same true a = refl
if-same false a = refl

lookup-exposed :
    (o : CorsOptions) (hs : Map String)
    → (lookup "Access-Control-Allow-Origin" (exposed o hs)
        ≡ lookup "Access-Control-Allow-Origin" hs)
      × (lookup "Access-Control-Expose-Headers" (exposed o hs) ≡ some (join ", " o.exposed_headers))
      × (lookup "Access-Control-Allow-Credentials" (exposed o hs) ≡ (
          if o.allow_credentials
          then some "true"
          else lookup "Access-Control-Allow-Credentials" hs))
unfolding exposed
lookup-exposed o hs = elim (Bool-cases o.allow_credentials) [
  | inl on ↦ rw on (simp lookup-store, simp lookup-store, simp lookup-store)
  | inr off ↦ rw off (simp lookup-store, simp lookup-store, simp lookup-store)
]

pub lookup-preflighted :
    (o : CorsOptions) (hs : Map String)
    → (lookup "Access-Control-Allow-Origin" (preflighted o hs)
        ≡ lookup "Access-Control-Allow-Origin" hs)
      × (lookup "Access-Control-Expose-Headers" (preflighted o hs)
          ≡ some (join ", " o.exposed_headers))
      × (lookup "Access-Control-Allow-Credentials" (preflighted o hs) ≡ (
          if o.allow_credentials
          then some "true"
          else lookup "Access-Control-Allow-Credentials" hs))
      × (lookup "Access-Control-Allow-Methods" (preflighted o hs)
          ≡ some (join ", " o.allowed_methods))
unfolding preflighted
lookup-preflighted o hs = elim (Bool-cases o.allow_credentials) [
  | inl on ↦ rw on (
    simp (lookup-store_if, lookup-store, if-same),
    simp (lookup-store_if, lookup-store, if-same),
    simp (lookup-store_if, if-same),
    simp (lookup-store_if, lookup-store, if-same),
  )
  | inr off ↦ rw off (
    simp (lookup-store_if, lookup-store, if-same),
    simp (lookup-store_if, lookup-store, if-same),
    simp (lookup-store_if, lookup-store, if-same),
    simp (lookup-store_if, lookup-store, if-same),
  )
]

-- `all` says whether the first allowed origin is "*".
abbrev pub IsAll : CorsOptions → Bool → Type 0
IsAll o all =
    ((get_elem? o.allowed_origins 0 ≡ some "*") × (all ≡ true))
    ⊎ ((get_elem? o.allowed_origins 0 ≢ some "*") × (all ≡ false))

module _ (o : CorsOptions) (all : Bool) (origin : String) (before : Map String) where
  abbrev pub with_origin : Map String
  with_origin = store "Access-Control-Allow-Origin" (if all then "*" else origin) before

  allows_origin :
      (after : Map String)
      → IsAll o all
      → lookup "Access-Control-Allow-Origin" after
        ≡ lookup "Access-Control-Allow-Origin" with_origin
      → ((get_elem? o.allowed_origins 0 ≡ some "*")
          × (lookup "Access-Control-Allow-Origin" after ≡ some "*"))
        ⊎ ((get_elem? o.allowed_origins 0 ≢ some "*")
            × (lookup "Access-Control-Allow-Origin" after ≡ some origin))
  allows_origin after (inl (star, e)) same = inl (star, rw (same, e) (simp lookup-store))
  allows_origin after (inr (other, e)) same = inr (other, rw (same, e) (simp lookup-store))

  pub exposed-HasCors : IsAll o all → HasCors o origin before (exposed o with_origin)
  exposed-HasCors is_all =
      let (allow, expose, credentials) = lookup-exposed o with_origin in
      record {
        allows = allows_origin (exposed o with_origin) is_all allow;
        exposes = expose;
        credentials = credentials ∙ simp lookup-store;
      }

  pub preflighted-HasCors : IsAll o all → HasCors o origin before (preflighted o with_origin)
  preflighted-HasCors is_all =
      let (allow, expose, credentials, methods) = lookup-preflighted o with_origin in
      record {
        allows = allows_origin (preflighted o with_origin) is_all allow;
        exposes = expose;
        credentials = credentials ∙ simp lookup-store;
      }
