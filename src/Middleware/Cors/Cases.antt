-- ===== src/Middleware/Cors/Cases.antt =====
-- What the CORS middleware does with a request, by its origin and method.
use siger_api_gateway.Common.{
  ap, sym, In, ◌≡◌, refl, ◌≢◌, ◌⊎◌, inl, inr, Bool, true, false, ◌==◌, String, none, some, List, [],
  ◌∷◌, Map, lookup, eq-cases, map, contains,
}
use siger_api_gateway.Http.{Handler, Request, Reply, returned, header, set_header}
use siger_api_gateway.Middleware.Cors.{
  CorsOptions, cors, cors_for, cors_handler, origin_allowed, join,
}
use siger_api_gateway.Middleware.Cors.Headers.{
  unwritten, IsFrom, HasCors, IsAll, expose-unwritten, preflight-unwritten, exposed-HasCors,
  preflighted-HasCors, lookup-preflighted, with_origin,
}

some-inj : (a b : String) → some a ≡ some b → a ≡ b
some-inj a b e = cc

contains_cases :
    (k : String) (ks : List String)
    → (In k ks × (contains k ks ≡ true)) ⊎ (¬ In k ks × (contains k ks ≡ false))
unfolding contains
contains_cases k [] = inr ((λ i. i), refl)
contains_cases k (j ∷ js) = elim (eq-cases j k) [
  | inl (e, t) ↦ inl (inl (sym e), rw t refl)
  | inr (ne, t) ↦ elim (contains_cases k js) [
    | inl (i, e) ↦ inl (inr i, rw t e)
    | inr (out, e) ↦ inr ((λ i. elim i [ inl p ↦ ne (sym p) | inr i' ↦ out i' ]), rw t e)
  ]
]

module _ {W : Type 0} (to_lower : String → String) (o : CorsOptions) (next : Handler W) where
  -- What a request gets from the middleware, if the headers so far are `before`.
  abbrev pub CorsOutcome : Request → W → Map String → Reply W → Type 0
  CorsOutcome r w before reply =
      (¬ IsFrom to_lower o r × (reply ≡ next r w (unwritten before)))
      ⊎ ((after : Map String) × IsFrom to_lower o r
          × HasCors o (header "Origin" r) before after
          × (((r.method ≡ "OPTIONS")
                × (lookup "Access-Control-Allow-Methods" after ≡ some (join ", " o.allowed_methods))
                × (reply ≡ returned w (record (unwritten after) { status = some 204 })))
              ⊎ ((r.method ≢ "OPTIONS") × (reply ≡ next r w (unwritten after)))))

  origin_allowed_cases :
      (all : Bool) (r : Request)
      → IsAll o all
      → header "Origin" r ≢ ""
      → (IsFrom to_lower o r × (origin_allowed to_lower o all (header "Origin" r) ≡ true))
        ⊎ (¬ IsFrom to_lower o r × (origin_allowed to_lower o all (header "Origin" r) ≡ false))
  origin_allowed_cases all r (inl (star, e)) named = inl ((named, inl star), rw e refl)
  origin_allowed_cases all r (inr (other, e)) named =
      elim (contains_cases (to_lower (header "Origin" r)) (map to_lower o.allowed_origins)) [
        | inl (i, t) ↦ inl ((named, inr i), rw (e, t) refl)
        | inr (out, t) ↦
            inr ((λ f. elim (f.1) [ inl star ↦ other star | inr i ↦ out i ]), rw (e, t) refl)
      ]

  cors_handler_cases :
      (all : Bool) (r : Request) (w : W) (before : Map String)
      → IsAll o all
      → CorsOutcome r w before (cors_handler to_lower o all next r w (unwritten before))
  unfolding cors_handler set_header
  cors_handler_cases all r w before is_all = elim (eq-cases (header "Origin" r) "") [
    | inl (e, t) ↦ inl ((λ f. f.0 e), rw t refl)
    | inr (named, t) ↦ elim (origin_allowed_cases all r is_all named) [
      | inr (refused, t') ↦ inl (refused, rw (t, t') refl)
      | inl (from, t') ↦ elim (eq-cases r.method "OPTIONS") [
        | inl (e, t'') ↦
            let (_, _, _, methods) =
              lookup-preflighted o (with_origin o all (header "Origin" r) before) in
            inr (
              _,
              from,
              preflighted-HasCors o all (header "Origin" r) before is_all,
              inl (
                e,
                methods,
                rw (t, t', t'')
                    (ap (returned w)
                      (preflight-unwritten o (with_origin o all (header "Origin" r) before))),
              ),
            )
        | inr (ne, t'') ↦ inr (
          _,
          from,
          exposed-HasCors o all (header "Origin" r) before is_all,
          inr (
            ne,
            rw (t, t', t'')
                (ap (next r w) (expose-unwritten o (with_origin o all (header "Origin" r) before))),
          ),
        )
      ]
    ]
  ]

  cors_for_cases :
      (origins : List String)
      → o.allowed_origins ≡ origins
      → ((origins ≡ []) × (cors_for {W = W} to_lower o origins ≡ none))
        ⊎ ((middleware : Handler W → Handler W) × (cors_for to_lower o origins ≡ some middleware)
            × ((r : Request) (w : W) (before : Map String)
                → CorsOutcome r w before (middleware next r w (unwritten before))))
  unfolding cors_for
  cors_for_cases [] e = inl (refl, refl)
  cors_for_cases (first ∷ rest) e = inr (
    cors_handler to_lower o (first == "*"),
    refl,
    λ r w before. cors_handler_cases (first == "*") r w before (elim (eq-cases first "*") [
      | inl (star, t) ↦ inl (rw e (ap some star), t)
      | inr (other, t) ↦ inr (rw e (λ same. other (some-inj first "*" same)), t)
    ]),
  )

  -- Without any allowed origin the gateway panics when it makes the middleware. Otherwise a
  -- request of no origin, or of one that is not allowed, passes as it is; a preflight request of an
  -- allowed origin is answered with 204, and any other reaches the next handler, both with
  -- the CORS headers. An origin is allowed if the list begins with "*", which is then the
  -- origin sent, or has the origin in some spelling.
  pub cors_cases :
      ((o.allowed_origins ≡ []) × (cors {W = W} to_lower (some o) ≡ none))
      ⊎ ((middleware : Handler W → Handler W) × (cors to_lower (some o) ≡ some middleware)
          × ((r : Request) (w : W) (before : Map String)
              → CorsOutcome r w before (middleware next r w (unwritten before))))
  unfolding cors
  cors_cases = cors_for_cases o.allowed_origins refl
