-- ===== src/Middleware/Auth/Guards.antt =====
-- Which requests pass the two guards of internal/middleware/auth.go.
use siger_api_gateway.Common.{
  ◌≡◌, refl, ◌≢◌, ◌⊎◌, inl, inr, true, false, ◌==◌, String, Option, none, some, List, [], ◌∷◌,
  arith, split_space, Time, Option-cases, Bool-cases, eq_iff, eq-cases, subst₂, ap, ◌∙◌,
}
use siger_api_gateway.Http.{Handler, Request, Writer, Reply, returned, value, header, http_error}
use siger_api_gateway.Middleware.Auth.Library.{
  Jwt, JwtLaws, IsTimely, UserClaims, SigningMethod, hmac, other, Parsed, parsed, token_expired,
  parse_failed,
}
use siger_api_gateway.Middleware.Auth.{
  jwt_auth, check_token, admit, bearer_token, key_for, user_context, require_role, check_role,
  user_role_context_key,
}

bearer_token_inv :
    (parts : List String) {token : String}
    → bearer_token parts ≡ some token
    → parts ≡ "Bearer" ∷ token ∷ []
unfolding bearer_token
bearer_token_inv [] h = cc
bearer_token_inv (a ∷ []) h = cc
bearer_token_inv (a ∷ b ∷ []) h = ground (arith, eq_iff a "Bearer")
bearer_token_inv (a ∷ b ∷ (c ∷ r)) h = cc

key_for_inv :
    (secret : String) (m : SigningMethod) {key : String}
    → key_for secret m ≡ some key
    → (alg : String) × (m ≡ hmac alg) × (key ≡ secret)
unfolding key_for
key_for_inv secret (hmac alg) h = (alg, refl, cc)
key_for_inv secret (other alg) h = cc

module _ {W : Type 0} (jwt : Jwt) (laws : JwtLaws jwt) (secret : String) (now : Time)
    (next : Handler W) (r : Request) (w : W) (out : Writer) where
  -- The request carries a bearer token of an HMAC method with these claims, whose signature is good for
  -- the gateway's secret, and which has not expired, if it says when it does.
  pub record IsAuthenticated (claims : UserClaims) : Type 0 where
    pub token : String
    pub alg : String
    pub carried : split_space (header "Authorization" r) ≡ "Bearer" ∷ token ∷ []
    pub method : jwt.method_of token ≡ some (hmac alg)
    pub signed : jwt.verifies (hmac alg) secret token ≡ true
    pub holds : jwt.claims_of token ≡ some claims
    pub timely : IsTimely now claims

  admit_cases :
      (p : Parsed)
      → ((claims : UserClaims) × (p ≡ parsed claims true)
          × (admit p next r w out
              ≡ next (record r { context = user_context claims r.context }) w out))
        ⊎ ((message : String) × (admit p next r w out ≡ returned w (http_error message 401 out)))
  unfolding admit
  admit_cases token_expired = inr (_, refl)
  admit_cases parse_failed = inr (_, refl)
  admit_cases (parsed claims false) = inr (_, refl)
  admit_cases (parsed claims true) = inl (claims, refl, refl)

  -- If the JWT library keeps its laws, behind the JWT middleware a handler runs only on a request with a
  -- bearer token of an HMAC method, whose signature is good for the secret of the gateway and which
  -- has not expired, if it says when it does; the user of the token is then in its context. Any other
  -- request is answered with 401, and nothing changes.
  pub jwt_auth_cases :
      ((claims : UserClaims) × IsAuthenticated claims
        × (jwt_auth jwt secret now next r w out
            ≡ next (record r { context = user_context claims r.context }) w out))
      ⊎ ((message : String) × (jwt_auth jwt secret now next r w out
            ≡ returned w (http_error message 401 out)))
  unfolding jwt_auth
  jwt_auth_cases = elim (Bool-cases (header "Authorization" r == "")) [
    | inl e ↦ inr ("Unauthorized: no token provided", rw e refl)
    | inr e ↦ elim (Option-cases (bearer_token (split_space (header "Authorization" r)))) [
      | inl b ↦ inr ("Unauthorized: invalid token format", rw (e, b) refl)
      | inr (token, b) ↦ elim (admit_cases (jwt.parse_with_claims token (key_for secret) now)) [
        | inr (message, refused) ↦ inr (message, rw (e, b) refused)
        | inl (claims, p, passed) ↦
            let (m, key, method, k, signed, holds, timely) =
              laws.only_verified token (key_for secret) now claims p in
            let (alg, m', key') = key_for_inv secret m k in
            inl (
              claims,
              record {
                token = token;
                alg = alg;
                carried = bearer_token_inv _ b;
                method = method ∙ ap some m';
                signed = subst₂ (λ x y. jwt.verifies x y token ≡ true) m' key' signed;
                holds = holds;
                timely = timely;
              },
              rw (e, b) passed,
            )
      ]
    ]
  ]

-- The same without what the library promises: the middleware calls the handler with a user in the
-- context, or answers 401.
module _ {W : Type 0} (jwt : Jwt) (secret : String) (now : Time) (next : Handler W) (r : Request)
    (w : W) (out : Writer) where
  abbrev pub Outcome : Reply W → Type 0
  Outcome reply =
      ((claims : UserClaims) × (reply
          ≡ next (record r { context = user_context claims r.context }) w out))
      ⊎ ((message : String) × (reply ≡ returned w (http_error message 401 out)))

  admit-Outcome : (p : Parsed) → Outcome (admit p next r w out)
  unfolding admit
  admit-Outcome token_expired = inr (_, refl)
  admit-Outcome parse_failed = inr (_, refl)
  admit-Outcome (parsed claims false) = inr (_, refl)
  admit-Outcome (parsed claims true) = inl (claims, refl)

  check_token-Outcome : (o : Option String) → Outcome (check_token jwt secret now o next r w out)
  unfolding check_token
  check_token-Outcome none = inr (_, refl)
  check_token-Outcome (some token) =
      admit-Outcome (jwt.parse_with_claims token (key_for secret) now)

  pub jwt_auth-Outcome : Outcome (jwt_auth jwt secret now next r w out)
  unfolding jwt_auth
  jwt_auth-Outcome = elim (Bool-cases (header "Authorization" r == "")) [
    | inl e ↦ inr ("Unauthorized: no token provided", rw e refl)
    | inr e ↦ rw e (check_token-Outcome (bearer_token (split_space (header "Authorization" r))))
  ]

-- A role that the check refuses, or none.
abbrev pub IsRefused : String → Option String → Type 0
IsRefused required none = Unit
IsRefused required (some role) = (role ≡ "") ⊎ ((role ≢ required) × (role ≢ "admin"))

-- A role that the check lets pass.
abbrev pub IsAllowed : String → Option String → Type 0
IsAllowed required none = ⊥
IsAllowed required (some role) = (role ≢ "") × ((role ≡ required) ⊎ (role ≡ "admin"))

module _ {W : Type 0} (required : String) (next : Handler W) (r : Request) (w : W)
    (out : Writer) where
  check_role_cases :
      (o : Option String)
      → (IsAllowed required o × (check_role required o next r w out ≡ next r w out))
        ⊎ (IsRefused required o
            × ((message : String) × (check_role required o next r w out
                  ≡ returned w (http_error message 403 out))))
  unfolding check_role
  check_role_cases none = inr (tt, ("Forbidden: authentication required", refl))
  check_role_cases (some role) = elim (eq-cases role "") [
    | inl (e, t) ↦ inr (inl e, ("Forbidden: authentication required", rw t refl))
    | inr (ne, t) ↦ elim (eq-cases role required) [
      | inl (e', t') ↦ inl ((ne, inl e'), rw (t, t') refl)
      | inr (ne', t') ↦ elim (eq-cases role "admin") [
        | inl (e'', t'') ↦ inl ((ne, inr e''), rw (t, t', t'') refl)
        | inr (ne'', t'') ↦
            inr (inr (ne', ne''), ("Forbidden: insufficient permissions", rw (t, t', t'') refl))
      ]
    ]
  ]

  -- Behind the role check a handler runs if the context has a role that is not empty, and that is
  -- the required one or "admin"; any other request is answered with 403, and nothing changes.
  pub require_role_cases :
      (IsAllowed required (value user_role_context_key r.context)
        × (require_role required next r w out ≡ next r w out))
      ⊎ (IsRefused required (value user_role_context_key r.context)
          × ((message : String) × (require_role required next r w out
                ≡ returned w (http_error message 403 out))))
  unfolding require_role
  require_role_cases = check_role_cases (value user_role_context_key r.context)
