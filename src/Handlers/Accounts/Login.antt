-- ===== src/Handlers/Accounts/Login.antt =====
-- Who gets a token, and what stands in it.
use siger_api_gateway.Common.{
  ℕ, ◌≡◌, refl, ◌⊎◌, inl, inr, String, Option, none, some, lookup, concat, eq-cases, Option-cases,
  ◌∙◌, ap, sym,
}
use siger_api_gateway.Http.{
  Request, Writer, returned, http_error, Json, str, time, obj, end, field, encode,
}
use siger_api_gateway.Middleware.Auth.Library.{UserClaims, hmac}
use siger_api_gateway.Middleware.Auth.{generate_token, new_claims, add_duration, minutes_duration}
use siger_api_gateway.Handlers.Accounts.{
  User, LoginRequest, AuthHandler, Decoded, well_formed, malformed, Env, login, login_decoded,
  check_user, user_token, token_reply, login_response_json,
}

module _ (env : Env) (h : AuthHandler) where
  -- The claims of a user at a log-in, which end after the configured minutes.
  abbrev pub claims_of_user : User → UserClaims
  claims_of_user u = record {
    user_id = u.id;
    username = u.username;
    role = u.role;
    expires_at =
        some (env.jwt.numeric_date (add_duration (env.clock 0) (minutes_duration h.expiration)));
    not_before = none;
    issued_at = some (env.jwt.numeric_date (env.clock 1));
    issuer = "siger-api-gateway";
  }

  -- What the library makes of these claims under the secret of the gateway.
  abbrev pub signature : User → Option String
  signature u = env.jwt.signed_string (hmac "HS256") (claims_of_user u) h.secret

  -- The body of the answer.
  abbrev pub granted : User → String → Json
  granted u token = obj (
      field "token" (str token) (
        field "expires_at" (time (add_duration (env.clock 2) (minutes_duration h.expiration))) (
          field "user_id" (str u.id)
            (field "username" (str u.username) (field "role" (str u.role) end)))))

  pub user_token-signature : (u : User) → user_token env h u ≡ signature u
  unfolding generate_token new_claims
  user_token-signature u = refl

  pub token_reply-granted :
      (u : User) (token : String) (out : Writer)
      → token_reply env h u (some token) out ≡ encode (granted u token) out
  unfolding token_reply login_response_json
  token_reply-granted u token out = refl

  -- The user of a body whose name is stored with the password of the body.
  abbrev pub IsKnown : Decoded LoginRequest → User → Type 0
  IsKnown (malformed e) u = ⊥
  IsKnown (well_formed q) u = (lookup q.username h.mock_users ≡ some u) × (u.password ≡ q.password)

  -- The three ways in which a log-in fails, with the status of each.
  pub data IsRefused (d : Decoded LoginRequest) : ℕ → Type 0 where
    unreadable : (e : String) → d ≡ malformed e → IsRefused d 400
    unknown : ((u : User) → ¬ IsKnown d u) → IsRefused d 401
    unsigned : (u : User) → IsKnown d u → signature u ≡ none → IsRefused d 500

  abbrev pub LoginOutcome : Decoded LoginRequest → Writer → Writer → Type 0
  LoginOutcome d out out' =
      ((u : User) × (token : String) × IsKnown d u
        × (signature u ≡ some token)
        × (out' ≡ encode (granted u token) out))
      ⊎ ((status : ℕ) × (message : String) × IsRefused d status
          × (out' ≡ http_error message status out))

  some-inj : {o : Option User} {u v : User} → o ≡ some u → o ≡ some v → u ≡ v
  some-inj e e' = cc

  login_decoded_cases :
      (d : Decoded LoginRequest) (out : Writer) → LoginOutcome d out (login_decoded env h d out)
  unfolding login_decoded check_user token_reply
  login_decoded_cases (malformed e) out =
      inr (400, concat "Invalid request body: " e, unreadable e refl, refl)
  login_decoded_cases (well_formed q) out = elim (Option-cases (lookup q.username h.mock_users)) [
    | inl none_e ↦ inr (401, "Invalid credentials", unknown (λ u k. cc), rw none_e refl)
    | inr (u, e) ↦ elim (eq-cases u.password q.password) [
      | inr (wrong, t) ↦ inr (
        401,
        "Invalid credentials",
        unknown (λ v k. wrong (ap (λ w. w.password) (some-inj e k.0) ∙ k.1)),
        rw (e, t) refl,
      )
      | inl (right, t) ↦ elim (Option-cases (user_token env h u)) [
        | inl no_token ↦ inr (
          500,
          "Internal server error",
          unsigned u (e, right) (sym (user_token-signature u) ∙ no_token),
          rw (e, t, no_token) refl,
        )
        | inr (token, made) ↦ inl (
          u,
          token,
          (e, right),
          sym (user_token-signature u) ∙ made,
          rw (e, t, made) (token_reply-granted u token out),
        )
      ]
    ]
  ]

  -- `Login` sends a token exactly when the body has the name and the password of a stored user and the
  -- library signs it: under the gateway's secret, for that user's ID, name and role, until the
  -- configured minutes are over; the answer has that token, the same user and an expiry. Otherwise
  -- it answers 400 to a body that it cannot read, 401 to one without such a user, and 500 where
  -- the signing fails. It never changes a user.
  pub login_cases :
      (r : Request) (out : Writer)
      → (out' : Writer) × (login env r h out ≡ returned h out')
        × LoginOutcome (env.decode_login r.body) out out'
  unfolding login
  login_cases r out = (
    login_decoded env h (env.decode_login r.body) out,
    refl,
    login_decoded_cases (env.decode_login r.body) out,
  )
