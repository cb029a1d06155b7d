-- ===== src/Handlers/Accounts/Register.antt =====
-- What a registration stores, and what the new user gets at a log-in.
use siger_api_gateway.Common.{
  ◌≡◌, refl, ◌≢◌, ◌⊎◌, inl, inr, String, Option, none, some, arith, lookup, store, lookup-store,
  eq_refl, eq-cases, concat, sym, ap, subst, ◌∙◌, ◌==◌, if◌then◌else◌, Option-cases,
}
use siger_api_gateway.Http.{Request, Writer, returned, http_error, encode}
use siger_api_gateway.Handlers.Accounts.Login.{
  signature, granted, user_token-signature, token_reply-granted,
}
use siger_api_gateway.Handlers.Accounts.{
  User, AuthHandler, Decoded, well_formed, malformed, Env, new_user, register, register_decoded,
  register_if_free, login, login_decoded, user_token, token_reply,
}

-- A body with a user that has a name and a password, under a name that is free.
pub record IsNew (h : AuthHandler) (u : User) : Type 0 where
  pub named : u.username ≢ ""
  pub secured : u.password ≢ ""
  pub free : lookup u.username h.mock_users ≡ none

abbrev pub IsBad : AuthHandler → Decoded User → Type 0
IsBad h (malformed e) = Unit
IsBad h (well_formed u) = ¬ IsNew h u

well_formed-inj : {A : Type 0} {x y : A} → well_formed x ≡ well_formed y → x ≡ y
well_formed-inj e = cc

module _ (env : Env) (h : AuthHandler) where
  -- The handler after a registration.
  unfoldable pub after_register : User → AuthHandler
  after_register u = record h { mock_users = store u.username (new_user env u) h.mock_users }

  register_if_free_cases :
      (u : User) (out : Writer) (o : Option User)
      → ((o ≡ none)
          × ((out' : Writer) × (register_if_free env u o h out ≡ returned (after_register u) out')))
        ⊎ ((o ≢ none)
            × ((message : String) × (register_if_free env u o h out
                  ≡ returned h (http_error message 400 out))))
  unfolding register_if_free after_register
  register_if_free_cases u out none = inl (refl, (_, refl))
  register_if_free_cases u out (some v) = inr ((λ e. cc), ("Username is already taken", refl))

  register_decoded_cases :
      (d : Decoded User) (out : Writer)
      → ((u : User) × (d ≡ well_formed u)
          × IsNew h u
          × ((out' : Writer) × (register_decoded env d h out ≡ returned (after_register u) out')))
        ⊎ (IsBad h d
            × ((message : String) × (register_decoded env d h out
                  ≡ returned h (http_error message 400 out))))
  unfolding register_decoded
  register_decoded_cases (malformed e) out = inr (tt, (concat "Invalid request body: " e, refl))
  register_decoded_cases (well_formed u) out = elim (eq-cases u.username "") [
    | inl (e, t) ↦ inr ((λ n. n.named e), ("Username and password are required", rw t refl))
    | inr (named, t) ↦ elim (eq-cases u.password "") [
      | inl (e, t') ↦
          inr ((λ n. n.secured e), ("Username and password are required", rw (t, t') refl))
      | inr (secured, t') ↦ elim (register_if_free_cases u out (lookup u.username h.mock_users)) [
        | inl (free, done) ↦
            inl (u, refl, record { named = named; secured = secured; free = free }, rw (t, t') done)
        | inr (taken, done) ↦ inr ((λ n. taken n.free), rw (t, t') done)
      ]
    ]
  ]

  -- `Register` stores the user of a body with a name that is free and a password; to any other
  -- body it answers 400, and no user changes.
  pub register_cases :
      (r : Request) (out : Writer)
      → ((u : User) × (env.decode_user r.body ≡ well_formed u)
          × IsNew h u
          × ((out' : Writer) × (register env r h out ≡ returned (after_register u) out')))
        ⊎ (IsBad h (env.decode_user r.body)
            × ((message : String) × (register env r h out
                  ≡ returned h (http_error message 400 out))))
  unfolding register
  register_cases r out = register_decoded_cases (env.decode_user r.body) out

  -- The user under whom the registration of `u` is stored.
  abbrev pub registered : User → User
  registered u = record u { id = env.uuid; role = if u.role == "" then "user" else u.role }

  register-IsNew :
      (u : User) (r : Request) (out : Writer)
      → env.decode_user r.body ≡ well_formed u
      → IsNew h u
      → (out' : Writer) × (register env r h out ≡ returned (after_register u) out')
  register-IsNew u r out body new = elim (register_cases r out) [
    | inl (v, e, _, (out', done)) ↦
        let same : v ≡ u = well_formed-inj (sym e ∙ body) in
        (out', done ∙ ap (λ w. returned (after_register w) out') same)
    | inr (bad, _) ↦ absurd (subst (IsBad h) body bad new)
  ]

  login-after_register :
      (env' : Env) (u : User) (r : Request) (out : Writer)
      → env'.decode_login r.body
        ≡ well_formed (record { username = u.username; password = u.password })
      → login env' r (after_register u) out
        ≡ returned (after_register u) (
            token_reply env'
              (after_register u)
              (registered u)
              (user_token env' (after_register u) (registered u))
              out)
  unfolding login after_register
  login-after_register env' u r out body =
      rw (body, login_decoded)
        (let found : lookup u.username (store u.username (new_user env u) h.mock_users)
              ≡ some (registered u) =
            ground (
              arith,
              lookup-store u.username u.username (new_user env u) h.mock_users,
              eq_refl u.username,
            ) in
          rw (found, eq_refl u.password) refl)

  -- The answer to a log-in of that user: a token that is signed for him, or 500.
  abbrev pub IsGranted : Env → User → Writer → Writer → Type 0
  IsGranted env' u out out' =
      ((token : String) × (signature env' h u ≡ some token)
        × (out' ≡ encode (granted env' h u token) out))
      ⊎ ((signature env' h u ≡ none) × (out' ≡ http_error "Internal server error" 500 out))

  IsGranted-token_reply :
      (env' : Env) (u v : User) (out : Writer)
      → IsGranted env' v out
          (token_reply env' (after_register u) v (user_token env' (after_register u) v) out)
  unfolding after_register token_reply
  IsGranted-token_reply env' u v out = elim (Option-cases (user_token env' (after_register u) v)) [
    | inl e ↦ inr (sym (user_token-signature env' (after_register u) v) ∙ e, rw e refl)
    | inr (token, e) ↦ inl (
      token,
      sym (user_token-signature env' (after_register u) v) ∙ e,
      rw e (token_reply-granted env' (after_register u) v token out),
    )
  ]

  -- Whoever registers with a password under a name that is free is stored with the role that he asks
  -- for, admin too, or as user where he asks for none. A log-in with that name and password then
  -- gets a token that is signed, under the secret of the gateway, for the new ID, the name and
  -- that role, or 500 if the signing fails.
  pub login-register :
      (env' : Env) (u : User) (r r' : Request) (out out' : Writer)
      → env.decode_user r.body ≡ well_formed u
      → IsNew h u
      → env'.decode_login r'.body
        ≡ well_formed (record { username = u.username; password = u.password })
      → (h' : AuthHandler) × (answer reply : Writer) × (register env r h out ≡ returned h' answer)
        × (lookup u.username h'.mock_users ≡ some (registered u))
        × (login env' r' h' out' ≡ returned h' reply)
        × IsGranted env' (registered u) out' reply
  unfolding after_register
  login-register env' u r r' out out' body new login_body =
      let done = register-IsNew u r out body new in
      (
        after_register u,
        done.0,
        _,
        done.1,
        lookup-store u.username u.username (new_user env u) h.mock_users
            ∙ rw (eq_refl u.username) refl,
        login-after_register env' u r' out' login_body,
        IsGranted-token_reply env' u (registered u) out',
      )
