-- ===== src/Middleware/Auth/RoundTrip.antt =====
-- A token that the gateway makes opens its own guard.
use siger_api_gateway.Common.{
  ◌<◌, ◌≡◌, refl, false, ◌==◌, String, some, [], ◌∷◌, split_space, split_space-bearer, concat, Time,
  ℤ, ne→eq_false, ne_of_eq_false, concat-ne-empty, ap, ◌∙◌, NoSpace, true,
}
use siger_api_gateway.Http.{Handler, Request, Writer, Context, value, header}
use siger_api_gateway.Middleware.Auth.Library.{Jwt, JwtLaws, UserClaims, hmac, cut_times}
use siger_api_gateway.Middleware.Auth.{
  jwt_auth, admit, bearer_token, key_for, user_context, generate_token, new_claims, add_duration,
  minutes_duration, user_id_context_key, username_context_key, user_role_context_key,
}

pair_eq : {x y z w : Time} → x ≡ y → z ≡ w → ◌≡◌ {A = Time × Time} (x, z) (y, w)
pair_eq e e' = cc

-- If the JWT library keeps its laws, a request that carries a token of `GenerateToken`, before the end
-- of its minutes, as the library cuts that time, passes the JWT middleware under the same secret; the
-- handler finds the user's ID, name and role in its context.
pub jwt_auth-generate_token :
    {W : Type 0} (jwt : Jwt)
    → JwtLaws jwt
    → (now later at : Time) (user_id username role secret : String) (minutes : ℤ) (token : String)
    → (next : Handler W) (r : Request) (w : W) (out : Writer)
    → generate_token jwt now later user_id username role secret minutes ≡ some token
    → at < jwt.numeric_date (add_duration now (minutes_duration minutes))
    → header "Authorization" r ≡ concat "Bearer " token
    → (ctx : Context) × (value user_id_context_key ctx ≡ some user_id)
      × (value username_context_key ctx ≡ some username)
      × (value user_role_context_key ctx ≡ some role)
      × (jwt_auth jwt secret at next r w out ≡ next (record r { context = ctx }) w out)
unfolding jwt_auth user_context value generate_token bearer_token key_for new_claims
jwt_auth-generate_token jwt laws now later at user_id username role secret minutes token next r w
      out made current carried =
    (user_context claims r.context, refl, refl, refl, rw (carried, not_empty, parts) accepted)
  where
    claims : UserClaims
    claims = new_claims jwt now later user_id username role minutes

    signed :
        (jwt.method_of token ≡ some (hmac "HS256"))
        × (jwt.verifies (hmac "HS256") secret token ≡ true)
        × (jwt.claims_of token ≡ some (cut_times jwt.numeric_date claims))
        × NoSpace token
    signed = laws.signs (hmac "HS256") claims secret token made

    parts : split_space (concat "Bearer " token) ≡ "Bearer" ∷ token ∷ []
    parts = split_space-bearer token signed.3

    not_empty : (concat "Bearer " token == "") ≡ false
    not_empty =
        ne→eq_false (concat "Bearer " token) ""
          (concat-ne-empty "Bearer " token (ne_of_eq_false "Bearer " "" refl))

    unchanged : cut_times jwt.numeric_date claims ≡ claims
    unchanged =
        ap (λ times. record claims { expires_at = some times.0; issued_at = some times.1 })
          (pair_eq (laws.cuts_once (add_duration now (minutes_duration minutes)))
            (laws.cuts_once later))

    accepted :
        admit (jwt.parse_with_claims token (key_for secret) at) next r w out
        ≡ next (record r { context = user_context claims r.context }) w out
    accepted =
        rw
          (laws.accepts (hmac "HS256") claims secret token (key_for secret) at signed.0 refl
            signed.1 (signed.2 ∙ ap some unchanged) (current, tt))
          refl
