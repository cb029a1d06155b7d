-- ===== src/Middleware/Auth.antt =====
-- internal/middleware/auth.go: JWT authentication, the role check and the making of tokens. The JWT
-- library is a parameter (Auth/Library).
pub mod Library
pub mod Example
pub mod Guards
pub mod RoundTrip
pub mod Tests
use siger_api_gateway.Common.{
  ℕ, ◌+◌, ◌-◌, ◌*◌, ◌%◌, ◌^◌, suc, Bool, true, false, not, ◌&&◌, ◌||◌, ◌==◌, String, Option, none,
  some, List, [], ◌∷◌, if◌then◌else◌, ltb, Time, minute, ℤ, pos, negsuc, split_space,
}
use siger_api_gateway.Http.{
  Handler, Request, Writer, Reply, returned, Context, Key, context_key, with_value, value, header,
  http_error,
}
use Library.{
  Jwt, UserClaims, SigningMethod, hmac, other, Parsed, parsed, token_expired, parse_failed,
}

abbrev pub user_id_context_key : Key
user_id_context_key = context_key "user_id"

abbrev pub username_context_key : Key
username_context_key = context_key "username"

abbrev pub user_role_context_key : Key
user_role_context_key = context_key "user_role"

-- `len(parts) == 2 && parts[0] == "Bearer"`, and then `parts[1]`.
unfoldable pub bearer_token : List String → Option String
bearer_token (scheme ∷ token ∷ []) = if scheme == "Bearer" then some token else none
bearer_token _ = none

-- The key function: a secret for the HMAC methods only.
unfoldable pub key_for : String → SigningMethod → Option String
key_for secret (hmac alg) = some secret
key_for secret (other alg) = none

unfoldable pub user_context : UserClaims → Context → Context
user_context claims ctx = with_value user_role_context_key claims.role (
    with_value username_context_key claims.username
      (with_value user_id_context_key claims.user_id ctx))

module _ {W : Type 0} where
  unfoldable pub admit : Parsed → Handler W → Handler W
  admit token_expired next r w out =
      returned w (http_error "Unauthorized: token has expired" 401 out)
  admit parse_failed next r w out = returned w (http_error "Unauthorized: invalid token" 401 out)
  admit (parsed claims false) next r w out =
      returned w (http_error "Unauthorized: invalid token claims" 401 out)
  admit (parsed claims true) next r w out =
      next (record r { context = user_context claims r.context }) w out

  check_token : Jwt → String → Time → Option String → Handler W → Handler W
  unfolding admit
  check_token jwt secret now none next r w out =
      returned w (http_error "Unauthorized: invalid token format" 401 out)
  check_token jwt secret now (some token) next r w out =
      admit (jwt.parse_with_claims token (key_for secret) now) next r w out

  -- `now` is the time at which the library checks the token.
  unfoldable pub jwt_auth : Jwt → String → Time → Handler W → Handler W
  unfolding check_token
  jwt_auth jwt secret now next r w out =
      if header "Authorization" r == ""
      then returned w (http_error "Unauthorized: no token provided" 401 out)
      else check_token jwt secret now (bearer_token (split_space (header "Authorization" r))) next r
          w out

  -- `role, ok := ….(string)`, then `!ok || role == ""`.
  check_role : String → Option String → Handler W → Handler W
  check_role required none next r w out =
      returned w (http_error "Forbidden: authentication required" 403 out)
  check_role required (some role) next r w out =
      if role == ""
      then returned w (http_error "Forbidden: authentication required" 403 out)
      else if not (role == required) && not (role == "admin")
      then returned w (http_error "Forbidden: insufficient permissions" 403 out)
      else next r w out

  unfoldable pub require_role : String → Handler W → Handler W
  unfolding check_role
  require_role required next r w out =
      check_role required (value user_role_context_key r.context) next r w out

-- `time.Duration(minutes) * time.Minute`, as the 64-bit pattern of an `int64`.
unfoldable pub minutes_duration : ℤ → ℕ
minutes_duration (pos m) = m * minute % 2 ^ 64
minutes_duration (negsuc m) = (2 ^ 64 - suc m * minute % 2 ^ 64) % 2 ^ 64

-- `t.Add(d)` for the pattern of a duration.
unfoldable pub add_duration : Time → ℕ → Time
add_duration t d = if ltb d (2 ^ 63) then t + d else t - (2 ^ 64 - d)

-- The claims that `GenerateToken` signs; `now` and `later` are its two readings of the clock.
unfoldable pub new_claims : Jwt → Time → Time → (user_id username role : String) → ℤ → UserClaims
unfolding minutes_duration add_duration
new_claims jwt now later user_id username role minutes = record {
  user_id = user_id;
  username = username;
  role = role;
  expires_at = some (jwt.numeric_date (add_duration now (minutes_duration minutes)));
  not_before = none;
  issued_at = some (jwt.numeric_date later);
  issuer = "siger-api-gateway";
}

-- `none` is the error of the signature.
unfoldable pub generate_token :
    Jwt → Time → Time → (user_id username role secret : String) → ℤ → Option String
unfolding new_claims
generate_token jwt now later user_id username role secret minutes =
    jwt.signed_string (hmac "HS256") (new_claims jwt now later user_id username role minutes) secret
