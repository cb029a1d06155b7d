-- ===== src/Handlers/Accounts.antt =====
-- internal/handlers/auth.go: log-in, registration and the profile, over the map of mock users. The
-- clock, the new UUID, the JSON decoder's answers and the JWT library are arguments.
pub mod Register
pub mod Login
pub mod Profile
pub mod Tests
use siger_api_gateway.Common.{
  ℕ, ℤ, Bool, true, false, not, ◌||◌, ◌==◌, String, Option, none, some, List, [], ◌∷◌, Map, lookup,
  store, concat, if◌then◌else◌, Time,
}
use siger_api_gateway.Http.{
  Json, str, time, obj, Fields, end, field, Handler, Request, Writer, Reply, returned, value,
  http_error, encode, set_header, write_header, write, json,
}
use siger_api_gateway.Middleware.Auth.Library.{Jwt}
use siger_api_gateway.Middleware.Auth.{
  generate_token, user_id_context_key, minutes_duration, add_duration,
}

pub record User : Type 0 where
  pub id : String
  pub username : String
  pub password : String
  pub role : String

pub record LoginRequest : Type 0 where
  pub username : String
  pub password : String

pub record LoginResponse : Type 0 where
  pub token : String
  pub expires_at : Time
  pub user_id : String
  pub username : String
  pub role : String

unfoldable pub login_response_json : LoginResponse → Json
login_response_json p = obj (
    field "token" (str p.token) (
      field "expires_at" (time p.expires_at) (
        field "user_id" (str p.user_id)
          (field "username" (str p.username) (field "role" (str p.role) end)))))

-- The password is left out when it is empty.
unfoldable pub user_json : User → Json
user_json u =
    let role = field "role" (str u.role) end in
    obj (
      field "id" (str u.id) (
        field "username" (str u.username)
          (if u.password == "" then role else field "password" (str u.password) role)))

-- `secret` and `expiration` are the fields of the configuration that the handler reads.
pub record AuthHandler : Type 0 where
  pub secret : String
  pub expiration : ℤ
  pub mock_users : Map User

unfoldable pub new_auth_handler : String → ℤ → AuthHandler
new_auth_handler secret expiration = record {
  secret = secret;
  expiration = expiration;
  mock_users =
      ("admin", record { id = "1"; username = "admin"; password = "admin123"; role = "admin" })
      ∷ ("user", record { id = "2"; username = "user"; password = "user123"; role = "user" })
      ∷ [];
}

-- The decoder's answer to a body: a value, or the text of its error.
pub data Decoded (A : Type 0) : Type 0 where
  well_formed : A → Decoded A
  malformed : String → Decoded A

-- What a handler reads from outside; `clock k` is its reading number `k` of the clock.
pub record Env : Type 0 where
  pub clock : ℕ → Time
  pub uuid : String
  pub decode_login : String → Decoded LoginRequest
  pub decode_user : String → Decoded User
  pub jwt : Jwt

-- `GenerateToken` reads the clock twice, and `Login` once more.
unfoldable pub token_reply : Env → AuthHandler → User → Option String → Writer → Writer
token_reply env h user none out = http_error "Internal server error" 500 out
token_reply env h user (some token) out =
    encode
      (login_response_json (record {
        token = token;
        expires_at = add_duration (env.clock 2) (minutes_duration h.expiration);
        user_id = user.id;
        username = user.username;
        role = user.role;
      }))
      out

-- The token of a user.
abbrev pub user_token : Env → AuthHandler → User → Option String
user_token env h user =
    generate_token env.jwt (env.clock 0) (env.clock 1) user.id user.username user.role h.secret
      h.expiration

check_user : Env → AuthHandler → String → Option User → Writer → Writer
unfolding token_reply
check_user env h password none out = http_error "Invalid credentials" 401 out
check_user env h password (some user) out =
    if not (user.password == password)
    then http_error "Invalid credentials" 401 out
    else token_reply env h user (user_token env h user) out

login_decoded : Env → AuthHandler → Decoded LoginRequest → Writer → Writer
unfolding check_user
login_decoded env h (malformed e) out = http_error (concat "Invalid request body: " e) 400 out
login_decoded env h (well_formed q) out =
    check_user env h q.password (lookup q.username h.mock_users) out

unfoldable pub login : Env → Handler AuthHandler
unfolding login_decoded
login env r h out = returned h (login_decoded env h (env.decode_login r.body) out)

-- The user that `Register` stores.
abbrev pub new_user : Env → User → User
new_user env user = record user {
  id = env.uuid;
  role = if user.role == "" then "user" else user.role;
}

abbrev registered_json : String → Json
registered_json id =
    obj (field "message" (str "User registered successfully") (field "user_id" (str id) end))

register_if_free : Env → User → Option User → AuthHandler → Writer → Reply AuthHandler
register_if_free env user (some _) h out =
    returned h (http_error "Username is already taken" 400 out)
register_if_free env user none h out =
    returned (record h { mock_users = store user.username (new_user env user) h.mock_users })
      (write (json (registered_json env.uuid))
        (write_header 201 (set_header "Content-Type" "application/json" out)))

register_decoded : Env → Decoded User → AuthHandler → Writer → Reply AuthHandler
unfolding register_if_free
register_decoded env (malformed e) h out =
    returned h (http_error (concat "Invalid request body: " e) 400 out)
register_decoded env (well_formed user) h out =
    if user.username == "" || user.password == ""
    then returned h (http_error "Username and password are required" 400 out)
    else register_if_free env user (lookup user.username h.mock_users) h out

unfoldable pub register : Env → Handler AuthHandler
unfolding register_decoded
register env r h out = register_decoded env (env.decode_user r.body) h out

-- The loop of `GetProfile`.
unfoldable pub find_user : String → Map User → Option User
find_user id [] = none
find_user id ((name, u) ∷ users) = if u.id == id then some u else find_user id users

profile_reply : Option User → Writer → Writer
profile_reply none out = http_error "User not found" 404 out
profile_reply (some user) out = encode (user_json (record user { password = "" })) out

profile_for : Option String → AuthHandler → Writer → Writer
unfolding profile_reply find_user
profile_for none h out = http_error "Unauthorized" 401 out
profile_for (some id) h out =
    if id == ""
    then http_error "Unauthorized" 401 out
    else profile_reply (find_user id h.mock_users) out

unfoldable pub get_profile : Handler AuthHandler
unfolding profile_for
get_profile r h out = returned h (profile_for (value user_id_context_key r.context) h out)
