-- ===== src/Handlers/Accounts/Tests.antt =====
-- The account handlers at concrete inputs.
use siger_api_gateway.Common.{
  none, lookup, ◌≡◌, refl, ◌⊎◌, String, some, [], ◌∷◌, pos, false, ne_of_eq_false, ◌==◌,
  if◌then◌else◌,
}
use siger_api_gateway.Http.{Request, Writer, returned, http_error, fresh_writer, value}
use siger_api_gateway.Middleware.Auth.Library.{parse_failed}
use siger_api_gateway.Middleware.Auth.{user_id_context_key}
use siger_api_gateway.Handlers.Accounts.{
  User, AuthHandler, well_formed, malformed, Env, new_auth_handler, login, register, get_profile,
}
use siger_api_gateway.Handlers.Accounts.Register.{
  IsNew, IsBad, after_register, register_cases, login-register, IsGranted,
}
use siger_api_gateway.Handlers.Accounts.Login.{login_cases, LoginOutcome}
use siger_api_gateway.Handlers.Accounts.Profile.{get_profile_cases, ProfileOutcome}

abbrev eve : User
eve = record { id = ""; username = "eve"; password = "p"; role = "admin" }

abbrev env : Env
env = record {
  clock = λ k. k;
  uuid = "u-1";
  decode_login = λ body.
      if body == "eve"
      then well_formed (record { username = "eve"; password = "p" })
      else if body == "admin"
      then well_formed (record { username = "admin"; password = "admin123" })
      else malformed "EOF";
  decode_user = λ body. if body == "eve" then well_formed eve else malformed "EOF";
  jwt = record {
    parse_with_claims = λ token keys now. parse_failed;
    signed_string = λ m claims key. some "t";
    method_of = λ token. none;
    claims_of = λ token. none;
    verifies = λ m key token. false;
    numeric_date = λ t. t;
  };
}

abbrev accounts : AuthHandler
accounts = new_auth_handler "s" (pos 60)

abbrev post : String → Request
post body = record {
  method = "POST";
  path = "/auth";
  query = "";
  headers = [];
  remote_addr = "1.2.3.4:5";
  tls = false;
  body = body;
  params = [];
  context = (user_id_context_key, "2") ∷ [];
}

register_cases_example :
    ((u : User) × (env.decode_user "eve" ≡ well_formed u)
      × IsNew accounts u
      × ((out' : Writer) × (register env (post "eve") accounts fresh_writer
            ≡ returned (after_register env accounts u) out')))
    ⊎ (IsBad accounts (env.decode_user "eve")
        × ((message : String) × (register env (post "eve") accounts fresh_writer
              ≡ returned accounts (http_error message 400 fresh_writer))))
register_cases_example = register_cases env accounts (post "eve") fresh_writer

login-register_example :
    (h' : AuthHandler) × (answer reply : Writer) × (register env (post "eve") accounts fresh_writer
      ≡ returned h' answer)
    × (lookup "eve" h'.mock_users ≡ some (record eve { id = "u-1" }))
    × (login env (post "eve") h' fresh_writer ≡ returned h' reply)
    × IsGranted env accounts env (record eve { id = "u-1" }) fresh_writer reply
unfolding lookup new_auth_handler
login-register_example =
    login-register env accounts env eve (post "eve") (post "eve") fresh_writer fresh_writer refl
      (record {
        named = ne_of_eq_false "eve" "" refl;
        secured = ne_of_eq_false "p" "" refl;
        free = refl;
      })
      refl

login_cases_example :
    (out' : Writer) × (login env (post "admin") accounts fresh_writer ≡ returned accounts out')
    × LoginOutcome env accounts (env.decode_login "admin") fresh_writer out'
login_cases_example = login_cases env accounts (post "admin") fresh_writer

get_profile_cases_example :
    (out' : Writer) × (get_profile (post "") accounts fresh_writer ≡ returned accounts out')
    × ProfileOutcome (value user_id_context_key (post "").context) accounts fresh_writer out'
get_profile_cases_example = get_profile_cases (post "") accounts fresh_writer
