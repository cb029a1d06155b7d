-- ===== src/Middleware/Auth/Example.antt =====
-- A small JWT library that keeps its promises: it signs one token.
use siger_api_gateway.Common.{
  ◌<◌, ◌≡◌, refl, sym, ap, ◌∙◌, inl, inr, Bool, true, false, ◌&&◌, ◌==◌, eqb, ltb, String, Option,
  none, some, arith, if◌then◌else◌, eq_iff, Option-cases, Time, subst,
}
use siger_api_gateway.Middleware.Auth.Library.{
  Jwt, JwtLaws, IsTimely, UserClaims, SigningMethod, hmac, other, Parsed, parsed, token_expired,
  parse_failed,
}

-- The claims of the one token that the library signs, "t", with the secret "s".
abbrev pub known : UserClaims
known = record {
  user_id = "1";
  username = "ann";
  role = "admin";
  expires_at = some 3600000000005;
  not_before = none;
  issued_at = some 6;
  issuer = "siger-api-gateway";
}

abbrev is_at : Time → Option Time → Bool
is_at t none = false
is_at t (some u) = eqb u t

abbrev is_absent : Option Time → Bool
is_absent none = true
is_absent (some u) = false

is_known : UserClaims → Bool
is_known c =
    c.user_id == "1"
    && (c.username == "ann"
        && (c.role == "admin"
            && (is_at 3600000000005 c.expires_at
                && (is_absent c.not_before
                    && (is_at 6 c.issued_at && c.issuer == "siger-api-gateway")))))

is_known_lem : (c : UserClaims) → is_known c ≡ true → c ≡ known
unfolding is_known
is_known_lem c h = ground (
  arith,
  eq_iff c.user_id "1",
  eq_iff c.username "ann",
  eq_iff c.role "admin",
  eq_iff c.issuer "siger-api-gateway",
)

abbrev is_secret : Option String → Bool
is_secret none = false
is_secret (some key) = key == "s"

unfoldable pub sign : SigningMethod → UserClaims → String → Option String
unfolding is_known
sign (other alg) claims key = none
sign (hmac alg) claims key =
    if alg == "HS256" && (is_known claims && key == "s") then some "t" else none

unfoldable pub parse : String → (SigningMethod → Option String) → Time → Parsed
parse token keys now =
    if token == "t" && is_secret (keys (hmac "HS256"))
    then (if ltb now 3600000000005 then parsed known true else token_expired)
    else parse_failed

abbrev pub library : Jwt
library = record {
  parse_with_claims = parse;
  signed_string = sign;
  method_of = λ token. if token == "t" then some (hmac "HS256") else none;
  claims_of = λ token. if token == "t" then some known else none;
  verifies = λ m key token. is_secret (some key);
  numeric_date = λ t. t;
}

sign_inv :
    (m : SigningMethod) (claims : UserClaims) (key token : String)
    → sign m claims key ≡ some token
    → (m ≡ hmac "HS256") × (claims ≡ known) × (key ≡ "s") × (token ≡ "t")
unfolding sign
sign_inv (other alg) claims key token h = cc
sign_inv (hmac alg) claims key token h = (
  ground (arith, eq_iff alg "HS256"),
  is_known_lem claims (ground arith),
  ground (arith, eq_iff key "s"),
  ground arith,
)

sign-known : sign (hmac "HS256") known "s" ≡ some "t"
unfolding sign
sign-known = refl

parse_inv :
    (token : String) (keys : SigningMethod → Option String) (now : Time) (claims : UserClaims)
    → parse token keys now ≡ parsed claims true
    → (token ≡ "t") × (keys (hmac "HS256") ≡ some "s") × (claims ≡ known) × (now < 3600000000005)
unfolding parse
parse_inv token keys now claims h = elim (Option-cases (keys (hmac "HS256"))) [
  | inl e ↦ ground (arith, e)
  | inr (key, e) ↦ (
    ground (arith, eq_iff token "t"),
    e ∙ ap some (ground (arith, e, eq_iff key "s")),
    ground (arith, e),
    ground (arith, e),
  )
]

parse-known :
    (keys : SigningMethod → Option String) (now : Time)
    → keys (hmac "HS256") ≡ some "s"
    → now < 3600000000005
    → parse "t" keys now ≡ parsed known true
unfolding parse
parse-known keys now e h = rw e (ground arith)

token_t :
    (token : String) {A : Type 0} {a b : A}
    → (if token == "t" then some a else none) ≡ some b
    → (token ≡ "t") × (a ≡ b)
token_t token h = (ground (arith, eq_iff token "t"), ground arith)

pub library-laws : JwtLaws library
library-laws = record {
  accepts = λ m claims key token keys now method k good holds timely.
      let (et, em) = token_t token method in
      let (_, ec) = token_t token holds in
      let ek : key ≡ "s" = (eq_iff key "s").0 good in
      rw (et, ← ec)
        (parse-known keys now (ap keys em ∙ (k ∙ ap some ek))
          (subst (λ c. IsTimely now c) (sym ec) timely).0);
  only_verified = λ token keys now claims h.
      let (et, ek, ec, current) = parse_inv token keys now claims h in
      (hmac "HS256", "s", rw et refl, ek, refl, rw (et, ec) refl, rw ec (current, tt));
  signs = λ m claims key token made.
      let (em, ec, ek, et) = sign_inv m claims key token made in
      rw (et, em, ec, ek) (refl, refl, refl, omega arith);
  cuts_once = λ t. refl;
}
