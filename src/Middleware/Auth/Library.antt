-- ===== src/Middleware/Auth/Library.antt =====
-- What the gateway uses of github.com/golang-jwt/jwt: the operations, and what its documentation
-- says of them. The library is not part of the repository.
use siger_api_gateway.Common.{◌<◌, ◌≤◌, ◌≡◌, String, Bool, true, Option, none, some, Time, NoSpace}

-- `UserClaims` of internal/middleware/auth.go. The times are pointers, which may be nil; the fields of
-- the embedded claims that the gateway never sets and the library does not check are left out.
pub record UserClaims : Type 0 where
  pub user_id : String
  pub username : String
  pub role : String
  pub expires_at : Option Time
  pub not_before : Option Time
  pub issued_at : Option Time
  pub issuer : String

-- The signing method of a token's header, with its name.
pub data SigningMethod : Type 0 where
  hmac other : String → SigningMethod

-- The outcome of `ParseWithClaims`; the flag is `token.Valid`.
pub data Parsed : Type 0 where
  token_expired parse_failed : Parsed
  parsed : UserClaims → Bool → Parsed

pub record Jwt : Type 0 where
  -- the token, the key function, and the time of the check
  pub parse_with_claims : String → (SigningMethod → Option String) → Time → Parsed
  pub signed_string : SigningMethod → UserClaims → String → Option String
  -- the method in the header of a token, and the claims in its payload, if they can be read
  pub method_of : String → Option SigningMethod
  pub claims_of : String → Option UserClaims
  -- whether the signature of a token is good for a method and a key
  pub verifies : SigningMethod → String → String → Bool
  -- `NewNumericDate` cuts a time to its precision
  pub numeric_date : Time → Time

-- No time limit of the claims, of those that are there, is passed or still to come.
abbrev pub IsBefore : Time → Option Time → Type 0
IsBefore now none = Unit
IsBefore now (some expiry) = now < expiry

abbrev pub IsSince : Time → Option Time → Type 0
IsSince now none = Unit
IsSince now (some start) = start ≤ now

abbrev pub IsTimely : Time → UserClaims → Type 0
IsTimely now claims = IsBefore now claims.expires_at × IsSince now claims.not_before

abbrev pub cut_time : (Time → Time) → Option Time → Option Time
cut_time cut none = none
cut_time cut (some t) = some (cut t)

-- The claims as they come back from a token.
abbrev pub cut_times : (Time → Time) → UserClaims → UserClaims
cut_times cut claims = record claims {
  expires_at = cut_time cut claims.expires_at;
  not_before = cut_time cut claims.not_before;
  issued_at = cut_time cut claims.issued_at;
}

-- The documented behaviour that the gateway relies on: a token is accepted if its signature is good for
-- the key of its method and its claims can be read and are timely, and only then; a token that
-- is signed has a good signature, its method and its claims, with their times cut to the
-- library's precision, and is three base64url parts with dots between them, so it holds no space.
pub record JwtLaws (jwt : Jwt) : Type 0 where
  pub accepts :
      (m : SigningMethod) (claims : UserClaims) (key token : String)
      (keys : SigningMethod → Option String) (now : Time)
      → jwt.method_of token ≡ some m
      → keys m ≡ some key
      → jwt.verifies m key token ≡ true
      → jwt.claims_of token ≡ some claims
      → IsTimely now claims
      → jwt.parse_with_claims token keys now ≡ parsed claims true
  pub only_verified :
      (token : String) (keys : SigningMethod → Option String) (now : Time) (claims : UserClaims)
      → jwt.parse_with_claims token keys now ≡ parsed claims true
      → (m : SigningMethod) × (key : String) × (jwt.method_of token ≡ some m)
        × (keys m ≡ some key)
        × (jwt.verifies m key token ≡ true)
        × (jwt.claims_of token ≡ some claims)
        × IsTimely now claims
  pub signs :
      (m : SigningMethod) (claims : UserClaims) (key token : String)
      → jwt.signed_string m claims key ≡ some token
      → (jwt.method_of token ≡ some m)
        × (jwt.verifies m key token ≡ true)
        × (jwt.claims_of token ≡ some (cut_times jwt.numeric_date claims))
        × NoSpace token
  pub cuts_once : (t : Time) → jwt.numeric_date (jwt.numeric_date t) ≡ jwt.numeric_date t
