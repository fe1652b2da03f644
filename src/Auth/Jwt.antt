-- ===== src/Auth/Jwt.antt =====
-- internal/auth/jwt.go. The JWT library is the interface `Jwt`; the time is an argument, in seconds.
use shig.Common.{
  Text, Option, none, some, ℕ, Bool, true, ◌≡◌, ◌+◌, ◌%◌, ◌^◌, ◌&&◌, leb, ltb, if◌then◌else◌, [],
}

-- The claims by the names that they have in a token. Only `exp` and `nbf` are known to the library.
pub record Claims : Type 0 where
  pub uuid : Option Text
  pub expires_at : Option ℕ
  pub exp : Option ℕ
  pub nbf : Option ℕ

pub record JwtToken : Type 0 where
  pub key : Text
  pub default_expire_time : ℕ

before_exp : ℕ → Option ℕ → Bool
before_exp now none = true
before_exp now (some e) = ltb now e

not_before : ℕ → Option ℕ → Bool
not_before now none = true
not_before now (some n) = leb n now

-- A token that has not expired and is valid already.
unfoldable pub in_time : Claims → ℕ → Bool
unfolding before_exp not_before
in_time c now = before_exp now c.exp && not_before now c.nbf

-- SignedString by HS256, and ParseWithClaims with a key function that accepts HMAC: what was signed
-- under a key is read back under it, in time, less the claims that the struct has no field for.
pub record Jwt : Type 0 where
  pub signed_string : Text → Claims → Option Text
  pub parse_with_claims : Text → Text → ℕ → Option Claims
  pub parse_law :
      (key : Text) (c : Claims) (t : Text) (now : ℕ)
      → signed_string key c ≡ some t
      → parse_with_claims key t now
        ≡ (if in_time c now then some (record c { expires_at = none }) else none)

-- 2015-10-10 12:00 UTC
abbrev pub not_before_date : ℕ
not_before_date = 1444478400

-- CreateJWTToken
unfoldable pub create_jwt_token : Jwt → JwtToken → Text → ℕ → Option Text
create_jwt_token jwt config uuid now = jwt.signed_string config.key (record {
  uuid = some uuid;
  expires_at = some ((now + config.default_expire_time) % 2 ^ 64);
  exp = none;
  nbf = some not_before_date;
})

uuid_of : Option Text → Text
uuid_of none = []
uuid_of (some t) = t

-- ValidateToken: the UUID of the principal
unfoldable pub validate_token : Jwt → JwtToken → Text → ℕ → Option Text
unfolding uuid_of
validate_token jwt config t now = elim (jwt.parse_with_claims config.key t now) [
  | none ↦ none
  | some c ↦ some (uuid_of c.uuid)
]
