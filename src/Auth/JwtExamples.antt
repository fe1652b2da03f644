-- ===== src/Auth/JwtExamples.antt =====
-- A coding of claims that keeps the law of the JWT library, and one input for the theorem on tokens.
use shig.Common.{
  Text, Text-discrete, Option, none, some, [], ◌∷◌, ◌++◌, ◌≡◌, ℕ, zero, suc, refl, arith, subst,
  if◌then◌else◌,
}
use shig.Streams.{Account, Query, found}
use shig.Auth.Jwt.{Jwt, JwtToken, Claims, create_jwt_token, in_time}
use shig.Auth.Account.{User, get_auth_token}
use shig.Auth.Middleware.{bearer, http_middleware, passed}
use shig.Auth.Middleware.Tokens.{token-never_expires}

code_of : Option ℕ → ℕ
code_of none = 0
code_of (some n) = suc n

from_code : ℕ → Option ℕ
from_code zero = none
from_code (suc n) = some n

uuid_code : Option Text → Text
uuid_code none = []
uuid_code (some t) = 0 ∷ t

from_uuid_code : Text → Option Text
from_uuid_code [] = none
from_uuid_code (c ∷ t) = some t

pub sign : Text → Claims → Option Text
unfolding code_of uuid_code
sign key c = some (code_of c.exp ∷ code_of c.nbf ∷ uuid_code c.uuid)

read_claims : Text → Option Claims
unfolding from_code from_uuid_code
read_claims (e ∷ n ∷ t) =
    some
      (record { uuid = from_uuid_code t; expires_at = none; exp = from_code e; nbf = from_code n })
read_claims _ = none

checked : ℕ → Option Claims → Option Claims
checked now none = none
checked now (some c) = if in_time c now then some c else none

pub parse : Text → Text → ℕ → Option Claims
unfolding checked read_claims
parse key t now = checked now (read_claims t)

from_code-code_of : (o : Option ℕ) → from_code (code_of o) ≡ o
unfolding from_code code_of
from_code-code_of none = refl
from_code-code_of (some n) = refl

from_uuid_code-uuid_code : (o : Option Text) → from_uuid_code (uuid_code o) ≡ o
unfolding from_uuid_code uuid_code
from_uuid_code-uuid_code none = refl
from_uuid_code-uuid_code (some t) = refl

pub parse-sign :
    (key : Text) (c : Claims) (t : Text) (now : ℕ)
    → sign key c ≡ some t
    → parse key t now ≡ (if in_time c now then some (record c { expires_at = none }) else none)
unfolding sign parse in_time
parse-sign key c t now e =
    let same : code_of c.exp ∷ code_of c.nbf ∷ uuid_code c.uuid ≡ t = cc e in
    subst
      (λ (x : Text).
        parse key x now ≡ (if in_time c now then some (record c { expires_at = none }) else none))
      same (rw (from_code-code_of c.exp, from_code-code_of c.nbf, from_uuid_code-uuid_code c.uuid))

abbrev pub coding : Jwt
coding = record { signed_string = sign; parse_with_claims = parse; parse_law = parse-sign }

abbrev pub config : JwtToken
config = record { key = b'k' ∷ []; default_expire_time = 60 }

abbrev account : Account
account = record { user = b'a' ∷ []; uuid = b'9' ∷ [] }

abbrev visitor : User
visitor = record { user_id = b'a' ∷ []; token = b'i' ∷ [] }

abbrev accounts : Text → Query Account
accounts user = found account

abbrev token : Text
token = 0 ∷ 1444478401 ∷ 0 ∷ b'9' ∷ []

token-given : get_auth_token coding config (b'i' ∷ []) accounts visitor 1500000000 ≡ some token
unfolding get_auth_token create_jwt_token sign Text-discrete
token-given = refl

-- The token of the year 2017 that was to expire after a minute, in the year 2027
token-never_expires_example :
    (visitor.token ≡ b'i' ∷ [])
    × (a : Account) × (accounts visitor.user_id ≡ found a)
    × (http_middleware coding config (bearer ++ token) 1800000000 ≡ passed a.uuid)
token-never_expires_example =
    token-never_expires coding config (b'i' ∷ []) accounts visitor token 1500000000 1800000000
      token-given (omega arith)
