-- ===== src/Auth/Middleware.antt =====
-- internal/auth/middleware.go
pub mod Tokens
use shig.Common.{Text, Option, none, some, [], ◌∷◌, ◌==◌, if◌then◌else◌, ℕ}
use shig.Auth.Jwt.{Jwt, JwtToken, validate_token}

-- "Bearer "
abbrev pub bearer : Text
bearer = b'B' ∷ b'e' ∷ b'a' ∷ b'r' ∷ b'e' ∷ b'r' ∷ b' ' ∷ []

-- HasPrefix and TrimPrefix
unfoldable pub strip_prefix : Text → Text → Option Text
strip_prefix [] t = some t
strip_prefix (p ∷ ps) [] = none
strip_prefix (p ∷ ps) (c ∷ t) = let rest = strip_prefix ps t in if c == p then rest else none

-- The status 400, the status 403, or the call of the handler with the principal in its context
pub data Passed : Type 0 where
  bad_request forbidden : Passed
  passed : Text → Passed

unfoldable pub http_middleware : Jwt → JwtToken → Text → ℕ → Passed
http_middleware jwt config header now = elim (strip_prefix bearer header) [
  | none ↦ bad_request
  | some t ↦ elim (validate_token jwt config t now) [ none ↦ forbidden | some p ↦ passed p ]
]
