-- ===== src/Auth/Account.antt =====
-- internal/auth/account_service.go and account_repository.go. First on the table of accounts is a
-- parameter.
use shig.Common.{Text, Text-discrete, Option, none, ℕ, ite}
use shig.Streams.{Account, Query, found, not_found, failed}
use shig.Auth.Jwt.{Jwt, JwtToken, create_jwt_token}

-- authentication.User
pub record User : Type 0 where
  pub user_id : Text
  pub token : Text

token_for : Jwt → JwtToken → ℕ → Query Account → Option Text
token_for jwt config now (found a) = create_jwt_token jwt config a.uuid now
token_for jwt config now not_found = none
token_for jwt config now failed = none

-- GetAuthToken, with findByUserName
unfoldable pub get_auth_token :
    Jwt → JwtToken → Text → (Text → Query Account) → User → ℕ → Option Text
unfolding token_for
get_auth_token jwt config instance_token first_account user now =
    ite (Text-discrete user.token instance_token)
      (token_for jwt config now (first_account user.user_id)) none
