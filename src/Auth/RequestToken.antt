-- ===== src/Auth/RequestToken.antt =====
-- internal/auth/request_token.go, request_token_manager.go, session.go (reading the session). The
-- cookie store's answer is an argument, with `none` for its error; the new token is drawn by the
-- caller. The handler that is called is the `some` of an answer, the status 403 its `none`.
pub mod Once
use shig.Common.{Text-discrete, [], if◌then◌else◌, ◌∷◌, Bool, ite, none, some, ◌*◌, Option, Text, ℕ}
-- session.Values of the cookie, where its entries have the type that is asked for
use shig.Storage.{second, get, set, Memory}

pub record Values : Type 0 where
  pub authenticated : Option Bool
  pub user_uuid : Option Text

pub data Principal : Type 0 where
  not_read not_authenticated no_user : Principal
  user : Text → Principal

read_user : Option Text → Principal
read_user none = no_user
read_user (some []) = no_user
read_user (some (c ∷ cs)) = user (c ∷ cs)

-- GetPrincipalFromSession, with getSession
unfoldable pub get_principal : Option Values → Principal
unfolding read_user
get_principal none = not_read
get_principal (some v) = elim v.authenticated [
  | none ↦ not_authenticated
  | some b ↦ if b then read_user v.user_uuid else not_authenticated
]

-- 1 * time.Hour
abbrev pub expiration : ℕ
expiration = 3600 * second

-- getToken: the empty string where there is none
unfoldable pub get_token : Memory Text → Text → ℕ → Text
get_token m key now = elim (get m key now) [ none ↦ [] | some t ↦ t ]

unfoldable pub set_new_request_token : Memory Text → Text → Text → ℕ → Memory Text
set_new_request_token m id fresh now = set m id fresh expiration now

check_token : Memory Text → Text → Text → ℕ → Principal → Memory Text × Option Text
unfolding get_token set_new_request_token
check_token m token fresh now (user id) =
    ite (Text-discrete (get_token m id now) token)
      (set_new_request_token m id fresh now, some fresh) (m, none)
check_token m token fresh now _ = (m, none)

-- TokenMiddleware: the answer holds the token of the response's header.
unfoldable pub token_middleware :
    Memory Text → Text → Option Values → Text → ℕ → Memory Text × Option Text
unfolding check_token get_principal
token_middleware m [] v fresh now = (m, none)
token_middleware m (c ∷ cs) v fresh now = check_token m (c ∷ cs) fresh now (get_principal v)
