-- ===== src/Auth/Examples.antt =====
-- One input for each theorem on request tokens.
use shig.Common.{
  Text-discrete, lookup, ◌∷◌, [], none, some, Option, refl, ◌≡◌, ◌≢◌, Text, true, arith,
}
use shig.Auth.RequestToken.{get_token, Values, token_middleware}
use shig.Storage.{get, Memory}
use shig.Auth.RequestToken.Once.{token_middleware-once}

abbrev ann : Text
ann = 97 ∷ []

abbrev first : Text
first = 102 ∷ []

abbrev next_token : Text
next_token = 110 ∷ []

abbrev cookie : Option Values
cookie = some (record { authenticated = some true; user_uuid = some ann })

abbrev tokens : Memory Text
tokens = (ann, record { expires = 5000; value = first }) ∷ []

first_accepted : (token_middleware tokens first cookie next_token 4000).1 ≡ some next_token
unfolding token_middleware get_token get lookup Text-discrete
first_accepted = refl

next-ne-first : next_token ≢ first
next-ne-first e = ground arith

token_middleware-once_example :
    (token_middleware
      (token_middleware tokens first cookie next_token 4000).0
      first
      cookie
      ann
      4001).1
    ≡ none
token_middleware-once_example =
    token_middleware-once tokens first cookie next_token ann 4000 4001 first_accepted next-ne-first
