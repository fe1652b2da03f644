-- ===== src/Federation/Resolver.antt =====
-- remote/resolver.go and inbox/handler.go: the public key behind an IRI, and the handler of an
-- activity. `ask` signs and sends the request for an IRI and reads the JSON of the answer; `decode`
-- reads that of a request's body.
use shig.Common.{Text, List, [], ◌∷◌, Option, none, some}
use shig.Streams.{ok}
use shig.Federation.{Url, Config, Store, Run, give, fail}
use shig.Federation.Signature.{PublicKey}
use shig.Federation.Accept
use shig.Federation.Accept.{handle_accept_request}
use shig.Federation.Videos.{StreamService, Outside}
use shig.Federation.VideoService.{
  Object, handle_announce_request, handle_update_request, handle_delete_request,
}

-- A Person, a Service or an Application with its public keys, a key, or another type. An entry that
-- is no key is `none`.
pub data Answer : Type 0 where
  account : Option (List (Option PublicKey)) → Answer
  key : PublicKey → Answer
  other_answer : Answer

first_public_key : List (Option PublicKey) → Option PublicKey
first_public_key [] = none
first_public_key (none ∷ ks) = first_public_key ks
first_public_key (some k ∷ ks) = some k

-- The callbacks of GetResolvedPublicKeyFromIRI
unfoldable pub key_of : Answer → Option PublicKey
unfolding first_public_key
key_of (account none) = none
key_of (account (some ks)) = first_public_key ks
key_of (key k) = some k
key_of other_answer = none

unfoldable pub get_resolved_public_key_from_iri : (Text → Option Answer) → Text → Option PublicKey
unfolding key_of
get_resolved_public_key_from_iri ask iri = elim (ask iri) [ none ↦ none | some a ↦ key_of a ]

-- The activities that have a handler
pub data Activity : Type 0 where
  announce : Option (List Object) → Option (List (Option Url)) → Activity
  update delete : Option (List Object) → Activity
  accept : Option (List Accept.Object) → Activity
  unmatched : Activity

module _ {D : Type 0} (store : Store D) (outside : Outside) (config : Config)
    (streams : StreamService D) where
  -- Resolver.Resolve with the handlers of the inbox: an activity without a handler is no error.
  unfoldable pub dispatch : Activity → Run D (Unit {0})
  unfolding handle_announce_request handle_update_request handle_delete_request
      handle_accept_request
  dispatch (announce os to) = handle_announce_request store outside config streams os to
  dispatch (update os) = handle_update_request store outside config streams os
  dispatch (delete os) = handle_delete_request store outside config streams os
  dispatch (accept os) = handle_accept_request store outside.urls os
  dispatch unmatched = give (ok tt)

  unfoldable pub resolve : (Text → Option Activity) → Text → Run D (Unit {0})
  unfolding dispatch
  resolve decode body = elim (decode body) [ none ↦ fail | some a ↦ dispatch a ]
