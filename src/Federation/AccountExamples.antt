-- ===== src/Federation/AccountExamples.antt =====
-- One input for each theorem on the accounts of other instances.
use shig.Common.{Text, ℕ, [], ◌∷◌, none, some, ◌≡◌, refl, Text-discrete}
use shig.Streams.{ok}
use shig.Federation.{Url, Urls, Actor}
use shig.Federation.Strings.{codes}
use shig.Federation.Follow.{empty_actor}
use shig.Federation.StreamAccess.{federated_id}
use shig.Federation.Account.{
  extract_shared_inbox, extract_shared_inbox, Keys, rsa, Accountable, create_actor,
  fetch_account_as_actor, account_id, extract_preferred_username, extract_public_key,
}
use shig.Federation.Account.KeyOwner.{Describes, fetch-Describes}
use shig.Federation.Connector.{new_host, get_user}
use shig.Federation.Connector.Login.{get_user-federated_id}

abbrev url : Text → Url
url path = record { scheme = []; host = codes "h"; path = path }

abbrev urls : Urls
urls = record { parse_url = λ t. some (url t); url_text = λ u. u.path }

abbrev keys : Keys ℕ
keys = record {
  decode = λ t. some (record { block_type = codes "PUBLIC KEY"; bytes = t });
  parse_pkix = λ t. rsa 7;
  parse_pkcs1 = λ t. rsa 8;
  export_key = λ k. some (k ∷ []);
}

-- The first key has no owner, and the second is that of the account.
abbrev document : Accountable
document = record {
  id = some (some (url (codes "/a")));
  type_name = codes "Person";
  preferred_username = some (some (codes "ann"));
  inbox = some (url (codes "/a/inbox"));
  outbox = none;
  following = none;
  followers = none;
  endpoints = none;
  public_keys = some (
      some (record { id = some (url (codes "/k")); owner = none; pem = some (codes "x") })
      ∷ (some (record {
        id = some (url (codes "/k"));
        owner = some (url (codes "/a"));
        pem = some (codes "x");
      })
          ∷ []));
}

abbrev ann : Actor
ann = record empty_actor {
  actor_iri = codes "/a";
  preferred_username = codes "ann";
  actor_type = codes "Person";
  inbox_iri = codes "/a/inbox";
  public_key = 7 ∷ [];
}

-- The request was for another IRI.
ann_fetched : fetch_account_as_actor keys urls (λ i. some document) (codes "/b") ≡ ok ann
unfolding fetch_account_as_actor create_actor account_id extract_preferred_username
    extract_public_key extract_shared_inbox Text-discrete
ann_fetched = refl

fetch-Describes_example : Describes keys urls (λ i. some document) (codes "/b") ann
fetch-Describes_example =
    fetch-Describes keys urls (λ i. some document) (codes "/b") ann ann_fetched

abbrev instance_actor : Actor
instance_actor = record empty_actor {
  actor_iri = codes "/accounts/shig";
  preferred_username = codes "shig";
}

get_user-federated_id_example :
    federated_id urls instance_actor
    ≡ ok (get_user (new_host (λ _. 5) (url (codes "/accounts/shig")) [])).user_id
get_user-federated_id_example =
    get_user-federated_id urls (λ _. 5) (url (codes "/accounts/shig")) [] (codes "/accounts")
      instance_actor refl (refl, (refl, (refl, (refl, tt)))) refl
