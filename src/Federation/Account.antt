-- ===== src/Federation/Account.antt =====
-- remote/account.go: an actor from the account that another server describes. vocab gives the
-- properties; where a nil property and a nil IRI are passed over alike, both are `none`. pem, x509
-- and the text of an RSA key are parameters.
pub mod KeyOwner
use shig.Common.{Text, Text-discrete, ite, List, [], ◌∷◌, Option, none, some}
use shig.Streams.{Result, ok, err, other_error, ◌>>=◌}
use shig.Federation.{Url, Urls, Actor, or_fail}
use shig.Federation.Strings.{codes}
use shig.Federation.Follow.{empty_actor}

-- vocab.W3IDSecurityV1PublicKey
pub record KeyObject : Type 0 where
  pub id : Option Url
  pub owner : Option Url
  pub pem : Option Text

-- ActivityStreamAccount. The id and the name are `some none` where they have another type. An entry
-- of the endpoints gives the IRI of its shared inbox, and one of the public keys its value.
pub record Accountable : Type 0 where
  pub id : Option (Option Url)
  pub type_name : Text
  pub preferred_username : Option (Option Text)
  pub inbox : Option Url
  pub outbox : Option Url
  pub following : Option Url
  pub followers : Option Url
  pub endpoints : Option (List (Option Url))
  pub public_keys : Option (List (Option KeyObject))

-- What x509 gives for the bytes of a block
pub data Parsed (Key : Type 0) : Type 0 where
  not_parsed empty not_rsa : Parsed Key
  rsa : Key → Parsed Key

pub record Block : Type 0 where
  pub block_type : Text
  pub bytes : Text

pub record Keys (Key : Type 0) : Type 0 where
  pub decode : Text → Option Block
  pub parse_pkix : Text → Parsed Key
  pub parse_pkcs1 : Text → Parsed Key
  pub export_key : Key → Option Text

-- String of an IRI, or the empty text where there is none
unfoldable pub text_or_empty : Urls → Option Url → Text
text_or_empty urls none = []
text_or_empty urls (some u) = urls.url_text u

unfoldable pub extract_preferred_username : Accountable → Result Text
extract_preferred_username a = elim a.preferred_username [
  | some (some (c ∷ s)) ↦ ok (c ∷ s)
  | _ ↦ err other_error
]

unfoldable pub first_inbox : List (Option Url) → Option Url
first_inbox [] = none
first_inbox (none ∷ es) = first_inbox es
first_inbox (some u ∷ es) = some u

unfoldable pub extract_shared_inbox : Accountable → Option Url
unfolding first_inbox
extract_shared_inbox a = elim a.endpoints [ none ↦ none | some es ↦ first_inbox es ]

pub record FoundKey (Key : Type 0) : Type 0 where
  pub key : Key
  pub owner : Url

-- How the loop goes on after an entry: to the next one, or with a return.
pub data Looked (Key : Type 0) : Type 0 where
  next : Looked Key
  failed_key : Looked Key
  found_key : FoundKey Key → Looked Key

module _ {Key : Type 0} (keys : Keys Key) where
  parse_block : Block → Parsed Key
  parse_block b = ite (Text-discrete b.block_type (codes "PUBLIC KEY")) (keys.parse_pkix b.bytes) (
      ite (Text-discrete b.block_type (codes "RSA PUBLIC KEY")) (keys.parse_pkcs1 b.bytes)
        not_parsed)

  looked : Url → Parsed Key → Looked Key
  looked owner not_parsed = failed_key
  looked owner empty = failed_key
  looked owner not_rsa = next
  looked owner (rsa k) = found_key (record { key = k; owner = owner })

  look_at_pem : Url → Text → Looked Key
  unfolding looked parse_block
  look_at_pem owner [] = next
  look_at_pem owner (c ∷ s) = elim (keys.decode (c ∷ s)) [
    | none ↦ next
    | some b ↦ looked owner (parse_block b)
  ]

  -- The body of extractPublicKey's loop
  unfoldable pub look_at : KeyObject → Looked Key
  unfolding look_at_pem
  look_at o = elim o.id [
    | none ↦ next
    | some id ↦ elim o.owner [
      | none ↦ next
      | some owner ↦ elim o.pem [ none ↦ next | some t ↦ look_at_pem owner t ]
    ]
  ]

  unfoldable pub first_key : List (Option KeyObject) → Result (FoundKey Key)
  unfolding look_at
  first_key [] = err other_error
  first_key (none ∷ es) = first_key es
  first_key (some o ∷ es) = elim (look_at o) [
    | next ↦ first_key es
    | failed_key ↦ err other_error
    | found_key k ↦ ok k
  ]

  unfoldable pub extract_public_key : Accountable → Result (FoundKey Key)
  unfolding first_key
  extract_public_key a = elim a.public_keys [ none ↦ err other_error | some es ↦ first_key es ]

  unfoldable pub account_id : Accountable → Result Url
  account_id a = elim a.id [ some (some u) ↦ ok u | _ ↦ err other_error ]

  unfoldable pub create_actor : Urls → Accountable → Result Actor
  unfolding text_or_empty
  create_actor urls a = do
    uri ← account_id a
    username ← extract_preferred_username a
    found ← extract_public_key a
    _ ←
        ite (Text-discrete (urls.url_text found.owner) (urls.url_text uri)) (ok (tt {0}))
          (err other_error)
    pem ← or_fail (keys.export_key found.key)
    ok (record empty_actor {
      actor_iri = urls.url_text uri;
      preferred_username = username;
      actor_type = a.type_name;
      inbox_iri = text_or_empty urls a.inbox;
      shared_inbox_iri = text_or_empty urls (extract_shared_inbox a);
      outbox_iri = text_or_empty urls a.outbox;
      following_iri = text_or_empty urls a.following;
      followers_iri = text_or_empty urls a.followers;
      public_key = pem;
    })

  -- FetchAccountAsActor: `read` sends the request for an IRI and reads the answer as an account.
  unfoldable pub fetch_account_as_actor : Urls → (Text → Option Accountable) → Text → Result Actor
  unfolding create_actor
  fetch_account_as_actor urls read iri = do a ← or_fail (read iri); create_actor urls a
