-- ===== src/Federation/Account/KeyOwner.antt =====
-- Whose public key an actor of another server gets.
use shig.Common.{
  sym, ◌∙◌, Option-cases, Text, Text-discrete, List, [], ◌∷◌, ◌++◌, Option, none, some, ◌≡◌, ◌⊎◌,
  inl, inr, refl, arith, ap,
}
use shig.Streams.{ok}
use shig.Federation.{Url, Urls, Actor}
use shig.Federation.Cases.{Result-cases}
use shig.Federation.Account.{
  not_parsed, empty, not_rsa, rsa, Parsed, looked, look_at_pem, parse_block, Keys, KeyObject,
  Accountable, FoundKey, Looked, next, failed_key, found_key, look_at, first_key,
  extract_public_key, create_actor, fetch_account_as_actor, account_id, extract_preferred_username,
}

Looked-cases :
    {Key : Type 0} (x : Looked Key)
    → (x ≡ next) ⊎ ((x ≡ failed_key) ⊎ ((k : FoundKey Key) × (x ≡ found_key k)))
Looked-cases next = inl refl
Looked-cases failed_key = inr (inl refl)
Looked-cases (found_key k) = inr (inr (k, refl))

module _ {Key : Type 0} (keys : Keys Key) where
  -- The answer to the request for an IRI describes the actor: with an id, and among its public keys
  -- one that the actor's id owns.
  pub record Describes (urls : Urls) (read : Text → Option Accountable) (asked : Text) (x : Actor)
      : Type 0 where
    pub answer : Accountable
    pub id : Url
    pub owner : Url
    pub before : List (Option KeyObject)
    pub entry : KeyObject
    pub after : List (Option KeyObject)
    pub is_answer : read asked ≡ some answer
    pub has_id : answer.id ≡ some (some id)
    pub is_id : x.actor_iri ≡ urls.url_text id
    pub has_keys : answer.public_keys ≡ some (before ++ (some entry ∷ after))
    pub has_owner : entry.owner ≡ some owner
    pub is_owner : urls.url_text owner ≡ x.actor_iri

  looked-owner :
      (w : Url) (p : Parsed Key) (k : FoundKey Key) → looked keys w p ≡ found_key k → w ≡ k.owner
  unfolding looked
  looked-owner w not_parsed k e = absurd (cc e)
  looked-owner w empty k e = absurd (cc e)
  looked-owner w not_rsa k e = absurd (cc e)
  looked-owner w (rsa key) k e = ground arith

  look_at_pem-owner :
      (w : Url) (t : Text) (k : FoundKey Key) → look_at_pem keys w t ≡ found_key k → w ≡ k.owner
  unfolding look_at_pem
  look_at_pem-owner w [] k e = absurd (cc e)
  look_at_pem-owner w (c ∷ s) k e = elim (Option-cases (keys.decode (c ∷ s))) [
    | inl n ↦ absurd (ground arith)
    | inr (b, p) ↦ looked-owner w (parse_block keys b) k (ground arith)
  ]

  look_at-owner :
      (o : KeyObject) (k : FoundKey Key) → look_at keys o ≡ found_key k → o.owner ≡ some k.owner
  unfolding look_at
  look_at-owner o k e = elim (Option-cases o.id) [
    | inl n ↦ absurd (ground arith)
    | inr (id, p) ↦ elim (Option-cases o.owner) [
      | inl n ↦ absurd (ground arith)
      | inr (w, q) ↦ elim (Option-cases o.pem) [
        | inl n ↦ absurd (ground arith)
        | inr (t, r) ↦ q ∙ ap some (look_at_pem-owner w t k (ground arith))
      ]
    ]
  ]

  -- A key that is found stands in an entry with its owner.
  abbrev Stands : List (Option KeyObject) → FoundKey Key → Type 0
  Stands es k =
      (before : List (Option KeyObject)) × (o : KeyObject) × (after : List (Option KeyObject)) × (es
        ≡ before ++ (some o ∷ after))
      × (o.owner ≡ some k.owner)

  Stands-cons :
      (x : Option KeyObject) (es : List (Option KeyObject)) (k : FoundKey Key)
      → Stands es k
      → Stands (x ∷ es) k
  Stands-cons x es k (b, o, a, p, q) = (x ∷ b, o, a, ap (λ t. x ∷ t) p, q)

  first_key-Stands :
      (es : List (Option KeyObject)) (k : FoundKey Key) → first_key keys es ≡ ok k → Stands es k
  unfolding first_key
  first_key-Stands [] k e = absurd (cc e)
  first_key-Stands (none ∷ es) k e = Stands-cons none es k (first_key-Stands es k e)
  first_key-Stands (some o ∷ es) k e = elim (Looked-cases (look_at keys o)) [
    | inl n ↦ Stands-cons (some o) es k (first_key-Stands es k (ground arith))
    | inr (inl f) ↦ absurd (ground arith)
    | inr (inr (g, f)) ↦ ([], o, es, refl, look_at-owner o k (ground arith))
  ]

  account_id-has : (a : Accountable) (u : Url) → account_id keys a ≡ ok u → a.id ≡ some (some u)
  unfolding account_id
  account_id-has a u e = elim (Option-cases a.id) [
    | inl n ↦ absurd (ground arith)
    | inr (x, p) ↦ elim (Option-cases x) [
      | inl n ↦ absurd (ground arith)
      | inr (v, q) ↦ ground arith
    ]
  ]

  key-Stands :
      (a : Accountable) (k : FoundKey Key)
      → extract_public_key keys a ≡ ok k
      → (es : List (Option KeyObject)) × (a.public_keys ≡ some es) × Stands es k
  unfolding extract_public_key
  key-Stands a k e = elim (Option-cases a.public_keys) [
    | inl n ↦ absurd (ground arith)
    | inr (es, p) ↦ (es, p, first_key-Stands es k (ground arith))
  ]

  -- What createActor has checked of the account
  pub record IsChecked (urls : Urls) (a : Accountable) (x : Actor) : Type 0 where
    pub uri : Url
    pub found : FoundKey Key
    pub has_uri : account_id keys a ≡ ok uri
    pub has_found : extract_public_key keys a ≡ ok found
    pub is_owner : urls.url_text found.owner ≡ urls.url_text uri
    pub is_uri : x.actor_iri ≡ urls.url_text uri

  create_actor-IsChecked :
      (urls : Urls) (a : Accountable) (x : Actor)
      → create_actor keys urls a ≡ ok x
      → IsChecked urls a x
  unfolding create_actor
  create_actor-IsChecked urls a x e = elim (Result-cases (account_id keys a)) [
    | inr (f, p) ↦ absurd (ground arith)
    | inl (u, p) ↦ elim (Result-cases (extract_preferred_username a)) [
      | inr (f, q) ↦ absurd (ground arith)
      | inl (n, q) ↦ elim (Result-cases (extract_public_key keys a)) [
        | inr (f, r) ↦ absurd (ground arith)
        | inl (k, r) ↦ elim (Text-discrete (urls.url_text k.owner) (urls.url_text u)) [
          | no ne ↦ absurd (ground arith)
          | yes s ↦ elim (Option-cases (keys.export_key k.key)) [
            | inl n' ↦ absurd (ground arith)
            | inr (pem, t) ↦ record {
              uri = u;
              found = k;
              has_uri = p;
              has_found = r;
              is_owner = s;
              is_uri = ground arith;
            }
          ]
        ]
      ]
    ]
  ]

  -- An actor that is made from another server's answer has the id that the answer gives, whichever
  -- IRI was asked for, and one of the answer's public keys has that id as its owner.
  pub fetch-Describes :
      (urls : Urls) (read : Text → Option Accountable) (asked : Text) (x : Actor)
      → fetch_account_as_actor keys urls read asked ≡ ok x
      → Describes urls read asked x
  unfolding fetch_account_as_actor
  fetch-Describes urls read asked x e = elim (Option-cases (read asked)) [
    | inl n ↦ absurd (ground arith)
    | inr (a, p) ↦
        let c = create_actor-IsChecked urls a x (ground arith) in
        let (es, q, (b, o, r, s, t)) = key-Stands a c.found c.has_found in
        record {
          answer = a;
          id = c.uri;
          owner = c.found.owner;
          before = b;
          entry = o;
          after = r;
          is_answer = p;
          has_id = account_id-has a c.uri c.has_uri;
          is_id = c.is_uri;
          has_keys = q ∙ ap some s;
          has_owner = t;
          is_owner = c.is_owner ∙ sym c.is_uri;
        }
  ]
