-- ===== src/Federation/Signature/Algorithms.antt =====
-- When a request is taken as verified, and what a worker does with the others.
use shig.Common.{
  ◌≢◌, ℕ, Text, Text-discrete, Bool, true, false, List, [], ◌∷◌, ◌++◌, Option, some, ◌≡◌, ◌||◌, All,
  refl, arith, if◌then◌else◌, Bool-cases, inl, inr,
}
use shig.Streams.{Result, ok, err, panicked, other_error}
use shig.Federation.{Url, Urls}
use shig.Federation.Strings.{codes, split, trim}
use shig.Federation.Signature.{
  key_and_algorithm, after, after, PublicKey, Verifier, SignedRequest, tried, try_algorithms,
  find_algorithm, verify, handle,
}
use shig.Federation.Cases.{Result-cases}

abbrev any : (Text → Bool) → List Text → Bool
any p [] = false
any p (a ∷ as') = p a || any p as'

tried-fails :
    (v : Text → Bool) (a : Text) (fs : List Text)
    → All (λ f. v f ≡ false) fs
    → tried a fs ≡ true
    → v a ≡ false
unfolding tried
tried-fails v a [] h e = absurd (cc e)
tried-fails v a (f ∷ fs) h e = elim (Text-discrete a f) [
  | yes p ↦ rw p h.0
  | no p ↦ tried-fails v a fs h.1 (ground arith)
]

-- An algorithm that was tried is skipped and fails again.
try_algorithms-any :
    (v : Text → Bool) (as' fs : List Text)
    → All (λ f. v f ≡ false) fs
    → try_algorithms v as' fs ≡ any v as'
unfolding try_algorithms
try_algorithms-any v [] fs h = refl
try_algorithms-any v (a ∷ as') fs h = elim (Bool-cases (tried a fs)) [
  | inl e ↦ ground (arith, tried-fails v a fs h e, try_algorithms-any v as' fs h)
  | inr e ↦ elim (Bool-cases (v a)) [
    | inl p ↦ ground arith
    | inr p ↦ ground (arith, try_algorithms-any v as' (a ∷ fs) (p, h))
  ]
]

module _ {Key : Type 0} (urls : Urls) (resolve_key : Text → Option PublicKey)
    (decode_key : Text → Option Key) (sha256 sha512 : Text) where
  -- A request whose verifier, key and stated algorithm are there is verified exactly if the key
  -- verifies it with the stated algorithm, with RSA_SHA256 or with RSA_SHA512; else it is refused.
  pub verify-any :
      (r : SignedRequest Key) (v : Verifier Key) (id owner : Url) (c x : ℕ) (s stated xs pem : Text)
      (public_key : PublicKey) (key : Key)
      → r.verifier ≡ some v
      → urls.parse_url v.key_id ≡ some id
      → r.signature ≡ c ∷ s
      → find_algorithm (split b',' (c ∷ s)) ≡ ok stated
      → trim b'"' stated ≡ x ∷ xs
      → resolve_key (urls.url_text id) ≡ some public_key
      → public_key.owner ≡ some owner
      → public_key.pem ≡ some pem
      → decode_key pem ≡ some key
      → verify urls resolve_key decode_key sha256 sha512 r ≡ (
          if v.verifies key (x ∷ xs) || (v.verifies key sha256 || (v.verifies key sha512 || false))
          then ok true
          else err other_error)
  unfolding verify
  verify-any r v id owner c x s stated xs pem public_key key h1 h2 h3 h4 h5 h6 h7 h8 h9 =
      ground (arith, try_algorithms-any (v.verifies key) ((x ∷ xs) ∷ sha256 ∷ sha512 ∷ []) [] tt)

  verify-forged :
      (r : SignedRequest Key) (v : Verifier Key)
      → r.verifier ≡ some v
      → ((key : Key) (a : Text) → v.verifies key a ≡ false)
      → verify urls resolve_key decode_key sha256 sha512 r ≢ ok true
  unfolding verify
  verify-forged r v e h p =
      elim (Result-cases (key_and_algorithm urls resolve_key decode_key sha256 sha512 v r)) [
        | inr (f, q) ↦ absurd (ground arith)
        | inl ((key, a), q) ↦ absurd (
            ground (
              arith,
              h key a,
              h key sha256,
              h key sha512,
              try_algorithms-any (v.verifies key) (a ∷ sha256 ∷ sha512 ∷ []) [] tt,
            ))
      ]

  -- Where the request's verifier refuses every key and every algorithm, a worker leaves the state
  -- as it is, whatever the activity and its handler are.
  pub handle-forged :
      {S A : Type 0} (resolve : A → S → S × Result (Unit {0})) (r : SignedRequest Key)
      (v : Verifier Key) (activity : A) (s : S)
      → r.verifier ≡ some v
      → ((key : Key) (a : Text) → v.verifies key a ≡ false)
      → (handle urls resolve_key decode_key sha256 sha512 resolve r activity s).0 ≡ s
  unfolding handle
  handle-forged resolve r v activity s e h =
      elim (verify urls resolve_key decode_key sha256 sha512 r)
          as (λ x.
            x ≢ ok true
            → (after urls resolve_key decode_key sha256 sha512 resolve activity s x).0 ≡ s) [
              | ok true ↦ λ ne. absurd (ne refl)
              | ok false ↦ λ _. refl
              | err panicked ↦ λ _. refl
              | err _ ↦ λ _. refl
            ]
        (verify-forged r v e h)

  -- A signature header that begins with the word "algorithm" and a comma makes the worker panic, if
  -- the verifier is made (from another header) and its key's id is an IRI.
  pub handle-panics :
      {S A : Type 0} (resolve : A → S → S × Result (Unit {0})) (r : SignedRequest Key)
      (v : Verifier Key) (id : Url) (rest : Text) (activity : A) (s : S)
      → r.verifier ≡ some v
      → urls.parse_url v.key_id ≡ some id
      → r.signature ≡ codes "algorithm" ++ (b',' ∷ rest)
      → handle urls resolve_key decode_key sha256 sha512 resolve r activity s ≡ (s, true)
  unfolding handle verify find_algorithm split
  handle-panics resolve r v id rest activity s h1 h2 h3 = ground arith
