-- ===== src/Streams/Service/Ownership.antt =====
-- Who may change a stream.
use shig.Common.{
  ◌↔◌, sym, ap, ◌∙◌, Uuid, Text, Text-discrete, Option, some, Bool, true, false, ◌≡◌, ◌⊎◌, ◌↔◌, inl,
  inr, refl, arith, Option-cases,
}
use shig.Streams.{
  Account, Space, LiveStream, Query, found, not_found, failed, Database, Fault, other_error,
  panicked, Result, ok, err,
}
use shig.Streams.Service.{find_by_uuid_and_space_identifier, delete, create_stream, update_stream}

Query-cases :
    {A : Type 0} (q : Query A) → ((a : A) × (q ≡ found a)) ⊎ ((q ≡ not_found) ⊎ (q ≡ failed))
Query-cases (found a) = inl (a, refl)
Query-cases not_found = inr (inl refl)
Query-cases failed = inr (inr refl)

abbrev pub is_ok : Result Uuid → Bool
is_ok (ok u) = true
is_ok (err e) = false

-- What an answer of the database becomes where the space's account is asked for.
abbrev pub space_fault : Query Space → Fault
space_fault (found s) = panicked
space_fault _ = other_error

module _ {D : Type 0} (db : Database D) (parse : Text → Option Uuid) where
  abbrev pub InSpace : Text → Text → D → LiveStream → Type 0
  InSpace uuid identifier d s =
      (u : Uuid) × (space : Space) × (parse uuid ≡ some u)
      × (db.first_stream u d ≡ found s)
      × (s.space ≡ some space)
      × (space.identifier ≡ identifier)

  find-InSpace_only :
      (uuid identifier : Text) (d : D) (s : LiveStream)
      → find_by_uuid_and_space_identifier db parse uuid identifier d ≡ ok s
      → InSpace uuid identifier d s
  unfolding find_by_uuid_and_space_identifier
  find-InSpace_only uuid identifier d s e = elim (Option-cases (parse uuid)) [
    | inl p ↦ absurd (ground arith)
    | inr (u, p) ↦ elim (Query-cases (db.first_stream u d)) [
      | inr q ↦ absurd (ground arith)
      | inl (s', q) ↦ elim (Option-cases s'.space) [
        | inl n ↦ absurd (ground arith)
        | inr (space, h) ↦ elim (Text-discrete space.identifier identifier) [
          | yes same ↦
              let this : s' ≡ s = ground arith in
              (
                u,
                space,
                p,
                q ∙ ap (λ (x : LiveStream). found x) this,
                sym (ap (λ (x : LiveStream). x.space) this) ∙ h,
                same,
              )
          | no e' ↦ absurd (ground arith)
        ]
      ]
    ]
  ]

  -- A stream is found under a text and a space exactly if the text is a UUID, the database has the
  -- stream under it, and the stream's space is the one that is named.
  pub find-InSpace :
      (uuid identifier : Text) (d : D) (s : LiveStream)
      → (find_by_uuid_and_space_identifier db parse uuid identifier d ≡ ok s)
        ↔ InSpace uuid identifier d s
  unfolding find_by_uuid_and_space_identifier
  find-InSpace uuid identifier d s =
      (find-InSpace_only uuid identifier d s, λ h. let (u, space, p, q, l, e) = h in ground arith)

  -- The user's own stream, with the account that the database has for it.
  abbrev pub OwnStream : Text → Text → D → Type 0
  OwnStream uuid name d =
      (u : Uuid) × (s : LiveStream) × (account : Account) × (parse uuid ≡ some u)
      × (db.first_stream u d ≡ found s)
      × (s.account ≡ some account)
      × (account.user ≡ name)

  -- Only the user whose name the stream's account has can delete it: else nothing changes, and
  -- there is an error.
  pub delete-own :
      (uuid name : Text) (d : D)
      → OwnStream uuid name d
        ⊎ (((delete db parse uuid name d).0 ≡ d) × (is_ok (delete db parse uuid name d).1 ≡ false))
  unfolding delete
  delete-own uuid name d = elim (Option-cases (parse uuid)) [
    | inl p ↦ inr (ground arith)
    | inr (u, p) ↦ elim (Query-cases (db.first_stream u d)) [
      | inr q ↦ inr (ground arith)
      | inl (s, q) ↦ elim (Option-cases s.account) [
        | inl n ↦ inr (ground arith)
        | inr (account, h) ↦ elim (Text-discrete account.user name) [
          | yes e ↦ inl (u, s, account, p, q, h, e)
          | no e ↦ inr (ground arith)
        ]
      ]
    ]
  ]

  -- Nobody can create or update a stream: the space is read without its account, whose user is
  -- then asked for.
  pub create-update-fail :
      (fresh : Uuid) (s : LiveStream) (identifier name : Text) (d : D)
      → (create_stream db parse fresh s identifier name d
          ≡ (d, err (space_fault (db.first_space identifier d))))
        × (update_stream db parse s identifier name d
            ≡ (d, err (space_fault (db.first_space identifier d))))
  unfolding create_stream update_stream
  create-update-fail fresh s identifier name d = elim (Query-cases (db.first_space identifier d)) [
    | inl (space, q) ↦ let bare = db.space_bare identifier d space q in (ground arith, ground arith)
    | inr (inl q) ↦ (ground arith, ground arith)
    | inr (inr q) ↦ (ground arith, ground arith)
  ]
