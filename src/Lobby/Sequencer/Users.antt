-- ===== src/Lobby/Sequencer/Users.antt =====
-- Over the life of a lobby, a user has at most one session.
use shig.Common.{
  if_neg, subst₂, if_pos, Option-cases, ap, inr, text_key, uuid_key, ◌∙◌, inl, sym, ◌==◌,
  Bool-cases, insert, lookup, Uuid, ◌≡◌, ◌≢◌, refl, false, none, some, [], ◌∷◌, arith, Option,
}
use shig.Sessions.Session.{Session, SessionType, SignalKind, Wait, new_session}
use shig.Sessions.Repository.{Repository, find_by_user}
use shig.Sessions.Repository.Users.{
  IsUnique, IsAbsent, new-IsUnique, delete_by_user-IsUnique, found-id-ne, insert-IsAbsent,
}
use shig.Lobby.Commands.{Command, Kind, OfferKind, Answers, execute, execute_offer}
use shig.Lobby.Commands.Results.{execute-id, execute_offer-id}
use shig.Lobby.Sequencer.{
  Lobby, on_create, on_garbage, handle, handle_offer, run_command, run_offer,
}

-- What the sequencer takes.
pub data Event (C : Type 0) : Type 0 where
  creates : Uuid → Uuid → SessionType → Event C
  leaves : Uuid → Event C
  commands : Kind → SignalKind → Answers C → Command → Event C
  offers : OfferKind → Wait → Command → Event C

module _ {C : Type 0} where
  found-user :
      (u : Uuid) (s : Session C) (r : Repository C) → find_by_user u r ≡ some s → s.user ≡ u
  unfolding find_by_user
  found-user u s [] e = absurd (cc e)
  found-user u s ((k, t) ∷ r) e = ground (arith, found-user u s r)

  found-user-ne :
      (k w u : Uuid) (s : Session C) (r : Repository C)
      → IsAbsent k w r
      → find_by_user u r ≡ some s
      → w ≢ s.user
  unfolding find_by_user
  found-user-ne k w u s [] a e p = cc e
  found-user-ne k w u s ((j, t) ∷ r) a e p = elim (Bool-cases (t.user == u)) [
    | inl hit ↦ ground arith
    | inr miss ↦ found-user-ne k w u s r a.1 (ground arith) p
  ]

  -- A session that is found may be stored anew under its id and user.
  stored-IsUnique :
      (u : Uuid) (s s' : Session C) (r : Repository C)
      → find_by_user u r ≡ some s
      → s'.id ≡ s.id
      → s'.user ≡ s.user
      → IsUnique r
      → IsUnique (insert s'.id s' r)
  unfolding insert find_by_user
  stored-IsUnique u s s' [] e p q h = absurd (cc e)
  stored-IsUnique u s s' ((k, t) ∷ r) e p q h = elim (Bool-cases (t.user == u)) [
    | inl hit ↦
        let same : t ≡ s = ground arith in
        let at : k ≡ s'.id = h.0 ∙ ap (λ (x : Session C). x.id) same ∙ sym p in
        rw (if_pos _ at) (
          refl,
          subst₂ (λ i v. IsAbsent i v r) at (ap (λ (x : Session C). x.user) same ∙ sym q) h.1,
          h.2,
        )
    | inr miss ↦
        let found : find_by_user u r ≡ some s = ground arith in
        let ne : k ≢ s'.id = λ x. found-id-ne k t.user u s r h.1 h.2 found (x ∙ p) in
        rw (if_neg _ ne) (
          h.0,
          insert-IsAbsent k t.user s' r ne (λ x. found-user-ne k t.user u s r h.1 found (x ∙ q))
              h.1,
          stored-IsUnique u s s' r found p q h.2,
        )
  ]

  -- The lobby after an offer; if the program ended, no other follows.
  survived : Lobby C → Option (Lobby C × Command) → Lobby C
  survived l none = l
  survived l (some r) = r.0

  unfoldable pub take_event : Event C → Lobby C → Lobby C
  unfolding on_create on_garbage run_command run_offer survived
  take_event (creates id user session_type) l = (on_create id user session_type l).0
  take_event (leaves user) l = (on_garbage user l).0
  take_event (commands kind k a c) l = (run_command kind k a c l).0
  take_event (offers kind w c) l = survived l (run_offer kind w c l)

  -- The id of a created session is new.
  abbrev pub IsNew : Event C → Lobby C → Type 0
  IsNew (creates id user session_type) l = lookup id l.sessions ≡ none
  IsNew _ l = Unit

  stored :
      (u : Uuid) (s s' : Session C) (r : Repository C)
      → find_by_user u r ≡ some s
      → (s'.id ≡ s.id) × (s'.user ≡ s.user)
      → IsUnique r
      → IsUnique (insert s'.id s' r)
  stored u s s' r q ids h = stored-IsUnique u s s' r q ids.0 ids.1 h

  run_command-IsUnique :
      (kind : Kind) (k : SignalKind) (a : Answers C) (c : Command) (l : Lobby C)
      → IsUnique l.sessions
      → IsUnique (run_command kind k a c l).0.sessions
  unfolding run_command handle
  run_command-IsUnique kind k a c l h = elim (Bool-cases l.done) [
    | inl p ↦ rw (p, run_command) h
    | inr p ↦ elim (Option-cases (find_by_user c.user l.sessions)) [
      | inl q ↦ rw (p, q, run_command, handle) h
      | inr (s, q) ↦
          rw (p, q, run_command, handle)
            (stored c.user s (execute kind k a s c).0 l.sessions q (execute-id kind k a s c) h)
    ]
  ]

  run_offer-IsUnique :
      (kind : OfferKind) (w : Wait) (c : Command) (l : Lobby C)
      → IsUnique l.sessions
      → IsUnique (survived l (run_offer kind w c l)).sessions
  unfolding run_offer handle_offer survived
  run_offer-IsUnique kind w c l h = elim (Bool-cases l.done) [
    | inl p ↦ rw (p, run_offer) h
    | inr p ↦ elim (Option-cases (find_by_user c.user l.sessions)) [
      | inl q ↦ rw (p, q, run_offer, handle_offer) h
      | inr (s, q) ↦ elim (Option-cases (execute_offer kind w s c)) [
        | inl x ↦ rw (p, q, x, run_offer, handle_offer) h
        | inr ((s', c'), x) ↦
            rw (p, q, x, run_offer, handle_offer)
              (stored c.user s s' l.sessions q (execute_offer-id kind w s c s' c' x) h)
      ]
    ]
  ]

  -- Every event of a lobby keeps its sessions unique, by id and by user, if the id that is drawn
  -- for a created session is new to the lobby.
  pub take_event-IsUnique :
      (ev : Event C) (l : Lobby C)
      → IsNew ev l
      → IsUnique l.sessions
      → IsUnique (take_event ev l).sessions
  unfolding take_event on_create on_garbage
  take_event-IsUnique (creates id user session_type) l new_id h = elim (Bool-cases l.done) [
    | inl p ↦ rw (p, on_create) h
    | inr p ↦
        rw (p, on_create)
          (new-IsUnique (new_session false id user session_type) l.sessions
            (unfold new_session in new_id) h)
  ]
  take_event-IsUnique (leaves user) l new_id h = delete_by_user-IsUnique user l.sessions h
  take_event-IsUnique (commands kind k a c) l new_id h = run_command-IsUnique kind k a c l h
  take_event-IsUnique (offers kind w c) l new_id h = run_offer-IsUnique kind w c l h
