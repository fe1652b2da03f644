-- ===== src/Lobby/Sequencer/Replies.antt =====
-- What a caller of the lobby hears.
use shig.Common.{
  inr, inl, ◌↔◌, is_some, Option-cases, if◌then◌else◌, Uuid, ◌≡◌, true, false, none, some, [], ◌∷◌,
  arith,
}
use shig.Sessions.Session.{
  Session, SignalKind, Wait, messenger_ready, wait_result, offer_ingress, offer_egress,
}
use shig.Sessions.Repository.{find_by_user}
use shig.Lobby.Commands.{
  Command, Kind, OfferKind, offers_ingress, offers_egress, Answers, new_command, no_session,
  lobby_closed, set_error, open_endpoint, offer_endpoint, execute_offer,
}
use shig.Lobby.Commands.Results.{told, execute-create}
use shig.Lobby.Sequencer.{Lobby, handle, handle_offer, run_command, run_offer}

abbrev pub closed_reply : Uuid → Command
closed_reply user = record { user = user; errs = lobby_closed ∷ []; done = true; response = none }

abbrev missing_reply : Uuid → Command
missing_reply user = record { user = user; errs = no_session ∷ []; done = true; response = none }

module _ {C : Type 0} where
  -- The command of a user in a lobby, as it should be told: that the lobby is closed, that the user
  -- has no session, or what opening the endpoint of the user's session gave.
  abbrev pub expected_reply : Kind → SignalKind → Answers C → Uuid → Lobby C → Command
  expected_reply kind k a user l =
      if l.done then closed_reply user else (elim (find_by_user user l.sessions) [
        | none ↦ missing_reply user
        | some s ↦ told s user (open_endpoint kind k a s).1
      ])

  -- A create command to a lobby comes back done. It tells that the lobby is
  -- closed, or that the user has no session, or else the result of opening the endpoint of the
  -- user's session: the error "no session" that handle sets after every execution does not spoil it.
  pub run_command-replies :
      (kind : Kind) (k : SignalKind) (a : Answers C) (user : Uuid) (l : Lobby C)
      → (run_command kind k a (new_command user) l).1 ≡ expected_reply kind k a user l
  unfolding run_command new_command handle set_error
  run_command-replies kind k a user l = elim (Option-cases (find_by_user user l.sessions)) [
    | inl q ↦ ground arith
    | inr (s, q) ↦ ground (arith, execute-create kind k a s user)
  ]

  -- When an offer gets past the session's guards.
  abbrev pub MayOffer : OfferKind → Wait → Session C → Type 0
  MayOffer offers_ingress w s = (s.done ≡ false) × (s.ingress ≡ none)
  MayOffer offers_egress w s =
      (s.done ≡ false) × (s.egress ≡ none) × (is_some s.ingress ≡ true) × (w ≡ messenger_ready)

  offer_endpoint-panics :
      (kind : OfferKind) (w : Wait) (s : Session C)
      → (offer_endpoint kind w s ≡ none) ↔ MayOffer kind w s
  unfolding offer_endpoint offer_ingress offer_egress wait_result
  offer_endpoint-panics offers_ingress w s = (λ h. ground arith, λ h. ground arith)
  offer_endpoint-panics offers_egress w s = (λ h. ground arith, λ h. ground arith)

  -- An offer command ends the program exactly if the lobby is open, the user has a session in it
  -- that is open and has no endpoint of the kind, and, for an egress endpoint, the session has an
  -- ingress endpoint and its wait for the signal channel ends with the messenger.
  pub run_offer-panics :
      (kind : OfferKind) (w : Wait) (c : Command) (l : Lobby C)
      → (run_offer kind w c l ≡ none) ↔ (
          (l.done ≡ false)
          × (s : Session C) × (find_by_user c.user l.sessions ≡ some s)
          × MayOffer kind w s)
  unfolding run_offer handle_offer execute_offer
  run_offer-panics kind w c l = elim (Option-cases (find_by_user c.user l.sessions)) [
    | inl q ↦ (λ h. ground arith, λ h. ground arith)
    | inr (s, q) ↦ (
      λ h. (ground arith, s, q, (offer_endpoint-panics kind w s).0 (ground arith)),
      λ (p, s', q', m).
          let panics : offer_endpoint kind w s' ≡ none = (offer_endpoint-panics kind w s').1 m in
          ground arith,
    )
  ]
