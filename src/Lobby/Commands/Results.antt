-- ===== src/Lobby/Commands/Results.antt =====
-- What a command has to tell when it is done.
use shig.Common.{arith, Uuid, Text, ◌≡◌, refl, true, none, some, [], ◌∷◌}
use shig.Sessions.Session.{
  open_ingress, open_egress, offer_ingress, offer_egress, Session, Result, Wait, ok, err,
}
use shig.Lobby.Commands.{
  after_open, create_egress, create_ingress, Answers, SignalKind, new_command, open_egress,
  open_ingress, Kind, open_endpoint, execute, Command, CommandError, session_error, set_error,
  OfferKind, offers_ingress, offers_egress, execute_offer,
}

-- A command that is done is not changed any more.
pub set_error-done : (e : CommandError) (c : Command) → c.done ≡ true → set_error e c ≡ c
unfolding set_error
set_error-done e c h = rw (h, set_error) refl

module _ {C : Type 0} where
  -- The new command with the result of opening an endpoint.
  abbrev pub told : Session C → Uuid → Result Text → Command
  told s user (ok sdp) = record { user = user; errs = []; done = true; response = some (s.id, sdp) }
  told s user (err e) = record {
    user = user;
    errs = session_error e ∷ [];
    done = true;
    response = none;
  }

  open_ingress-id :
      (s : Session C) (k : SignalKind) (a : Answers C)
      → ((open_ingress s k a.engine a.description).0.id ≡ s.id)
        × ((open_ingress s k a.engine a.description).0.user ≡ s.user)
  unfolding open_ingress
  open_ingress-id s k a = ground arith

  open_egress-id :
      (s : Session C) (k : SignalKind) (a : Answers C)
      → ((open_egress s a.wait k a.engine a.description).0.id ≡ s.id)
        × ((open_egress s a.wait k a.engine a.description).0.user ≡ s.user)
  unfolding open_egress
  open_egress-id s k a = ground arith

  -- Opening an endpoint leaves the session's id and user.
  pub open_endpoint-id :
      (kind : Kind) (k : SignalKind) (a : Answers C) (s : Session C)
      → ((open_endpoint kind k a s).0.id ≡ s.id) × ((open_endpoint kind k a s).0.user ≡ s.user)
  unfolding open_endpoint
  open_endpoint-id create_ingress k a s = open_ingress-id s k a
  open_endpoint-id create_egress k a s = open_egress-id s k a

  -- A new create command comes back done, with the id of the session and the description, or with
  -- the session's error.
  pub execute-create :
      (kind : Kind) (k : SignalKind) (a : Answers C) (s : Session C) (user : Uuid)
      → execute kind k a s (new_command user)
        ≡ ((open_endpoint kind k a s).0, told s user (open_endpoint kind k a s).1)
  unfolding execute new_command
  execute-create create_ingress k a s user = ground (arith, open_endpoint-id create_ingress k a s)
  execute-create create_egress k a s user = ground (arith, open_endpoint-id create_egress k a s)

  -- A create command leaves the id and the user of its session.
  pub execute-id :
      (kind : Kind) (k : SignalKind) (a : Answers C) (s : Session C) (c : Command)
      → ((execute kind k a s c).0.id ≡ s.id) × ((execute kind k a s c).0.user ≡ s.user)
  unfolding execute after_open
  execute-id create_ingress k a s c = ground (arith, open_endpoint-id create_ingress k a s)
  execute-id create_egress k a s c = ground (arith, open_endpoint-id create_egress k a s)

  -- So does an offer command that returns.
  pub execute_offer-id :
      (kind : OfferKind) (w : Wait) (s : Session C) (c : Command) (s' : Session C) (c' : Command)
      → execute_offer kind w s c ≡ some (s', c')
      → (s'.id ≡ s.id) × (s'.user ≡ s.user)
  unfolding execute_offer offer_ingress offer_egress
  execute_offer-id offers_ingress w s c s' c' e = ground arith
  execute_offer-id offers_egress w s c s' c' e = ground arith
