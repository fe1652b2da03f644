-- ===== src/Lobby/Commands.antt =====
-- internal/lobby/commands: what runs on a session, and how a command is completed. The
-- answers of the engine and of the wait for the signal channel are arguments (`Answers`). An offer
-- command panics before it reaches the remote host, so what it does after is not modelled.
pub mod Results
use shig.Common.{
  if◌then◌else◌, Uuid, Text, Bool, true, false, Option, none, some, List, [], ◌∷◌, ◌++◌,
}
use shig.Rtp.Endpoint.{Endpoint}
use shig.Sessions.Session.{
  Session, SignalKind, Wait, Description, Error, Result, ok, err, open_ingress, open_egress,
  offer_ingress, offer_egress,
}

pub data CommandError : Type 0 where
  session_error : Error → CommandError
  no_session lobby_closed remote_host_failed : CommandError

-- `errs` is the chain of wrapped errors, outermost first; empty for nil.
pub record Command : Type 0 where
  pub user : Uuid
  pub errs : List CommandError
  pub done : Bool
  pub response : Option (Uuid × Text)

unfoldable pub new_command : Uuid → Command
new_command user = record { user = user; errs = []; done = false; response = none }

-- SetDone closes the channel once.
unfoldable pub set_done : Command → Command
set_done c = if c.done then c else record c { done = true }

unfoldable pub set_error : CommandError → Command → Command
unfolding set_done
set_error e c = if c.done then c else set_done (record c { errs = c.errs ++ (e ∷ []) })

-- CreateIngress and CreateEgress
pub data Kind : Type 0 where
  create_ingress create_egress : Kind

-- OfferIngress and OfferEgress
pub data OfferKind : Type 0 where
  offers_ingress offers_egress : OfferKind

pub record Answers (C : Type 0) : Type 0 where
  pub engine : Option (Endpoint C)
  pub wait : Wait
  pub description : Description

module _ {C : Type 0} where
  -- The session's part of a command.
  unfoldable pub open_endpoint : Kind → SignalKind → Answers C → Session C → Session C × Result Text
  open_endpoint create_ingress k a s = open_ingress s k a.engine a.description
  open_endpoint create_egress k a s = open_egress s a.wait k a.engine a.description

  unfoldable pub after_open : Command → Session C × Result Text → Session C × Command
  unfolding set_error set_done
  after_open c (s, err e) = (s, set_error (session_error e) c)
  after_open c (s, ok sdp) = (s, set_done (record c { response = some (s.id, sdp) }))

  -- Execute of the create commands
  unfoldable pub execute : Kind → SignalKind → Answers C → Session C → Command → Session C × Command
  unfolding open_endpoint after_open
  execute kind k a s c = after_open c (open_endpoint kind k a s)

  unfoldable pub offer_endpoint : OfferKind → Wait → Session C → Option (Session C × Error)
  offer_endpoint offers_ingress w s = offer_ingress s
  offer_endpoint offers_egress w s = offer_egress s w

  -- Execute of the offer commands; `none` is the session's panic.
  unfoldable pub execute_offer :
      OfferKind → Wait → Session C → Command → Option (Session C × Command)
  unfolding offer_endpoint set_error
  execute_offer kind w s c = elim (offer_endpoint kind w s) [
    | none ↦ none
    | some (s', e) ↦ some (s', set_error (session_error e) c)
  ]
