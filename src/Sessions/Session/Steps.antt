-- ===== src/Sessions/Session/Steps.antt =====
-- What can happen to a session, in any order, and what holds throughout.
use shig.Common.{
  refl, subst, ◌≢◌, ap, false, Uuid, is_some, ℕ, ◌≡◌, Text, Bool, true, Option, none, some, arith,
}
use shig.Rtp.Track.{TrackSdpInfo, TrackInfo, ingress, egress}
use shig.Rtp.Endpoint.{Peer, Endpoint}
use shig.Sessions.Session.Opening.{open_egress-ok}
use shig.Sessions.Session.{
  ok, open_egress, SessionType, new_session, silent, Session, Slot, SignalKind, Wait, Description,
  messenger_ready, messenger_session_closed, session_closed, begin_ingress, finish_ingress,
  begin_egress, finish_egress, on_channel, on_negotiation_needed, on_answer, add_track,
  remove_track, mute_track, on_mute_track,
}

-- What the `select`s can take: the messenger's channel has arrived, or the context is done.
abbrev pub MayWait : {C : Type 0} → Session C → Wait → Type 0
MayWait s messenger_ready = s.signal.received_messenger ≡ true
MayWait s messenger_session_closed = s.done ≡ true
MayWait s session_closed = s.done ≡ true
MayWait s _ = Unit

module _ {C : Type 0} (pc : Peer C) where
  -- `kinds` says with which signal channel an ingress endpoint may be opened.
  pub data Step (kinds : SignalKind → Type 0) : Session C → Session C → Type 0 where
    ingress_begins : (s : Session C) → s.opening ≡ none → Step kinds s (begin_ingress s).0
    ingress_ends :
        (s : Session C) (k : SignalKind) (engine : Option (Endpoint C)) (d : Description)
        → s.opening ≡ some ingress
        → kinds k
        → Step kinds s (finish_ingress s k engine d).0
    egress_begins : (s : Session C) → s.opening ≡ none → Step kinds s (begin_egress s).0
    egress_ends :
        (s : Session C) (w : Wait) (k : SignalKind) (engine : Option (Endpoint C)) (d : Description)
        → s.opening ≡ some egress
        → MayWait s w
        → Step kinds s (finish_egress s w k engine d).0
    ingress_channel :
        (s : Session C) (slot : Slot C)
        → s.ingress ≡ some slot
        → Step kinds s (on_channel slot.channel s)
    egress_channel :
        (s : Session C) (slot : Slot C)
        → s.egress ≡ some slot
        → Step kinds s (on_channel slot.channel s)
    negotiates :
        (s s' : Session C) (n : ℕ) → on_negotiation_needed s ≡ some (s', n) → Step kinds s s'
    answers : (s : Session C) (n : ℕ) (sdp : Text) → Step kinds s (on_answer n sdp s)
    adds : (s : Session C) (info : TrackInfo) → Step kinds s (add_track pc s info)
    removes : (s : Session C) (info : TrackInfo) → Step kinds s (remove_track pc s info)
    mutes : (s : Session C) (info : TrackInfo) → Step kinds s (mute_track s info)
    client_mutes :
        (s : Session C) (mid : Text) (mute : Bool) (r : Session C × Option TrackSdpInfo)
        → on_mute_track s mid mute ≡ some r
        → Step kinds s r.0
    stops : (s : Session C) → Step kinds s (record s { done = true })

  pub data Reach (kinds : SignalKind → Type 0) (s : Session C) : Session C → Type 0 where
    here : Reach kinds s s
    next : {t u : Session C} → Reach kinds s t → Step kinds t u → Reach kinds s u

  -- An egress endpoint needs an ingress endpoint and the messenger, and is the signal's offerer.
  pub record IsConnected (s : Session C) : Type 0 where
    pub needs_ingress : is_some s.egress ≡ true → is_some s.ingress ≡ true
    pub needs_messenger : is_some s.egress ≡ true → s.signal.has_messenger ≡ true
    pub offers : s.signal.has_offerer ≡ is_some s.egress
    pub received : s.signal.received_messenger ≡ s.signal.has_messenger

  Step-IsConnected :
      {kinds : SignalKind → Type 0} {s t : Session C}
      → Step kinds s t
      → IsConnected s
      → IsConnected t
  unfolding begin_ingress finish_ingress begin_egress finish_egress on_channel on_negotiation_needed
      on_answer add_track remove_track mute_track on_mute_track
  Step-IsConnected (ingress_begins s o) h = ground arith
  Step-IsConnected (ingress_ends s k engine d o p) h = ground arith
  Step-IsConnected (egress_begins s o) h = ground arith
  Step-IsConnected (egress_ends s messenger_ready k engine d o p) h = ground arith
  Step-IsConnected (egress_ends s w k engine d o p) h = ground arith
  Step-IsConnected (ingress_channel s slot p) h = ground arith
  Step-IsConnected (egress_channel s slot p) h = ground arith
  Step-IsConnected (negotiates s s' n p) h = ground arith
  Step-IsConnected (answers s n sdp) h = ground arith
  Step-IsConnected (adds s info) h = ground arith
  Step-IsConnected (removes s info) h = ground arith
  Step-IsConnected (mutes s info) h = ground arith
  Step-IsConnected (client_mutes s mid mute r p) h = ground arith
  Step-IsConnected (stops s) h = ground arith

  pub new_session-IsConnected :
      (lobby_done : Bool) (id user : Uuid) (session_type : SessionType)
      → IsConnected (new_session lobby_done id user session_type)
  unfolding new_session
  new_session-IsConnected lobby_done id user session_type = ground arith

  -- In whichever order the calls and callbacks come, a session goes on as follows, if it was so
  -- before: an egress endpoint is there only with an ingress endpoint and the messenger, the signal
  -- has an offerer exactly if there is an egress endpoint, and the wait for the messenger has ended
  -- exactly if the messenger is there.
  pub Reach-IsConnected :
      {kinds : SignalKind → Type 0} {s t : Session C}
      → Reach kinds s t
      → IsConnected s
      → IsConnected t
  Reach-IsConnected here h = h
  Reach-IsConnected (next r st) h = Step-IsConnected st (Reach-IsConnected r h)

  -- Whatever happened to a new session, if it has an egress endpoint, then a negotiation does not
  -- meet a missing messenger.
  pub negotiation-returns :
      {kinds : SignalKind → Type 0} {t : Session C} (lobby_done : Bool) (id user : Uuid)
      (session_type : SessionType)
      → Reach kinds (new_session lobby_done id user session_type) t
      → is_some t.egress ≡ true
      → is_some (on_negotiation_needed t) ≡ true
  unfolding on_negotiation_needed
  negotiation-returns lobby_done id user session_type r e =
      let v = Reach-IsConnected r (new_session-IsConnected lobby_done id user session_type) in
      ground (arith, v.needs_messenger e)

  -- The channel of an endpoint, where there is one.
  abbrev pub channel_of : Option (Slot C) → SignalKind
  channel_of none = silent
  channel_of (some slot) = slot.channel

  -- A session whose ingress endpoint was opened with the silent channel waits for a messenger that
  -- no one sends.
  pub record IsSilent (s : Session C) : Type 0 where
    pub quiet : channel_of s.ingress ≡ silent
    pub no_egress : s.egress ≡ none
    pub not_received : s.signal.received_messenger ≡ false

  Step-IsSilent : {s t : Session C} → Step (λ k. k ≡ silent) s t → IsSilent s → IsSilent t
  unfolding begin_ingress finish_ingress begin_egress finish_egress on_channel on_negotiation_needed
      on_answer add_track remove_track mute_track on_mute_track
  Step-IsSilent (ingress_begins s o) h = ground arith
  Step-IsSilent (ingress_ends s k engine d o p) h = ground arith
  Step-IsSilent (egress_begins s o) h = ground arith
  Step-IsSilent (egress_ends s messenger_ready k engine d o p) h = ground arith
  Step-IsSilent (egress_ends s w k engine d o p) h = ground arith
  Step-IsSilent (ingress_channel s slot p) h = ground (arith, ap channel_of p)
  Step-IsSilent (egress_channel s slot p) h = absurd (cc h.no_egress)
  Step-IsSilent (negotiates s s' n p) h = ground arith
  Step-IsSilent (answers s n sdp) h = ground arith
  Step-IsSilent (adds s info) h = ground arith
  Step-IsSilent (removes s info) h = ground arith
  Step-IsSilent (mutes s info) h = ground arith
  Step-IsSilent (client_mutes s mid mute r p) h = ground arith
  Step-IsSilent (stops s) h = ground arith

  Reach-IsSilent : {s t : Session C} → Reach (λ k. k ≡ silent) s t → IsSilent s → IsSilent t
  Reach-IsSilent here h = h
  Reach-IsSilent (next r st) h = Step-IsSilent st (Reach-IsSilent r h)

  -- In a new session whose ingress endpoints are opened with the silent channel only, as the lobby
  -- manager opens them, there is never an egress endpoint, and opening one fails however the wait
  -- for the signal channel may end in the session's state.
  pub silent-no_egress :
      {t : Session C} (lobby_done : Bool) (id user : Uuid) (session_type : SessionType) (w : Wait)
      (kind : SignalKind) (engine : Option (Endpoint C)) (d : Description) (sdp : Text)
      → Reach (λ k. k ≡ silent) (new_session lobby_done id user session_type) t
      → MayWait t w
      → (t.egress ≡ none) × ((open_egress t w kind engine d).1 ≢ ok sdp)
  unfolding new_session
  silent-no_egress {t} lobby_done id user session_type w kind engine d sdp r may =
      let v = Reach-IsSilent r (record { quiet = refl; no_egress = refl; not_received = refl }) in
      (
        v.no_egress,
        λ e.
            let ready : MayWait t messenger_ready =
              subst (MayWait t) ((open_egress-ok t kind w engine d sdp).0 e).3 may in
            cc (ready, v.not_received),
      )
