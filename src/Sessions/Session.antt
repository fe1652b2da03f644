-- ===== src/Sessions/Session.antt =====
-- internal/lobby/sessions/session.go, signal.go, signal_builder.go, session_type.go.
-- The session's mutex is held while an endpoint is opened: `opening` says of which kind it is. The
-- calls have two parts, up to their guards and from the end of the waiting on, since the signal
-- channel may arrive in between.
-- `done` is the session's context. What the engine, pion and the clock answer is an argument of the
-- call: `none` for an error of the engine, `Wait` and `Description` for what a `select` took.
-- Spans and logs are not modelled.
pub mod Opening
pub mod Steps
pub mod Offers
use shig.Common.{
  ◌==◌, ◌&&◌, if◌then◌else◌, ℕ, ◌+◌, ◌%◌, ◌^◌, Uuid, Text, Bool, true, false, Option, none, some,
  List, [], ◌∷◌, ◌++◌,
}
use shig.Rtp.Track.{TrackSdpInfo, TrackInfo, EndpointType, ingress, egress}
use shig.Rtp.Endpoint.{Peer, Endpoint}
use shig.Rtp.Endpoint

pub data SessionType : Type 0 where
  user_session instance_session remote_instance_session : SessionType

pub data SignalKind : Type 0 where
  silent unidirectional bidirectional : SignalKind

pub data Error : Type 0 where
  already_closed ingress_exists egress_exists no_signal_channel : Error
  messenger_failed waiting_timeout : Error
  engine_failed description_failed : Error

pub data Result {ℓ} (A : Type ℓ) : Type ℓ where
  ok : A → Result A
  err : Error → Result A

-- An endpoint with the data channel callback that it was opened with.
pub record Slot (C : Type 0) : Type 0 where
  pub endpoint : Endpoint C
  pub open endpoint use {init_complete as is_complete}
  pub channel : SignalKind

-- The offerer, where there is one, is the session's egress endpoint. The answerer is never set.
pub record Signal : Type 0 where
  pub has_offerer : Bool
  pub has_messenger : Bool
  pub offer_number : ℕ
  pub received_messenger : Bool

-- `sent` are the mute messages to the client, and `applied` the descriptions that were handed to
-- SetRemoteDescription of the egress endpoint's connection, in their order.
pub record Session (C : Type 0) : Type 0 where
  pub id : Uuid
  pub user : Uuid
  pub session_type : SessionType
  pub done : Bool
  pub opening : Option EndpointType
  pub ingress : Option (Slot C)
  pub egress : Option (Slot C)
  pub signal : Signal
  pub sent : List (Text × Bool)
  pub applied : List Text

pub new_signal : Signal
new_signal = record {
  has_offerer = false;
  has_messenger = false;
  offer_number = 0;
  received_messenger = false;
}

-- The id is what `uuid.New` returned; `lobby_done` is the parent context.
unfoldable pub new_session : {C : Type 0} → Bool → Uuid → Uuid → SessionType → Session C
unfolding new_signal
new_session lobby_done id user session_type = record {
  id = id;
  user = user;
  session_type = session_type;
  done = lobby_done;
  opening = none;
  ingress = none;
  egress = none;
  signal = new_signal;
  sent = [];
  applied = [];
}

-- Which case the `select` of waitForSignalChannel took, and for the messenger's channel, what the
-- goroutine of waitForMessengerSetupFinished sent or that it closed it.
pub data Wait : Type 0 where
  messenger_ready messenger_session_closed messenger_timeout : Wait
  session_closed timeout : Wait

-- Which case the `select` of GetLocalDescription took.
pub data Description : Type 0 where
  described : Text → Description
  closed interrupted : Description

unfoldable pub wait_result : Wait → Result (Unit {0})
wait_result messenger_ready = ok tt
wait_result messenger_session_closed = err messenger_failed
wait_result messenger_timeout = err messenger_failed
wait_result session_closed = err already_closed
wait_result timeout = err waiting_timeout

description_result : Description → Result Text
description_result (described sdp) = ok sdp
description_result closed = err description_failed
description_result interrupted = err description_failed

-- setOfferer
unfoldable pub set_offerer : Signal → Signal
set_offerer g = record g { has_offerer = true; offer_number = 0 }

-- The message to the client, sent if the endpoint knew the track. (A session with an egress endpoint
-- has a messenger, which is proved in Session/Steps.)
sent_mute : List (Text × Bool) → Option TrackSdpInfo → List (Text × Bool)
sent_mute log none = log
sent_mute log (some i) = log ++ ((i.egress_mid, i.mute) ∷ [])

module _ {C : Type 0} where
  unfoldable pub wait_for_signal_channel : Session C → Wait → Result (Unit {0})
  unfolding wait_result
  wait_for_signal_channel s w = elim s.ingress [
    | none ↦ err no_signal_channel
    | some _ ↦ wait_result w
  ]

  -- CreateIngressEndpoint and OfferIngressEndpoint up to the engine's call: the error of a guard,
  -- or the session with its mutex held.
  unfoldable pub begin_ingress : Session C → Session C × Option Error
  begin_ingress s = if s.done then (s, some already_closed) else (elim s.ingress [
    | some _ ↦ (s, some ingress_exists)
    | none ↦ (record s { opening = some ingress }, none)
  ])

  -- The rest of CreateIngressEndpoint, and the mutex is released. EstablishEndpoint returns an
  -- endpoint or an error.
  unfoldable pub finish_ingress :
      Session C → SignalKind → Option (Endpoint C) → Description → Session C × Result Text
  unfolding description_result
  finish_ingress s kind none d = (record s { opening = none }, err engine_failed)
  finish_ingress s kind (some e) d = (
    record s { opening = none; ingress = some (record { endpoint = e; channel = kind }) },
    description_result d,
  )

  -- CreateEgressEndpoint and OfferEgressEndpoint up to the wait for the signal channel.
  unfoldable pub begin_egress : Session C → Session C × Option Error
  begin_egress s = if s.done then (s, some already_closed) else (elim s.egress [
    | some _ ↦ (s, some egress_exists)
    | none ↦ (record s { opening = some egress }, none)
  ])

  opened_egress :
      Session C → SignalKind → Option (Endpoint C) → Description → Session C × Result Text
  unfolding description_result set_offerer
  opened_egress s kind none d = (record s { opening = none }, err engine_failed)
  opened_egress s kind (some e) d = (
    record s {
      opening = none;
      egress = some (record { endpoint = e; channel = kind });
      signal = set_offerer s.signal;
    },
    description_result d,
  )

  unfoldable pub finish_egress :
      Session C → Wait → SignalKind → Option (Endpoint C) → Description → Session C × Result Text
  unfolding wait_for_signal_channel opened_egress
  finish_egress s w kind engine d = elim (wait_for_signal_channel s w) [
    | err x ↦ (record s { opening = none }, err x)
    | ok _ ↦ opened_egress s kind engine d
  ]

  -- OfferIngressEndpoint and OfferEgressEndpoint: after the guards, Engine.OfferEndpoint returns
  -- neither an endpoint nor an error, and GetLocalDescription panics on the nil endpoint, which is
  -- `none`.
  unfoldable pub offer_ingress : Session C → Option (Session C × Error)
  unfolding begin_ingress
  offer_ingress s =
      let (s', guard) = begin_ingress s in elim guard [ some x ↦ some (s', x) | none ↦ none ]

  unfoldable pub offer_egress : Session C → Wait → Option (Session C × Error)
  unfolding begin_egress wait_for_signal_channel
  offer_egress s w =
      let (s', guard) = begin_egress s in
      elim guard [
        | some x ↦ some (s', x)
        | none ↦ elim (wait_for_signal_channel s' w) [
          | err x ↦ some (record s' { opening = none }, x)
          | ok _ ↦ none
        ]
      ]

  -- CreateIngressEndpoint and CreateEgressEndpoint, if nothing else happens to the session during
  -- the call.
  unfoldable pub open_ingress :
      Session C → SignalKind → Option (Endpoint C) → Description → Session C × Result Text
  unfolding begin_ingress finish_ingress
  open_ingress s kind engine d =
      let (s', guard) = begin_ingress s in
      elim guard [ some x ↦ (s', err x) | none ↦ finish_ingress s' kind engine d ]

  unfoldable pub open_egress :
      Session C → Wait → SignalKind → Option (Endpoint C) → Description → Session C × Result Text
  unfolding begin_egress finish_egress
  open_egress s w kind engine d =
      let (s', guard) = begin_egress s in
      elim guard [ some x ↦ (s', err x) | none ↦ finish_egress s' w kind engine d ]

  -- buildSignalDataChannelCbk: OnSilentChannel does nothing, OnSenderChannel sets the messenger and
  -- ends the waiting for it.
  unfoldable pub on_channel : SignalKind → Session C → Session C
  on_channel silent s = s
  on_channel _ s = record s {
    signal = record s.signal { has_messenger = true; received_messenger = true };
  }

  -- OnNegotiationNeeded sends the offer under the next number; without a messenger it panics.
  unfoldable pub on_negotiation_needed : Session C → Option (Session C × ℕ)
  on_negotiation_needed s =
      let n = (s.signal.offer_number + 1) % 2 ^ 32 in
      if s.signal.has_messenger
      then some (record s { signal = record s.signal { offer_number = n } }, n)
      else none

  -- SetAnswer hands the description to the connection, and SetInitComplete follows, even after an
  -- error.
  answered : Text → Session C → Option (Slot C) → Session C
  answered sdp s none = s
  answered sdp s (some slot) = record s {
    applied = s.applied ++ (sdp ∷ []);
    egress = some (record slot { endpoint = Endpoint.set_init_complete s.done slot.endpoint });
  }

  -- OnAnswer
  unfoldable pub on_answer : ℕ → Text → Session C → Session C
  unfolding answered
  on_answer number sdp s =
      if s.signal.has_offerer && s.signal.offer_number == number then answered sdp s s.egress else s

  -- initComplete; TryRLock fails while an endpoint is opened.
  unfoldable pub init_complete : Bool → Session C → Bool
  init_complete closed_wins s = elim s.opening [
    | some _ ↦ false
    | none ↦ elim s.egress [
      | none ↦ false
      | some slot ↦ Endpoint.is_init_complete s.done closed_wins slot.endpoint
    ]
  ]

  on_egress : (Endpoint C → Endpoint C) → Session C → Option (Slot C) → Session C
  on_egress f s none = s
  on_egress f s (some slot) = record s {
    egress = some (record slot { endpoint = f slot.endpoint });
  }

  unfoldable pub add_track : Peer C → Session C → TrackInfo → Session C
  unfolding on_egress
  add_track pc s info = on_egress (λ e. Endpoint.add_track pc e info) s s.egress

  unfoldable pub remove_track : Peer C → Session C → TrackInfo → Session C
  unfolding on_egress
  remove_track pc s info = on_egress (λ e. Endpoint.remove_track pc e info) s s.egress

  unfoldable pub mute_track : Session C → TrackInfo → Session C
  unfolding sent_mute
  mute_track s info = elim s.egress [
    | none ↦ s
    | some slot ↦
        let (e, found) = Endpoint.set_egress_mute slot.endpoint info.id info.mute in
        record s { egress = some (record slot { endpoint = e }); sent = sent_mute s.sent found }
  ]

  -- onMuteTrack: the description that goes to the hub, if there is one. Without an ingress endpoint
  -- it panics, which is `none`.
  unfoldable pub on_mute_track : Session C → Text → Bool → Option (Session C × Option TrackSdpInfo)
  on_mute_track s mid mute = elim s.ingress [
    | none ↦ none
    | some slot ↦
        let (e, found) = Endpoint.set_ingress_mute slot.endpoint mid mute in
        some (record s { ingress = some (record slot { endpoint = e }) }, found)
  ]
