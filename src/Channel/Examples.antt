-- ===== src/Channel/Examples.antt =====
-- A coding of messages as texts that keeps the laws of JSON, and one input for each theorem on the
-- data channel.
use mathlib.Core.Option
use shig.Common.{
  subst, if◌then◌else◌, true, false, none, some, [], ◌∷◌, ◌++◌, ◌≡◌, refl, map, ℕ, zero, suc, ◌<◌,
  Text, arith, Option,
}
use shig.Channel.Message.{
  SdpType, offer, answer, pranswer, rollback, SessionDescription, Sdp, Mute, ChannelMsg, Json,
  IsAscii, u32,
}
use shig.Channel.Messenger.{Messenger, send_offer, on_messages, on_answer, count}
use shig.Channel.Client.{Client, new_client}
use shig.Channel.Client
use shig.Channel.Messenger.Delivery.{send_offer-delivered}
use shig.Channel.Negotiation.{negotiation-completes}
use shig.Sessions.Session.{Session, Slot, on_negotiation_needed, new_session}
use shig.Sessions.Session
use shig.Sessions.Examples.{full_session, cam_slot}
use shig.Rtp.Examples.{Slots}

data Value : Type 0 where
  sdp_value : Sdp → Value
  mute_value : Mute → Value

type_code : SdpType → ℕ
type_code offer = 0
type_code answer = 1
type_code pranswer = 2
type_code rollback = 3

type_of : ℕ → SdpType
type_of zero = offer
type_of (suc zero) = answer
type_of (suc (suc zero)) = pranswer
type_of (suc (suc (suc n))) = rollback

encode : Value → Text
unfolding type_code
encode (sdp_value s) = 0 ∷ s.number ∷ type_code s.description.sdp_type ∷ s.description.sdp
encode (mute_value m) = 1 ∷ (if m.mute then 1 else 0) ∷ m.mid

decode : Text → Option Value
unfolding type_of
decode (zero ∷ n ∷ k ∷ sdp) =
    some
      (sdp_value (record { number = n; description = record { sdp_type = type_of k; sdp = sdp } }))
decode (suc zero ∷ zero ∷ mid) = some (mute_value (record { mid = mid; mute = false }))
decode (suc zero ∷ suc n ∷ mid) = some (mute_value (record { mid = mid; mute = true }))
decode _ = none

type_of-type_code : (t : SdpType) → type_of (type_code t) ≡ t
unfolding type_of type_code
type_of-type_code offer = refl
type_of-type_code answer = refl
type_of-type_code pranswer = refl
type_of-type_code rollback = refl

decode-encode : (v : Value) → decode (encode v) ≡ some v
unfolding decode encode
decode-encode (sdp_value s) = ground (arith, type_of-type_code s.description.sdp_type)
decode-encode (mute_value m) = ground arith

marshal : ChannelMsg Value → Option Text
unfolding encode
marshal m = some (m.id ∷ m.msg_type ∷ encode m.content)

unmarshal : Text → Option (ChannelMsg Value)
unfolding decode
unmarshal (id ∷ t ∷ rest) =
    Option.map (λ v. record { id = id; content = v; msg_type = t }) (decode rest)
unmarshal _ = none

unmarshal-marshal :
    (m : ChannelMsg Value) (b : Text) → m.id < u32 → marshal m ≡ some b → unmarshal b ≡ some m
unfolding marshal unmarshal
unmarshal-marshal m b small e =
    let same : m.id ∷ m.msg_type ∷ encode m.content ≡ b = cc e in
    subst (λ (x : Text). unmarshal x ≡ some m) same (ground (arith, decode-encode m.content))

to_sdp : Value → Option Sdp
to_sdp (sdp_value s) = some s
to_sdp (mute_value m) = none

to_mute : Value → Option Mute
to_mute (sdp_value s) = none
to_mute (mute_value m) = some m

to_sdp-sdp_value :
    (s : Sdp) → s.number < u32 → IsAscii s.description.sdp → to_sdp (sdp_value s) ≡ some s
unfolding to_sdp
to_sdp-sdp_value s small ascii = refl

to_mute-mute_value : (m : Mute) → IsAscii m.mid → to_mute (mute_value m) ≡ some m
unfolding to_mute
to_mute-mute_value m ascii = refl

abbrev coding : Json Value
coding = record {
  marshal = marshal;
  unmarshal = unmarshal;
  of_sdp = λ s. sdp_value s;
  to_sdp = to_sdp;
  of_mute = λ m. mute_value m;
  to_mute = to_mute;
  channel_law = unmarshal-marshal;
  sdp_law = to_sdp-sdp_value;
  mute_law = to_mute-mute_value;
}

abbrev offer_sdp : SessionDescription
offer_sdp = record { sdp_type = offer; sdp = 118 ∷ 61 ∷ [] }

abbrev answer_sdp : SessionDescription
answer_sdp = record { sdp_type = answer; sdp = 118 ∷ 61 ∷ [] }

-- The lobby's end is open and has one observer, as has the client's.
abbrev lobby_end : Messenger
lobby_end = record { counter = 0; observers = 40 ∷ []; opened = true; quit = false; sent = [] }

abbrev client_end : Client
client_end = record { observers = 50 ∷ []; quit = false; queue = [] }

abbrev offered : Text
offered = 0 ∷ 1 ∷ 0 ∷ 7 ∷ 0 ∷ 118 ∷ 61 ∷ []

send_offer-delivered_example :
    (b : Text) × ((record lobby_end { sent = offered ∷ [] }).sent ≡ lobby_end.sent ++ (b ∷ []))
    × (Client.on_messages coding false b client_end
        ≡ some (map (λ o. Client.on_offer o offer_sdp 0 7) client_end.observers))
unfolding send_offer count marshal encode type_code
send_offer-delivered_example =
    send_offer-delivered coding offer_sdp 7 (ground arith) (ground arith) 0 lobby_end
      (record lobby_end { sent = offered ∷ [] }) client_end refl (ground arith) refl refl

-- The session has sent the offer 5, which the client answers.
abbrev negotiating : Session Slots
negotiating = record full_session { signal = record full_session.signal { offer_number = 5 } }

abbrev answered : Text
answered = 0 ∷ 2 ∷ 0 ∷ 5 ∷ 1 ∷ 118 ∷ 61 ∷ []

negotiation-completes_example :
    (b : Text) × ((record client_end { queue = answered ∷ [] }).queue
      ≡ client_end.queue ++ (b ∷ []))
    × (on_messages coding false b lobby_end
        ≡ some (map (λ o. on_answer o answer_sdp 5) lobby_end.observers))
    × ((Session.on_answer 5 answer_sdp.sdp negotiating).applied ≡ [] ++ (answer_sdp.sdp ∷ []))
unfolding on_negotiation_needed Client.send_sdp marshal encode type_code new_session
negotiation-completes_example =
    negotiation-completes coding full_session negotiating cam_slot 5 0 answer_sdp lobby_end
      client_end (record client_end { queue = answered ∷ [] }) refl refl refl refl (ground arith)
      refl refl
