-- ===== src/Channel/Negotiation.antt =====
-- A renegotiation over the data channel, from the session's offer to the answer that it takes.
use shig.Common.{◌≡◌, true, false, some, [], ◌∷◌, ◌++◌, map, ℕ, ◌<◌, Text, arith}
use shig.Channel.Message.{SessionDescription, Json, IsAscii, u32, answer}
use shig.Channel.Messenger.{Messenger, on_messages, on_answer}
use shig.Channel.Client.{Client}
use shig.Channel.Client
use shig.Sessions.Session.{Session, Slot, on_negotiation_needed}
use shig.Sessions.Session
use shig.Channel.Messenger.Delivery.{send_sdp-answers}
use shig.Sessions.Session.Offers.{on_answer-applies}

module _ {V C : Type 0} (json : Json V) where
  -- A session that has an offerer and an egress endpoint sends an offer, and a client that has not
  -- quit answers it under the offer's number, with an ASCII description, before the session sends
  -- another. Then the answer calls OnAnswer of the lobby's observers with that number and
  -- description, and OnAnswer with them hands the description to the egress endpoint's connection,
  -- after all that was handed to it before.
  pub negotiation-completes :
      (s s' : Session C) (slot : Slot C) (n i : ℕ) (d : SessionDescription) (m : Messenger)
      (c c' : Client)
      → on_negotiation_needed s ≡ some (s', n)
      → s.signal.has_offerer ≡ true
      → s.egress ≡ some slot
      → d.sdp_type ≡ answer
      → IsAscii d.sdp
      → c.quit ≡ false
      → Client.send_sdp json d 0 n c ≡ (c', i, true)
      → (b : Text) × (c'.queue ≡ c.queue ++ (b ∷ []))
        × (on_messages json false b m ≡ some (map (λ o. on_answer o d n) m.observers))
        × ((Session.on_answer n d.sdp s').applied ≡ s.applied ++ (d.sdp ∷ []))
  unfolding on_negotiation_needed
  negotiation-completes s s' slot n i d m c c' e off eg t ascii q sent =
      let fits : n < u32 = ground arith in
      let (b, put, calls) =
        send_sdp-answers json d n fits ascii 0 i m c c' t (ground arith) q sent in
      let applies = on_answer-applies d.sdp s' slot (ground arith) (ground arith) in
      (b, put, calls, ground arith)
