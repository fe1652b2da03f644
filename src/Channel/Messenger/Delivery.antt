-- ===== src/Channel/Messenger/Delivery.antt =====
-- What arrives at the other end of the data channel.
use shig.Common.{
  ◌==◌, inr, inl, ◌≡◌, ◌≢◌, ◌↔◌, ◌⊎◌, refl, true, false, none, some, [], ◌∷◌, ◌++◌, map, ℕ, ◌<◌,
  Text, arith, Option-cases, Bool-cases,
}
use shig.Channel.Message.{
  SessionDescription, ChannelMsg, Json, IsAscii, u32, offer, answer, answer_msg, offer_msg,
}
use shig.Channel.Messenger.{
  notify_all, Messenger, send_sdp, send_offer, count, on_messages, msg_type_of, on_answer,
}
use shig.Channel.Client.{Client}
use shig.Channel.Client

module _ {V : Type 0} (json : Json V) (d : SessionDescription) (number : ℕ) where
  abbrev sdp_msg : ℕ → ChannelMsg V
  sdp_msg id = record {
    id = id;
    content = json.of_sdp (record { number = number; description = d });
    msg_type = msg_type_of d.sdp_type;
  }

  -- A message that was sent has been marshalled and put at the end of what was sent.
  send_sdp-sent :
      (id i : ℕ) (m m' : Messenger)
      → m.quit ≡ false
      → send_sdp json d id number m ≡ some (m', i, true)
      → (b : Text) × (json.marshal (sdp_msg id) ≡ some b)
        × (m'.sent ≡ m.sent ++ (b ∷ []))
        × (m'.observers ≡ m.observers)
        × (i ≡ id)
  unfolding send_sdp
  send_sdp-sent id i m m' q e = elim (Option-cases (json.marshal (sdp_msg id))) [
    | inl p ↦ absurd (ground arith)
    | inr (b, p) ↦ (b, p, ground arith, ground arith, ground arith)
  ]

  put_sdp-sent :
      (id i : ℕ) (c c' : Client)
      → c.quit ≡ false
      → Client.send_sdp json d id number c ≡ (c', i, true)
      → (b : Text) × (json.marshal (sdp_msg id) ≡ some b) × (c'.queue ≡ c.queue ++ (b ∷ []))
  unfolding Client.send_sdp
  put_sdp-sent id i c c' q e = elim (Option-cases (json.marshal (sdp_msg id))) [
    | inl p ↦ absurd (ground arith)
    | inr (b, p) ↦ (b, p, ground arith)
  ]

  module _ (fits : number < u32) (ascii : IsAscii d.sdp) where
    -- If the offer number and the message's id fit in 32 bits and the SDP is ASCII, then an offer
    -- that the lobby has sent, on a messenger that is not closed, calls OnOffer once for each of
    -- the client's observers, with the same description, the message's id and the same number.
    pub send_offer-delivered :
        (i : ℕ) (m m' : Messenger) (c : Client)
        → d.sdp_type ≡ offer
        → m.counter < u32
        → m.quit ≡ false
        → send_offer json d number m ≡ some (m', i, true)
        → (b : Text) × (m'.sent ≡ m.sent ++ (b ∷ []))
          × (Client.on_messages json false b c
              ≡ some (map (λ o. Client.on_offer o d i number) c.observers))
    unfolding send_offer count Client.on_messages msg_type_of
    send_offer-delivered i m m' c t id q e =
        let (b, p, sent, obs, same) = send_sdp-sent m.counter i m m' q e in
        (
          b,
          sent,
          ground (
            arith,
            json.channel_law (sdp_msg m.counter) b id p,
            json.sdp_law (record { number = number; description = d }) fits ascii,
          ),
        )

    -- An answer that the client has put in its queue calls OnAnswer once for each of the lobby's
    -- observers, with the same description and number.
    pub send_sdp-answers :
        (id i : ℕ) (m : Messenger) (c c' : Client)
        → d.sdp_type ≡ answer
        → id < u32
        → c.quit ≡ false
        → Client.send_sdp json d id number c ≡ (c', i, true)
        → (b : Text) × (c'.queue ≡ c.queue ++ (b ∷ []))
          × (on_messages json false b m ≡ some (map (λ o. on_answer o d number) m.observers))
    unfolding on_messages msg_type_of
    send_sdp-answers id i m c c' t le q e =
        let (b, p, sent) = put_sdp-sent id i c c' q e in
        (
          b,
          sent,
          ground (
            arith,
            json.channel_law (sdp_msg id) b le p,
            json.sdp_law (record { number = number; description = d }) fits ascii,
          ),
        )

-- A message that is read makes the loop over the observers dereference a nil description.
abbrev pub NilSdp : {V : Type 0} → Json V → ChannelMsg V → Messenger → Type 0
NilSdp json msg m =
    ((msg.msg_type ≡ answer_msg) ⊎ (msg.msg_type ≡ offer_msg))
    × (json.to_sdp msg.content ≡ none)
    × (m.observers ≢ [])

notify_all-NilSdp :
    {V : Type 0} (json : Json V) (msg : ChannelMsg V) (m : Messenger)
    → notify_all json msg m ≡ none
    → NilSdp json msg m
unfolding notify_all
notify_all-NilSdp json msg m e = elim (Bool-cases (msg.msg_type == answer_msg)) [
  | inl p ↦ (inl (ground arith), ground arith, λ q. ground arith)
  | inr p ↦ (inr (ground arith), ground arith, λ q. ground arith)
]

notify_all-none :
    {V : Type 0} (json : Json V) (msg : ChannelMsg V) (m : Messenger)
    → NilSdp json msg m
    → notify_all json msg m ≡ none
unfolding notify_all
notify_all-none json msg m (t, e, ne) =
    elim m.observers as (λ os. m.observers ≡ os → notify_all json msg m ≡ none) [
      | [] ↦ λ p. absurd (ne p)
      | o ∷ os ↦ λ p. ground arith
    ]
      refl

-- The lobby's end panics on a binary message exactly if it is no message at all, or if it is an
-- offer or an answer whose content is no description while an observer is registered.
pub on_messages-panics :
    {V : Type 0} (json : Json V) (b : Text) (m : Messenger)
    → (on_messages json false b m ≡ none) ↔ (
        (json.unmarshal b ≡ none)
        ⊎ ((msg : ChannelMsg V) × (json.unmarshal b ≡ some msg) × NilSdp json msg m))
unfolding on_messages
on_messages-panics json b m = (
  λ e. elim (Option-cases (json.unmarshal b)) [
    | inl p ↦ inl p
    | inr (msg, p) ↦ inr (msg, p, notify_all-NilSdp json msg m (ground arith))
  ],
  λ r. elim r [
    | inl p ↦ ground arith
    | inr (msg, p, bad) ↦ ground (arith, notify_all-none json msg m bad)
  ],
)
