-- ===== src/Channel/Client.antt =====
-- pkg/media/messenger.go: the client's end of the data channel. Its queue is read by the client's
-- own worker; `queue` is what was put there.
use shig.Common.{
  true, map, none, ◌++◌, Text, some, ◌==◌, ◌∷◌, Bool, Option, false, if◌then◌else◌, ℕ, List, Uuid,
  [],
}
use shig.Channel.Messenger.{contains, drop, msg_type_of}
use shig.Channel.Message.{
  offer_msg, answer_msg, mute_msg, ChannelMsg, Sdp, Mute, SessionDescription, Json,
}

pub record Client : Type 0 where
  pub observers : List Uuid
  pub quit : Bool
  pub queue : List Text

unfoldable pub new_client : Client
new_client = record { observers = []; quit = false; queue = [] }

unfoldable pub register : Uuid → Client → Client
unfolding contains
register id m = if contains id m.observers then m else record m { observers = id ∷ m.observers }

unfoldable pub deregister : Uuid → Client → Client
unfolding drop
deregister id m = record m { observers = drop id m.observers }

-- OnAnswer and OnOffer have the id of the message, too.
pub data Call : Type 0 where
  on_answer on_offer : Uuid → SessionDescription → ℕ → ℕ → Call
  on_mute : Uuid → Option Mute → Call

module _ {V : Type 0} (json : Json V) where
  put_marshalled : ℕ → Option Text → Client → Client × ℕ × Bool
  put_marshalled id none m = (m, id, false)
  put_marshalled id (some b) m =
      (if m.quit then m else record m { queue = m.queue ++ (b ∷ []) }, id, true)

  unfoldable pub send_sdp : SessionDescription → ℕ → ℕ → Client → Client × ℕ × Bool
  unfolding put_marshalled msg_type_of
  send_sdp d id number m =
      put_marshalled id
        (json.marshal (record {
          id = id;
          content = json.of_sdp (record { number = number; description = d });
          msg_type = msg_type_of d.sdp_type;
        }))
        m

  unfoldable pub send_mute : Mute → Client → Client × ℕ × Bool
  unfolding put_marshalled
  send_mute mute m =
      put_marshalled 123
        (json.marshal (record { id = 123; content = json.of_mute mute; msg_type = mute_msg })) m

  each_sdp : (Uuid → Sdp → Call) → Option Sdp → List Uuid → Option (List Call)
  each_sdp call none [] = some []
  each_sdp call none (o ∷ os) = none
  each_sdp call (some s) os = some (map (λ o. call o s) os)

  unfoldable pub notify_all : ChannelMsg V → Client → Option (List Call)
  unfolding each_sdp
  notify_all msg m =
      if msg.msg_type == answer_msg
      then each_sdp (λ o s. on_answer o s.description msg.id s.number) (json.to_sdp msg.content)
          m.observers
      else if msg.msg_type == offer_msg
      then each_sdp (λ o s. on_offer o s.description msg.id s.number) (json.to_sdp msg.content)
          m.observers
      else if msg.msg_type == mute_msg
      then some (map (λ o. on_mute o (json.to_mute msg.content)) m.observers)
      else some []

  notify_read : Option (ChannelMsg V) → Client → Option (List Call)
  unfolding notify_all
  notify_read none m = none
  notify_read (some msg) m = notify_all msg m

  unfoldable pub on_messages : Bool → Text → Client → Option (List Call)
  unfolding notify_read
  on_messages is_string bytes m =
      if is_string then some [] else notify_read (json.unmarshal bytes) m
