-- ===== src/Channel/Messenger.antt =====
-- internal/lobby/clients/messenger.go. An observer is known by its id. The worker that OnOpen starts
-- takes each message from the unbuffered queue; `sent` is what it passed to the channel's Send. A
-- call that waits for the worker, and a panic, is `none`.
use shig.Common.{
  map, none, ◌++◌, ◌||◌, some, ◌==◌, ◌∷◌, Bool, List, Option, false, if◌then◌else◌, Text, Uuid, [],
  true, ℕ,
}
use shig.Channel.Message.{
  answer, offer, answer_msg, mute_msg, offer_msg, ChannelMsg, Sdp, Mute, SessionDescription,
  SdpType, Json,
}
pub mod Delivery

pub record Messenger : Type 0 where
  pub counter : ℕ
  pub observers : List Uuid
  pub opened : Bool
  pub quit : Bool
  pub sent : List Text

unfoldable pub new_messenger : Messenger
new_messenger = record { counter = 0; observers = []; opened = false; quit = false; sent = [] }

-- The callback of OnOpen
unfoldable pub open_channel : Messenger → Messenger
open_channel m = record m { opened = true }

unfoldable pub contains : Uuid → List Uuid → Bool
contains id [] = false
contains id (o ∷ os) = o == id || contains id os

unfoldable pub register : Uuid → Messenger → Messenger
unfolding contains
register id m = if contains id m.observers then m else record m { observers = id ∷ m.observers }

unfoldable pub drop : Uuid → List Uuid → List Uuid
drop id [] = []
drop id (o ∷ os) = if o == id then drop id os else o ∷ drop id os

unfoldable pub deregister : Uuid → Messenger → Messenger
unfolding drop
deregister id m = record m { observers = drop id m.observers }

unfoldable pub close : Messenger → Messenger
close m = record m { quit = true }

-- count loads the counter, which nothing increments.
unfoldable pub count : Messenger → ℕ
count m = m.counter

-- The nested selects on the queue
enqueue : Text → Messenger → Option Messenger
enqueue b m =
    if m.quit
    then some m
    else if m.opened
    then some (record m { sent = m.sent ++ (b ∷ []) })
    else none

-- The switch on the description's type leaves the zero type for the other two.
unfoldable pub msg_type_of : SdpType → ℕ
msg_type_of offer = offer_msg
msg_type_of answer = answer_msg
msg_type_of _ = 0

-- What an observer is called with; the mute flag of OnMute may be a nil pointer.
pub data Call : Type 0 where
  on_answer : Uuid → SessionDescription → ℕ → Call
  on_offer : Uuid → SessionDescription → ℕ → ℕ → Call
  on_mute : Uuid → Option Mute → Call

module _ {V : Type 0} (json : Json V) where
  -- The result of the send methods: the id of the message and whether marshalling failed.
  send_marshalled : ℕ → Option Text → Messenger → Option (Messenger × ℕ × Bool)
  unfolding enqueue
  send_marshalled id none m = some (m, id, false)
  send_marshalled id (some b) m = elim (enqueue b m) [ none ↦ none | some m' ↦ some (m', id, true) ]

  unfoldable pub send_sdp : SessionDescription → ℕ → ℕ → Messenger → Option (Messenger × ℕ × Bool)
  unfolding send_marshalled msg_type_of
  send_sdp d id number m =
      send_marshalled id
        (json.marshal (record {
          id = id;
          content = json.of_sdp (record { number = number; description = d });
          msg_type = msg_type_of d.sdp_type;
        }))
        m

  unfoldable pub send_offer : SessionDescription → ℕ → Messenger → Option (Messenger × ℕ × Bool)
  unfolding send_sdp count
  send_offer d number m = send_sdp d (count m) number m

  unfoldable pub send_answer :
      SessionDescription → ℕ → ℕ → Messenger → Option (Messenger × ℕ × Bool)
  unfolding send_sdp
  send_answer = send_sdp

  unfoldable pub send_mute : Mute → Messenger → Option (Messenger × ℕ × Bool)
  unfolding send_marshalled
  send_mute mute m =
      send_marshalled 0
        (json.marshal (record { id = 0; content = json.of_mute mute; msg_type = mute_msg })) m

  -- The loops over the observers read the fields of a nil description if unmarshalling failed.
  each_sdp : (Uuid → Sdp → Call) → Option Sdp → List Uuid → Option (List Call)
  each_sdp call none [] = some []
  each_sdp call none (o ∷ os) = none
  each_sdp call (some s) os = some (map (λ o. call o s) os)

  unfoldable pub notify_all : ChannelMsg V → Messenger → Option (List Call)
  unfolding each_sdp
  notify_all msg m =
      if msg.msg_type == answer_msg
      then each_sdp (λ o s. on_answer o s.description s.number) (json.to_sdp msg.content)
          m.observers
      else if msg.msg_type == offer_msg
      then each_sdp (λ o s. on_offer o s.description msg.id s.number) (json.to_sdp msg.content)
          m.observers
      else if msg.msg_type == mute_msg
      then some (map (λ o. on_mute o (json.to_mute msg.content)) m.observers)
      else some []

  -- A message that is not unmarshalled leaves a nil pointer, which notifyAll dereferences.
  notify_read : Option (ChannelMsg V) → Messenger → Option (List Call)
  unfolding notify_all
  notify_read none m = none
  notify_read (some msg) m = notify_all msg m

  unfoldable pub on_messages : Bool → Text → Messenger → Option (List Call)
  unfolding notify_read
  on_messages is_string bytes m =
      if is_string then some [] else notify_read (json.unmarshal bytes) m
