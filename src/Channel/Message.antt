-- ===== src/Channel/Message.antt =====
-- pkg/message/channel.go, sdp.go, mute.go: what goes over the data channel.
-- encoding/json is the interface `Json`. A value of `V` is a JSON value, which is also what an
-- `interface{}` holds after json.Unmarshal.
use shig.Common.{some, ◌≡◌, All, Bool, ◌<◌, ◌^◌, Option, Text, ℕ}

pub data SdpType : Type 0 where
  offer answer pranswer rollback : SdpType

-- webrtc.SessionDescription
pub record SessionDescription : Type 0 where
  pub sdp_type : SdpType
  pub sdp : Text

pub record Sdp : Type 0 where
  pub number : ℕ
  pub description : SessionDescription

pub record Mute : Type 0 where
  pub mid : Text
  pub mute : Bool

-- `content` is the field Data; another number than the three below is no known type.
pub record ChannelMsg (V : Type 0) : Type 0 where
  pub id : ℕ
  pub content : V
  pub msg_type : ℕ

abbrev pub offer_msg : ℕ
offer_msg = 1

abbrev pub answer_msg : ℕ
answer_msg = 2

abbrev pub mute_msg : ℕ
mute_msg = 3

-- json.Marshal keeps a string whose bytes are ASCII.
abbrev pub IsAscii : Text → Type 0
IsAscii = All (λ c. c < 128)

abbrev pub u32 : ℕ
u32 = 2 ^ 32

-- `to_sdp` and `to_mute` are json.Marshal of the field Data and json.Unmarshal into the struct. The
-- laws say that what was marshalled is read back.
pub record Json (V : Type 0) : Type 0 where
  pub marshal : ChannelMsg V → Option Text
  pub unmarshal : Text → Option (ChannelMsg V)
  pub of_sdp : Sdp → V
  pub to_sdp : V → Option Sdp
  pub of_mute : Mute → V
  pub to_mute : V → Option Mute
  pub channel_law :
      (m : ChannelMsg V) (b : Text) → m.id < u32 → marshal m ≡ some b → unmarshal b ≡ some m
  pub sdp_law : (s : Sdp) → s.number < u32 → IsAscii s.description.sdp → to_sdp (of_sdp s) ≡ some s
  pub mute_law : (m : Mute) → IsAscii m.mid → to_mute (of_mute m) ≡ some m
