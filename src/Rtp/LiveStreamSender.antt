-- ===== src/Rtp/LiveStreamSender.antt =====
-- internal/rtp/live_stream_sender.go and WriteRTP of live_stream_writer.go: the tracks that are sent
-- on as RTP over UDP. Reading, pion's packets and the sockets are parameters; what a socket was given
-- is the sent list.
pub mod Forwarding
use shig.Common.{Text, ℕ, Bool, true, false, if◌then◌else◌, List, [], ◌∷◌, ◌++◌, Option, none, some}

pub record UdpConnection : Type 0 where
  pub port : ℕ
  pub payload_type : ℕ
  pub connected : Bool

-- conn.Write: the error "write: connection refused" is told apart from the others.
pub data Written : Type 0 where
  done refused failed : Written

-- How writeTrack ends: it returns nil or an error, or it still waits in Read.
pub data Ended : Type 0 where
  returned : Ended
  returned_error : Ended
  waits : Ended

pub record Forwarded : Type 0 where
  pub sent : List Text
  pub ended : Ended

unfoldable pub and_sent : Text → Forwarded → Forwarded
and_sent t r = record r { sent = t ∷ r.sent }

-- `repack` is Unmarshal, the payload type and MarshalTo; `write` what the socket answers to a
-- packet. A read is the bytes, or `none` for its error. The context is looked at before the first
-- read only, since the inner loop has no other end than a return.
module _ (repack : ℕ → Text → Option Text) (write : Text → Written) where
  after_write : Written → Forwarded → Forwarded
  after_write done rest = rest
  after_write refused rest = rest
  after_write failed rest = record { sent = []; ended = returned_error }

  unfoldable pub write_packets : ℕ → List (Option Text) → Forwarded
  unfolding and_sent after_write
  write_packets payload_type [] = record { sent = []; ended = waits }
  write_packets payload_type (none ∷ rs) = record { sent = []; ended = returned }
  write_packets payload_type (some b ∷ rs) =
      let rest = write_packets payload_type rs in
      elim (repack payload_type b) [
        | none ↦ record { sent = []; ended = returned_error }
        | some p ↦ and_sent p (after_write (write p) rest)
      ]

  -- writeTrack, with what the context says when it is looked at
  unfoldable pub write_track : Bool → UdpConnection → List (Option Text) → Forwarded
  unfolding write_packets
  write_track stopped udp rs =
      if stopped then record { sent = []; ended = returned } else write_packets udp.payload_type rs

-- WriteRTP: the length or the error, for a packet that is marshalled.
unfoldable pub write_rtp : Option Text → (Text → Written) → (Text → ℕ) → Option ℕ
write_rtp none write count = none
write_rtp (some p) write count = elim (write p) [
  | done ↦ some (count p)
  | refused ↦ some (count p)
  | failed ↦ none
]

pub record LiveStreamSender : Type 0 where
  pub audio : UdpConnection
  pub video : UdpConnection
  pub stopped : Bool

unfoldable pub new_live_stream_sender : LiveStreamSender
new_live_stream_sender = record {
  audio = record { port = 4000; payload_type = 111; connected = false };
  video = record { port = 4002; payload_type = 96; connected = false };
  stopped = false;
}

-- connect, where `dials` is whether the port could be dialled
unfoldable pub connect : (ℕ → Bool) → UdpConnection → UdpConnection × Bool
connect dials udp = if dials udp.port then (record udp { connected = true }, true) else (udp, false)

-- The connections of Run when it waits for the context, or when it ends early
unfoldable pub connect_all : (ℕ → Bool) → LiveStreamSender → LiveStreamSender × Bool
unfolding connect
connect_all dials f =
    let (audio, ok) = connect dials f.audio in
    let f' = record f { audio = audio } in
    if ok
    then (let (video, ok') = connect dials f.video in (record f' { video = video }, ok'))
    else (f', false)

-- close: the ports that are closed, and whether there was no error; the first error ends it.
unfoldable pub close : (ℕ → Bool) → LiveStreamSender → List ℕ × Bool
close closes f =
    let video =
      if f.video.connected then ((f.video.port ∷ []), closes f.video.port) else ([], true) in
    if f.audio.connected
    then if closes f.audio.port
      then (f.audio.port ∷ video.0, video.1)
      else ((f.audio.port ∷ []), false)
    else video

unfoldable pub stop : LiveStreamSender → LiveStreamSender
stop f = record f { stopped = true }

pub data Kind : Type 0 where
  audio_kind video_kind other_kind : Kind

-- baseTrackLocalContext, with the port of its writer; a kind that is neither has no writer.
pub record Binding : Type 0 where
  pub ssrc : ℕ
  pub payload_type : Option ℕ
  pub clock_rate : ℕ
  pub port : Option ℕ

-- AddTrack: what the track is bound to
unfoldable pub binding : LiveStreamSender → Kind → Binding
binding f audio_kind = record {
  ssrc = 3450704251;
  payload_type = some 111;
  clock_rate = 48000;
  port = some f.audio.port;
}
binding f video_kind = record {
  ssrc = 3450704222;
  payload_type = some 96;
  clock_rate = 90000;
  port = some f.video.port;
}
binding f other_kind = record { ssrc = 0; payload_type = none; clock_rate = 0; port = none }
