-- ===== src/Rtp/Receiver.antt =====
-- internal/rtp/receiver.go: what a session does with a remote track. Stats and spans are not
-- modelled here; the calls of the dispatcher are the result.
pub mod Dispatching
use mathlib.Core.Option
use shig.Common.{
  [], text_key, uuid_key, Uuid, Text, Bool, true, false, Option, none, some, Map, lookup, insert,
}
use shig.Rtp.Track.{guest, new_track_sdp_info, TrackInfo, TrackSdpInfo}
use shig.Rtp.InfoRepository.{
  set_info, by_ingress_track_id, modify_by, get_sdp_info_by_ingress_track_id, InfoRepository,
}
use shig.Rtp.MediaStream.{
  write_video_rtp, set_video_sdp_info, write_audio_rtp, new_media_stream, set_audio_sdp_info,
  MediaStream,
}

pub data Kind : Type 0 where
  audio video other_kind : Kind

-- What pion tells of the track: its ids, its kind, the transceiver's mid. The codec's MIME type begins
-- with its kind. `made` is the local track that pion makes for it.
pub record RemoteTrack : Type 0 where
  pub id : Text
  pub stream_id : Text
  pub kind : Kind
  pub mid : Text
  pub made : Option Text

pub record Receiver : Type 0 where
  pub id : Uuid
  pub streams : Map Text MediaStream
  pub infos : InfoRepository

unfoldable pub new_receiver : Uuid → InfoRepository → Receiver
new_receiver id infos = record { id = id; streams = []; infos = infos }

-- getIngressTrackSdpInfo and the write of the mid through the pointer that it returns, which the
-- repository holds. The id is drawn by the caller; a new description has no ingress track id.
unfoldable pub describe_track : Uuid → RemoteTrack → Receiver → Receiver × TrackSdpInfo
describe_track fresh t r = elim (get_sdp_info_by_ingress_track_id t.id r.infos) [
  | some i ↦ (
    record r {
      infos = modify_by (by_ingress_track_id t.id) (λ i. record i { ingress_mid = t.mid }) r.infos;
    },
    record i { ingress_mid = t.mid },
  )
  | none ↦
      let i = record (new_track_sdp_info fresh r.id) { purpose = guest; ingress_mid = t.mid } in
      (record r { infos = set_info fresh i r.infos }, i)
]

set_sdp_info : Kind → TrackSdpInfo → MediaStream → MediaStream
set_sdp_info audio i s = set_audio_sdp_info i s
set_sdp_info video i s = set_video_sdp_info i s
set_sdp_info other_kind i s = s

-- getStream: the stream, which is stored under its remote id.
unfoldable pub get_stream : Uuid → Text → TrackSdpInfo → Kind → Receiver → MediaStream
unfolding set_sdp_info
get_stream fresh stream_id i kind r = set_sdp_info kind i (elim (lookup stream_id r.streams) [
  | some s ↦ s
  | none ↦ new_media_stream fresh stream_id r.id i.purpose
])

write_kind : Kind → Option Text → MediaStream → MediaStream × Bool
write_kind audio made s = write_audio_rtp made s
write_kind video made s = write_video_rtp made s
write_kind other_kind made s = (s, true)

-- The track that is dispatched; a track that is neither audio nor video has no local track, and its
-- nil info is dereferenced.
dispatched : Kind → TrackSdpInfo → MediaStream → Option TrackInfo
dispatched audio i s = Option.map (λ t. record { sdp_info = i; track = t }) s.audio_track
dispatched video i s = Option.map (λ t. record { sdp_info = i; track = t }) s.video_track
dispatched other_kind i s = none

store_stream : Text → MediaStream → Receiver → Receiver
store_stream stream_id s r = record r { streams = insert stream_id s r.streams }

finish :
    RemoteTrack
    → TrackSdpInfo
    → Receiver
    → MediaStream × Bool
    → Option (Receiver × Option TrackInfo)
unfolding store_stream dispatched
finish t i r (s, false) = some (store_stream t.stream_id s r, none)
finish t i r (s, true) = elim (dispatched t.kind i s) [
  | none ↦ none
  | some info ↦ some (store_stream t.stream_id s r, some info)
]

-- onTrack: `none` is a panic; the result names the track that DispatchAddTrack was called with.
unfoldable pub on_track :
    Uuid → Uuid → RemoteTrack → Receiver → Option (Receiver × Option TrackInfo)
unfolding finish write_kind describe_track get_stream
on_track fresh_info fresh_stream t r =
    let (r', i) = describe_track fresh_info t r in
    finish t i r' (write_kind t.kind t.made (get_stream fresh_stream t.stream_id i t.kind r'))
