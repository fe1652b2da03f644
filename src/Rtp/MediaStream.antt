-- ===== src/Rtp/MediaStream.antt =====
-- internal/rtp/media_stream.go: the audio and the video track that a participant sends under one
-- stream id. A local track is known by its id. The goroutine that writeAudioRtp and writeVideoRtp
-- start is `audio_removal` and `video_removal`: the description that it hands to
-- DispatchRemoveTrack, which it reads when it starts.
use shig.Common.{true, false, Bool, none, Text, some, Option, Uuid}
use shig.Rtp.Track.{Purpose, TrackInfo, TrackSdpInfo}

pub record MediaStream : Type 0 where
  pub id : Uuid
  pub remote_id : Text
  pub session_id : Uuid
  pub audio_info : Option TrackSdpInfo
  pub video_info : Option TrackSdpInfo
  pub audio_track : Option Text
  pub video_track : Option Text
  pub purpose : Purpose

unfoldable pub new_media_stream : Uuid → Text → Uuid → Purpose → MediaStream
new_media_stream id remote_id session_id purpose = record {
  id = id;
  remote_id = remote_id;
  session_id = session_id;
  audio_info = none;
  video_info = none;
  audio_track = none;
  video_track = none;
  purpose = purpose;
}

-- The argument is what pion's NewTrackLocalStaticRTP returned; false stands for the error.
unfoldable pub write_audio_rtp : Option Text → MediaStream → MediaStream × Bool
write_audio_rtp made s = elim s.audio_track [
  | some _ ↦ (s, false)
  | none ↦ elim made [ none ↦ (s, false) | some t ↦ (record s { audio_track = some t }, true) ]
]

unfoldable pub write_video_rtp : Option Text → MediaStream → MediaStream × Bool
write_video_rtp made s = elim s.video_track [
  | some _ ↦ (s, false)
  | none ↦ elim made [ none ↦ (s, false) | some t ↦ (record s { video_track = some t }, true) ]
]

track_info : Option Text → Option TrackSdpInfo → Option TrackInfo
track_info none i = none
track_info (some t) none = none
track_info (some t) (some i) = some (record { sdp_info = i; track = t })

unfoldable pub audio_removal : MediaStream → Option TrackInfo
unfolding track_info
audio_removal s = track_info s.audio_track s.audio_info

unfoldable pub video_removal : MediaStream → Option TrackInfo
unfolding track_info
video_removal s = track_info s.video_track s.video_info

unfoldable pub set_audio_sdp_info : TrackSdpInfo → MediaStream → MediaStream
set_audio_sdp_info i s = record s { audio_info = some i }

unfoldable pub set_video_sdp_info : TrackSdpInfo → MediaStream → MediaStream
set_video_sdp_info i s = record s { video_info = some i }
