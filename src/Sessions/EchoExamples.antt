-- ===== src/Sessions/EchoExamples.antt =====
-- One input for the theorem on the path of a track: the camera that a participant offers.
use shig.Common.{
  Uuid, true, false, Option, none, some, List, [], ◌∷◌, ◌≡◌, refl, ℕ, ◌+◌, All, Text-discrete,
  ℕ_discrete, lookup, insert, Bool,
}
use shig.Rtp.Track.{TrackInfo}
use shig.Rtp.Sdp.{MediaDescription, video_name}
use shig.Rtp.Sdp
use shig.Rtp.Sdp.Split.{split_after, space}
use shig.Rtp.MediaStream.{write_video_rtp, set_video_sdp_info, new_media_stream}
use shig.Rtp.Sdp.Label.{parse_sdp_information}
use shig.Rtp.InfoRepository.{get_sdp_info_by_ingress_track_id, modify_by, set_info, find_by}
use shig.Rtp.Receiver.{on_track, Receiver, RemoteTrack, video, new_receiver}
use shig.Rtp.Receiver.Dispatching.{Arrivals, on_tracks}
use shig.Rtp.Examples.{peer, cam}
use shig.Sessions.Examples.{full_session}
use shig.Sessions.Hub.{deliver_add}
use shig.Sessions.Hub.Echo.{on_tracks-no_echo}

abbrev camera : MediaDescription
camera = record {
  media = video_name;
  title = none;
  msid = some (b's' ∷ space ∷ b't' ∷ []);
  mid = some (b'0' ∷ []);
}

abbrev fresh : ℕ → Uuid
fresh n = 100 + n

abbrev never_wins : Uuid → Bool
never_wins id = false

abbrev arrivals : Arrivals
arrivals =
    (
      21,
      22,
      record {
        id = b't' ∷ [];
        stream_id = b's' ∷ [];
        kind = video;
        mid = b'0' ∷ [];
        made = some cam;
      },
    )
    ∷ []

abbrev before : Receiver
before =
    new_receiver full_session.id
      (Sdp.get_ingress_track_sdp_info fresh 0 full_session.id (camera ∷ []) [])

abbrev or_before :
    Option (Receiver × List (RemoteTrack × TrackInfo)) → Receiver × List (RemoteTrack × TrackInfo)
or_before none = (before, [])
or_before (some p) = p

abbrev after : Receiver × List (RemoteTrack × TrackInfo)
after = or_before (on_tracks arrivals before)

on_tracks-arrivals : on_tracks arrivals before ≡ some after
unfolding on_tracks new_receiver Sdp.get_ingress_track_sdp_info on_track lookup insert Text-discrete
    ℕ_discrete parse_sdp_information get_sdp_info_by_ingress_track_id modify_by set_info find_by
    write_video_rtp set_video_sdp_info split_after new_media_stream
on_tracks-arrivals = refl

on_tracks-no_echo_example :
    All (λ e. deliver_add peer true never_wins e.1 full_session ≡ full_session) after.1
on_tracks-no_echo_example =
    on_tracks-no_echo peer true never_wins full_session fresh 0 (camera ∷ []) arrivals after.0
      after.1 on_tracks-arrivals
