-- ===== src/Sessions/HubExamples.antt =====
-- One input for each theorem on the hub.
use shig.Sessions.Hub
use shig.Rtp.Track.{Purpose-discrete, new_track_sdp_info, TrackInfo}
use shig.Common.{
  arith, subst, text_key, uuid_key, ◌⊎◌, ℕ_discrete, lookup, Bool, true, false, Option, none, some,
  List, [], ◌∷◌, ◌≡◌, ◌≢◌, refl, Uuid,
}
use shig.Sessions.Hub.{
  filter_for_not_main, on_mute_track, call_sender, get_track_list, remove_track, mute_track,
  is_receiver, new_hub, add_track, Request, Hub, run, on_add_track, on_remove_track,
}
use shig.Sessions.Repository.{Repository}
use shig.Sessions.Hub.Delivery.{run-AllForeign, AllForeign}
use shig.Sessions.Session.{Session, Slot, new_session}
use shig.Rtp.Examples.{cam_endpoint, cam_endpoint-IsSingle, Slots, cam, mic, peer}
use shig.Sessions.Hub.Requests.{run-tracks, last_word}
use shig.Sessions.Examples.{full_session}
use shig.Rtp.Endpoint.Tracks.{IsSingle}
use shig.Sessions.Hub.Receivers.{
  on_add_track-delivers, on_remove_track-withdraws, is_sent, after_late,
}

abbrev never_wins : Uuid → Bool
never_wins id = false

-- The session of user 30 publishes; that of user 10 listens.
abbrev published : TrackInfo
published = record { sdp_info = new_track_sdp_info 7 3; track = cam }

abbrev listening : Repository Slots
listening = (1, full_session) ∷ []

abbrev start : Hub × Repository Slots
start = (new_hub (some []), listening)

abbrev requests : List Request
requests =
    add_track never_wins published
    ∷ mute_track published
    ∷ remove_track never_wins published
    ∷ get_track_list 1 []
    ∷ []

abbrev or_start : Option (Hub × Repository Slots) → Hub × Repository Slots
or_start none = start
or_start (some st) = st

abbrev ended : Hub × Repository Slots
ended = or_start (run peer true requests start)

abbrev added : Hub × Repository Slots
added = or_start (on_add_track peer true never_wins published start)

abbrev removed : Hub × Repository Slots
removed = or_start (on_remove_track peer true never_wins published start)

run-requests : run peer true requests start ≡ some ended
unfolding run Hub.handle on_add_track on_remove_track on_mute_track call_sender filter_for_not_main
    Purpose-discrete new_track_sdp_info
run-requests = refl

listening-AllForeign : AllForeign listening
unfolding new_session
listening-AllForeign = ((tt), tt)

run-AllForeign_example : AllForeign ended.1
run-AllForeign_example =
    run-AllForeign peer true requests start ended run-requests listening-AllForeign

run-tracks_example : lookup cam ended.0.tracks ≡ last_word cam requests (lookup cam start.0.tracks)
run-tracks_example = run-tracks peer true requests start ended cam run-requests

added-start : on_add_track peer true never_wins published start ≡ some added
unfolding on_add_track call_sender filter_for_not_main Purpose-discrete new_track_sdp_info
added-start = refl

removed-start : on_remove_track peer true never_wins published start ≡ some removed
unfolding on_remove_track call_sender filter_for_not_main Purpose-discrete new_track_sdp_info
removed-start = refl

on_add_track-delivers_example :
    (s' : Session Slots) × (lookup 1 added.1 ≡ some s')
    × (((is_receiver false published full_session ≡ true) × (is_sent peer cam s'.egress ≡ true))
        ⊎ ((is_receiver false published full_session ≡ false) × (s' ≡ full_session)))
unfolding lookup ℕ_discrete
on_add_track-delivers_example =
    on_add_track-delivers peer true never_wins published start added 1 full_session added-start refl
      (λ c. refl)

full_session-IsSingle :
    (slot : Slot Slots) → full_session.egress ≡ some slot → IsSingle peer slot.endpoint
full_session-IsSingle slot e =
    let same : cam_endpoint ≡ slot.endpoint = ground arith in
    subst (IsSingle peer) same cam_endpoint-IsSingle

abbrev mic_info : TrackInfo
mic_info = record published { track = mic }

differs : mic ≢ cam
differs e = ground arith

on_remove_track-withdraws_example :
    (s' : Session Slots) × (lookup 1 removed.1 ≡ some s')
    × (((is_receiver false published full_session ≡ true)
          × (is_sent peer cam (after_late peer (mic_info ∷ []) s'.egress) ≡ false))
        ⊎ ((is_receiver false published full_session ≡ false) × (s' ≡ full_session)))
unfolding lookup ℕ_discrete
on_remove_track-withdraws_example =
    on_remove_track-withdraws peer true never_wins published start removed 1 full_session
      removed-start refl full_session-IsSingle (λ c s. refl) (mic_info ∷ []) (differs, tt)
