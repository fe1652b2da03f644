-- ===== src/Rtp/LabelExamples.antt =====
-- One input for each theorem on the labels of tracks in the SDP, and on the stats workers.
use shig.Common.{Text-discrete, some, none, true, List, [], ◌∷◌, ◌≡◌, refl, Text}
use shig.Rtp.Sdp.Label.{build_sdp_information, parse_sdp_information}
use shig.Rtp.Sdp.{MediaDescription, audio_name, is_track, mark_description, ingress_info}
use shig.Rtp.Sdp.Split.{contains}
use shig.Rtp.Track.{guest, main, new_track_sdp_info, TrackSdpInfo}
use shig.Rtp.Sdp.RoundTrip.{parse-build, mark_description-guest}
use shig.Rtp.Endpoint.{WorkerCall, start_worker, stop_worker}
use shig.Rtp.Stats.{new_registry, run_calls}
use shig.Rtp.Stats.Lock.{is_free, starts_new, run_calls-returns}

abbrev hello : Text
hello = b'H' ∷ b'i' ∷ []

abbrev main_info : TrackSdpInfo
main_info = record (new_track_sdp_info 3 1) { purpose = main; mute = true; info = hello }

abbrev reader : TrackSdpInfo
reader = new_track_sdp_info 4 2

parse-build_example :
    parse_sdp_information (build_sdp_information main_info) reader
    ≡ record reader { purpose = main; mute = true; info = hello }
parse-build_example = parse-build main_info reader (refl, (refl, tt))

abbrev worker_calls : List WorkerCall
worker_calls = start_worker 5 ∷ stop_worker 5 ∷ start_worker 5 ∷ start_worker 6 ∷ []

run_calls-returns_example :
    is_free (run_calls new_registry worker_calls) ≡ starts_new new_registry.stats_list worker_calls
unfolding new_registry
run_calls-returns_example = run_calls-returns new_registry worker_calls refl

-- An audio track whose stream has the name "Hi".
abbrev audio_section : MediaDescription
audio_section = record { media = audio_name; title = none; msid = some hello; mid = none }

mark_description-guest_example :
    (ingress_info 1 2 (mark_description hello audio_section) hello).purpose ≡ guest
unfolding is_track contains Text-discrete
mark_description-guest_example =
    mark_description-guest 1 2 hello hello hello audio_section refl refl refl
