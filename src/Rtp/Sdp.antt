-- ===== src/Rtp/Sdp.antt =====
-- internal/rtp/sdp.go. A media description is what the code reads of pion's: the media name, the
-- title, and the values of the attributes "msid" and "mid". Unmarshalling and marshalling a whole
-- session description is pion's, and stays outside: the functions work on the list between them.
pub mod Split
pub mod Label
pub mod RoundTrip
pub mod Ingress
use shig.Common.{
  map, ◌&&◌, ℕ, suc, ◌+◌, Uuid, Text, Bool, true, false, ◌||◌, Option, none, some, List, [], ◌∷◌,
  ite, Map, if◌then◌else◌, Text-discrete,
}
use shig.Rtp.Track.{TrackSdpInfo, new_track_sdp_info, main}
use shig.Rtp.InfoRepository.{
  InfoRepository, set_info, get_sdp_info_by_egress_track_id, modify_by, by_egress_track_id,
}
use Split.{split_after, contains, space}
use Label.{parse_sdp_information, build_sdp_information, purpose_digit}

pub record MediaDescription : Type 0 where
  pub media : Text
  pub title : Option Text
  pub msid : Option Text
  pub mid : Option Text

abbrev pub audio_name : Text
audio_name = b'a' ∷ b'u' ∷ b'd' ∷ b'i' ∷ b'o' ∷ []

abbrev pub video_name : Text
video_name = b'v' ∷ b'i' ∷ b'd' ∷ b'e' ∷ b'o' ∷ []

-- The test that skips what is neither audio nor video.
unfoldable pub is_track : MediaDescription → Bool
is_track d =
    ite (Text-discrete d.media video_name) true (ite (Text-discrete d.media audio_name) true false)

-- The second of exactly two words of the "msid" value.
unfoldable pub second_word : List Text → Option Text
second_word (a ∷ b ∷ []) = some b
second_word _ = none

unfoldable pub msid_track_id : MediaDescription → Option Text
unfolding second_word
msid_track_id d = elim d.msid [ none ↦ none | some msid ↦ second_word (split_after space msid) ]

title_text : Option Text → Text
title_text none = []
title_text (some s) = s

-- What is stored for a description whose "msid" names a track.
unfoldable pub ingress_info : Uuid → Uuid → MediaDescription → Text → TrackSdpInfo
unfolding title_text
ingress_info id session_id d track =
    record (parse_sdp_information (title_text d.title) (new_track_sdp_info id session_id)) {
      ingress_track_id = track;
    }

-- The `n`th call of `uuid.New` returns `fresh n`. An id is drawn for each track, stored or not.
unfoldable pub get_ingress_track_sdp_info :
    (ℕ → Uuid) → ℕ → Uuid → List MediaDescription → InfoRepository → InfoRepository
unfolding is_track msid_track_id ingress_info
get_ingress_track_sdp_info fresh n session_id [] repo = repo
get_ingress_track_sdp_info fresh n session_id (d ∷ ds) repo =
    let skipped = get_ingress_track_sdp_info fresh n session_id ds repo in
    let stored = λ (r : InfoRepository). get_ingress_track_sdp_info fresh (n + 1) session_id ds r in
    if is_track d
    then (elim (msid_track_id d) [
      | none ↦ stored repo
      | some track ↦ stored (set_info (fresh n) (ingress_info (fresh n) session_id d track) repo)
    ])
    else skipped

-- `MarkStreamAsMain` writes the bare digit of `PurposeMain` into the title.
unfoldable pub mark_description : Text → MediaDescription → MediaDescription
unfolding is_track
mark_description stream_id d = elim d.msid [
  | none ↦ d
  | some msid ↦
      if is_track d && contains msid stream_id
      then record d { title = some (purpose_digit main) }
      else d
]

unfoldable pub mark_stream_as_main : Text → List MediaDescription → List MediaDescription
unfolding mark_description
mark_stream_as_main stream_id = map (mark_description stream_id)

-- The title is written if the repository knows the track; the egress mid, if the description has one.
unfoldable pub set_egress_info :
    MediaDescription → Text → InfoRepository → MediaDescription × InfoRepository
set_egress_info d track repo = elim (get_sdp_info_by_egress_track_id track repo) [
  | none ↦ (d, repo)
  | some i ↦ (
    record d { title = some (build_sdp_information i) },
    elim d.mid [
      | none ↦ repo
      | some mid ↦ modify_by (by_egress_track_id track) (λ j. record j { egress_mid = mid }) repo
    ],
  )
]

unfoldable pub set_egress_track_info :
    List MediaDescription → InfoRepository → List MediaDescription × InfoRepository
unfolding is_track msid_track_id set_egress_info
set_egress_track_info [] repo = ([], repo)
set_egress_track_info (d ∷ ds) repo =
    let (d', repo') =
      (if is_track d
        then (elim (msid_track_id d) [
          | none ↦ (d, repo)
          | some track ↦ set_egress_info d track repo
        ])
        else (d, repo)) in
    let (ds', end) = set_egress_track_info ds repo' in (d' ∷ ds', end)
