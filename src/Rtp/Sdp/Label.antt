-- ===== src/Rtp/Sdp/Label.antt =====
-- sdp.go: parseSdpInformation and buildSdpInformation, the label of a track in the media title.
use shig.Common.{Text, Bool, true, false, List, [], ◌∷◌, ◌++◌, ite, Text-discrete}
use shig.Rtp.Track.{TrackSdpInfo, Purpose, guest, main}
use shig.Rtp.Sdp.Split.{split_after, trim_space, space}

abbrev pub digit_one : Text
digit_one = b'1' ∷ []

abbrev pub digit_two : Text
digit_two = b'2' ∷ []

-- "1" is a guest, "2" the main stream, anything else a guest.
unfoldable pub read_purpose : Text → Purpose
read_purpose s = ite (Text-discrete s digit_one) guest (ite (Text-discrete s digit_two) main guest)

unfoldable pub read_mute : Text → Bool
read_mute s = ite (Text-discrete s digit_one) true (ite (Text-discrete s digit_two) false false)

-- Labels that are not of three pieces are ignored.
unfoldable pub read_label : List Text → TrackSdpInfo → TrackSdpInfo
unfolding read_purpose read_mute
read_label (a ∷ b ∷ c ∷ []) t = record t {
  purpose = read_purpose (trim_space a);
  mute = read_mute (trim_space b);
  info = c;
}
read_label _ t = t

unfoldable pub parse_sdp_information : Text → TrackSdpInfo → TrackSdpInfo
unfolding read_label
parse_sdp_information s t = read_label (split_after space s) t

-- "%d" of a purpose
unfoldable pub purpose_digit : Purpose → Text
purpose_digit guest = digit_one
purpose_digit main = digit_two

unfoldable pub mute_digit : Bool → Text
mute_digit true = digit_one
mute_digit false = digit_two

unfoldable pub build_sdp_information : TrackSdpInfo → Text
unfolding purpose_digit mute_digit
build_sdp_information t =
    purpose_digit t.purpose ++ (space ∷ (mute_digit t.mute ++ (space ∷ t.info)))
