-- ===== src/Rtp/Sdp/RoundTrip.antt =====
-- What the reader of a label gets from the writer.
use shig.Common.{
  ap, some, ◌∙◌, Uuid, Text, Bool, ◌≡◌, refl, [], ◌∷◌, ◌++◌, arith, true, false, Text-discrete,
}
use shig.Rtp.Sdp.{MediaDescription, mark_description, is_track, ingress_info}
use shig.Rtp.Track.{TrackSdpInfo, new_track_sdp_info, Purpose, guest, main}
use shig.Rtp.Sdp.Split.{
  split_after, split_after_none, split_after_word, split_after-cons, contains, trim_space, space,
  HasNoSpace,
}
use shig.Rtp.Sdp.Label.{
  parse_sdp_information, build_sdp_information, read_label, read_purpose, read_mute, purpose_digit,
  mute_digit,
}

read_purpose-digit : (p : Purpose) → read_purpose (trim_space (purpose_digit p ++ (space ∷ []))) ≡ p
unfolding read_purpose trim_space purpose_digit Text-discrete
read_purpose-digit guest = refl
read_purpose-digit main = refl

read_mute-digit : (b : Bool) → read_mute (trim_space (mute_digit b ++ (space ∷ []))) ≡ b
unfolding read_mute trim_space mute_digit Text-discrete
read_mute-digit true = refl
read_mute-digit false = refl

purpose_digit-HasNoSpace : (p : Purpose) → HasNoSpace (purpose_digit p)
unfolding purpose_digit
purpose_digit-HasNoSpace guest = (refl, tt)
purpose_digit-HasNoSpace main = (refl, tt)

mute_digit-HasNoSpace : (b : Bool) → HasNoSpace (mute_digit b)
unfolding mute_digit
mute_digit-HasNoSpace true = (refl, tt)
mute_digit-HasNoSpace false = (refl, tt)

-- A label that was written splits into its two digits and the pieces of its information.
split_after-label :
    (t : TrackSdpInfo)
    → split_after space (build_sdp_information t)
      ≡ (purpose_digit t.purpose ++ (space ∷ []))
        ∷ ((mute_digit t.mute ++ (space ∷ [])) ∷ split_after space t.info)
unfolding build_sdp_information
split_after-label t =
    split_after_word (purpose_digit t.purpose) (mute_digit t.mute ++ (space ∷ t.info))
      (purpose_digit-HasNoSpace t.purpose)
    ∙ ap (◌∷◌ (purpose_digit t.purpose ++ (space ∷ [])))
        (split_after_word (mute_digit t.mute) t.info (mute_digit-HasNoSpace t.mute))

-- If the information has no space, a label that was written is read back: purpose, mute and
-- information of the reader's track become those of the writer's, and its other fields stay.
pub parse-build :
    (t u : TrackSdpInfo)
    → HasNoSpace t.info
    → parse_sdp_information (build_sdp_information t) u
      ≡ record u { purpose = t.purpose; mute = t.mute; info = t.info }
unfolding parse_sdp_information
parse-build t u h =
    rw
      (
        split_after-label t,
        split_after_none t.info h,
        read_label,
        read_purpose-digit t.purpose,
        read_mute-digit t.mute,
      )
      refl

-- If the information has a space after a part without one, the reader ignores the label whole, mute
-- and purpose included.
pub parse-build_space :
    (t u : TrackSdpInfo) (w rest : Text)
    → HasNoSpace w
    → t.info ≡ w ++ (space ∷ rest)
    → parse_sdp_information (build_sdp_information t) u ≡ u
unfolding parse_sdp_information read_label
parse-build_space t u w rest h e =
    let (v, vs, p) = split_after-cons rest in
    rw (split_after-label t, e, split_after_word w rest h, p) refl

-- The title that MarkStreamAsMain writes is no label: the track of an audio or video description
-- whose msid contains the stream's id is still read as a guest's after it was marked.
pub mark_description-guest :
    (id session_id : Uuid) (stream_id msid track : Text) (d : MediaDescription)
    → d.msid ≡ some msid
    → is_track d ≡ true
    → contains msid stream_id ≡ true
    → (ingress_info id session_id (mark_description stream_id d) track).purpose ≡ guest
unfolding mark_description ingress_info parse_sdp_information new_track_sdp_info read_label
    split_after purpose_digit
mark_description-guest id session_id stream_id msid track d e f g = ground arith
