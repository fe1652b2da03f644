-- ===== src/Rtp/Sdp/Ingress.antt =====
-- What getIngressTrackSdpInfo leaves in the repository.
use shig.Common.{
  inr, ◌+◌, Option-cases, inl, Bool-cases, text_key, uuid_key, All, insert, ℕ, Uuid, Text, ◌≡◌,
  refl, List, [], ◌∷◌, arith,
}
use shig.Rtp.Track.{TrackSdpInfo, new_track_sdp_info}
use shig.Rtp.InfoRepository.{InfoRepository, set_info}
use shig.Rtp.Sdp.{
  title_text, MediaDescription, is_track, ingress_info, msid_track_id, get_ingress_track_sdp_info,
}
use shig.Rtp.Sdp.Split.{split_after, space}
use shig.Rtp.Sdp.Label.{parse_sdp_information, read_label}

-- Each entry stands under its own id, and belongs to the session.
abbrev pub IsWellKeyed : Uuid → InfoRepository → Type 0
IsWellKeyed session_id = All (λ e. (e.1.id ≡ e.0) × (e.1.session_id ≡ session_id))

pub insert-IsWellKeyed :
    (session_id k : Uuid) (i : TrackSdpInfo) (r : InfoRepository)
    → i.id ≡ k
    → i.session_id ≡ session_id
    → IsWellKeyed session_id r
    → IsWellKeyed session_id (insert k i r)
unfolding insert
insert-IsWellKeyed session_id k i [] p q h = ((p, q), tt)
insert-IsWellKeyed session_id k i ((j, w) ∷ r) p q h =
    ground (arith, insert-IsWellKeyed session_id k i r p q h.1)

read_label-keeps :
    (ws : List Text) (t : TrackSdpInfo)
    → ((read_label ws t).id ≡ t.id) × ((read_label ws t).session_id ≡ t.session_id)
unfolding read_label
read_label-keeps (a ∷ b ∷ c ∷ []) t = (refl, refl)
read_label-keeps _ t = (refl, refl)

ingress_info-keys :
    (id session_id : Uuid) (d : MediaDescription) (track : Text)
    → ((ingress_info id session_id d track).id ≡ id)
      × ((ingress_info id session_id d track).session_id ≡ session_id)
      × ((ingress_info id session_id d track).ingress_track_id ≡ track)
unfolding ingress_info parse_sdp_information new_track_sdp_info
ingress_info-keys id session_id d track =
    let keeps =
      read_label-keeps (split_after space (title_text d.title))
        (new_track_sdp_info id session_id) in
    (keeps.0, keeps.1, refl)

-- Whatever the offer holds, each description that it adds stands under its own id and names the
-- session that the offer came from, if that held of the repository before.
pub ingress-IsWellKeyed :
    (fresh : ℕ → Uuid) (n : ℕ) (session_id : Uuid) (ds : List MediaDescription) (r : InfoRepository)
    → IsWellKeyed session_id r
    → IsWellKeyed session_id (get_ingress_track_sdp_info fresh n session_id ds r)
unfolding get_ingress_track_sdp_info set_info
ingress-IsWellKeyed fresh n session_id [] r h = h
ingress-IsWellKeyed fresh n session_id (d ∷ ds) r h = elim (Bool-cases (is_track d)) [
  | inl e ↦ elim (Option-cases (msid_track_id d)) [
    | inl p ↦
        rw (e, p, get_ingress_track_sdp_info) (ingress-IsWellKeyed fresh (n + 1) session_id ds r h)
    | inr (track, p) ↦
        let keys = ingress_info-keys (fresh n) session_id d track in
        rw (e, p, get_ingress_track_sdp_info)
          (ingress-IsWellKeyed fresh (n + 1) session_id ds _
            (insert-IsWellKeyed session_id (fresh n) _ r keys.0 keys.1 h))
  ]
  | inr e ↦ rw (e, get_ingress_track_sdp_info) (ingress-IsWellKeyed fresh n session_id ds r h)
]
