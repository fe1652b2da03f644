-- ===== src/Rtp/Receiver/Dispatching.antt =====
-- What a receiver gives to the hub over the tracks of a session.
use shig.Common.{
  ◌⊎◌, insert, ap, subst, ◌∙◌, sym, subst₂, uuid_key, inr, if_neg, inl, if_pos, Uuid, ◌≡◌, refl,
  Bool, true, false, Option, none, some, List, [], ◌∷◌, arith, All, All-insert, Option-cases,
  text_key,
}
use shig.Rtp.Track.{new_track_sdp_info, TrackInfo, TrackSdpInfo}
use shig.Rtp.MediaStream.{MediaStream}
use shig.Rtp.Receiver.{
  write_kind, finish, dispatched, new_track_sdp_info, get_sdp_info_by_ingress_track_id, modify_by,
  RemoteTrack, Kind, audio, video, other_kind, Receiver, describe_track, get_stream, on_track,
}
use shig.Rtp.InfoRepository.{
  by_ingress_track_id, InfoRepository, set_info, get_sdp_info_by_ingress_track_id, modify_by,
  find_by,
}

-- Every description is of the receiver's session.
abbrev pub IsOwn : Receiver → Type 0
IsOwn r = All (λ e. e.1.session_id ≡ r.id) r.infos

abbrev pub OwnTrack : Uuid → Option TrackInfo → Type 0
OwnTrack id none = Unit
OwnTrack id (some info) = info.session_id ≡ id

All-modify_by :
    {P : TrackSdpInfo → Type 0} (fits : (i : TrackSdpInfo) → Dec (P i))
    (f : TrackSdpInfo → TrackSdpInfo) (id : Uuid) (r : InfoRepository)
    → ((i : TrackSdpInfo) → i.session_id ≡ id → (f i).session_id ≡ id)
    → All (λ e. e.1.session_id ≡ id) r
    → All (λ e. e.1.session_id ≡ id) (modify_by fits f r)
unfolding modify_by
All-modify_by fits f id [] keep h = tt
All-modify_by fits f id ((k, i) ∷ r) keep h = elim (fits i) [
  | yes p ↦ rw (if_pos _ p) (keep i h.0, h.1)
  | no p ↦ rw (if_neg _ p) (h.0, All-modify_by fits f id r keep h.1)
]

find_by-All :
    {P : TrackSdpInfo → Type 0} (fits : (i : TrackSdpInfo) → Dec (P i)) (id : Uuid)
    (r : InfoRepository) (i : TrackSdpInfo)
    → All (λ e. e.1.session_id ≡ id) r
    → find_by fits r ≡ some i
    → i.session_id ≡ id
unfolding find_by
find_by-All fits id [] i h e = absurd (cc e)
find_by-All fits id ((k, j) ∷ r) i h e = elim (fits j) [
  | yes p ↦ ground (arith, rw (if_pos _ p) at e, h.0)
  | no p ↦ find_by-All fits id r i h.1 (rw (if_neg _ p) at e)
]

describe_track-IsOwn :
    (fresh : Uuid) (t : RemoteTrack) (r : Receiver)
    → IsOwn r
    → IsOwn (describe_track fresh t r).0
      × ((describe_track fresh t r).1.session_id ≡ r.id)
      × ((describe_track fresh t r).0.id ≡ r.id)
      × ((describe_track fresh t r).0.streams ≡ r.streams)
unfolding describe_track get_sdp_info_by_ingress_track_id set_info new_track_sdp_info
describe_track-IsOwn fresh t r h =
    elim (Option-cases (find_by (by_ingress_track_id t.id) r.infos)) [
      | inl p ↦ rw (p, describe_track) (All-insert _ fresh _ r.infos refl h, refl, refl, refl)
      | inr (i, p) ↦
          rw (p, describe_track)
            (
              All-modify_by (by_ingress_track_id t.id)
                  (λ (i : TrackSdpInfo). record i { ingress_mid = t.mid }) r.id r.infos (λ i e. e)
                  h,
              find_by-All (by_ingress_track_id t.id) r.id r.infos i h p,
              refl,
              refl,
            )
    ]

dispatched-info :
    (k : Kind) (i : TrackSdpInfo) (s : MediaStream) (info : TrackInfo)
    → dispatched k i s ≡ some info
    → info.sdp_info ≡ i
unfolding dispatched
dispatched-info audio i s info e = ground arith
dispatched-info video i s info e = ground arith
dispatched-info other_kind i s info e = absurd (cc e)

-- How the receiver ends: the stream is stored, and what is dispatched has the description.
finish_cases :
    (t : RemoteTrack) (i : TrackSdpInfo) (r : Receiver) (s : MediaStream) (b : Bool) (r' : Receiver)
    (found : Option TrackInfo)
    → finish t i r (s, b) ≡ some (r', found)
    → (r'.infos ≡ r.infos)
      × (r'.id ≡ r.id)
      × (r'.streams ≡ insert t.stream_id s r.streams)
      × ((found ≡ none)
          ⊎ ((info : TrackInfo) × (found ≡ some info)
              × (info.sdp_info ≡ i)
              × (b ≡ true)
              × (dispatched t.kind i s ≡ some info)))
unfolding finish
finish_cases t i r s false r' found e =
    (ground arith, ground arith, ground arith, inl (ground arith))
finish_cases t i r s true r' found e = elim (Option-cases (dispatched t.kind i s)) [
  | inl p ↦ absurd (ground arith)
  | inr (info, p) ↦ (
    ground arith,
    ground arith,
    ground arith,
    inr (info, ground arith, dispatched-info t.kind i s info p, refl, p),
  )
]

-- What a track's arrival leaves and dispatches, whatever pion and the codec do.
on_track-OwnTrack :
    (f g : Uuid) (t : RemoteTrack) (r r' : Receiver) (found : Option TrackInfo)
    → IsOwn r
    → on_track f g t r ≡ some (r', found)
    → IsOwn r' × (r'.id ≡ r.id) × OwnTrack r.id found
unfolding on_track
on_track-OwnTrack f g t r r' found h e =
    let own = describe_track-IsOwn f t r h in
    let r1 = (describe_track f t r).0 in
    let i = (describe_track f t r).1 in
    let w = write_kind t.kind t.made (get_stream g t.stream_id i t.kind r1) in
    let (infos, id, _, way) = finish_cases t i r1 w.0 w.1 r' found e in
    (
      subst₂ (λ (x : Uuid) (y : InfoRepository). All (λ d. d.1.session_id ≡ x) y) (sym id)
          (sym infos) own.0,
      id ∙ own.2,
      elim way [
        | inl p ↦ subst (OwnTrack r.id) (sym p) tt
        | inr (info, p, same, _, _) ↦
            subst (OwnTrack r.id) (sym p) (ap (λ (x : TrackSdpInfo). x.session_id) same ∙ own.1)
      ],
    )

abbrev pub Arrivals : Type 0
Arrivals = List (Uuid × Uuid × RemoteTrack)

log_found :
    RemoteTrack
    → Option TrackInfo
    → Option (Receiver × List (RemoteTrack × TrackInfo))
    → Option (Receiver × List (RemoteTrack × TrackInfo))
log_found t found none = none
log_found t none (some (r, log)) = some (r, log)
log_found t (some info) (some (r, log)) = some (r, (t, info) ∷ log)

-- The tracks that are dispatched while remote tracks arrive, each with the remote track.
unfoldable pub on_tracks : Arrivals → Receiver → Option (Receiver × List (RemoteTrack × TrackInfo))
unfolding log_found
on_tracks [] r = some (r, [])
on_tracks ((f, g, t) ∷ ts) r = elim (on_track f g t r) [
  | none ↦ none
  | some (r', found) ↦ log_found t found (on_tracks ts r')
]

log_found-cases :
    (t : RemoteTrack) (found : Option TrackInfo)
    (rest : Option (Receiver × List (RemoteTrack × TrackInfo))) (r' : Receiver)
    (log : List (RemoteTrack × TrackInfo))
    → log_found t found rest ≡ some (r', log)
    → (tail : List (RemoteTrack × TrackInfo)) × (rest ≡ some (r', tail))
      × (((found ≡ none) × (log ≡ tail))
          ⊎ ((info : TrackInfo) × (found ≡ some info) × (log ≡ (t, info) ∷ tail)))
unfolding log_found
log_found-cases t found none r' log e = absurd (cc e)
log_found-cases t none (some (q, tail)) r' log e = (tail, ground arith, inl (refl, ground arith))
log_found-cases t (some info) (some (q, tail)) r' log e =
    (tail, ground arith, inr (info, refl, ground arith))

abbrev pub FromSession : Uuid → List (RemoteTrack × TrackInfo) → Type 0
FromSession id = All (λ e. e.1.session_id ≡ id)

-- Every track that a receiver dispatches has a description of the receiver's session.
pub on_tracks-FromSession :
    (ts : Arrivals) (r r' : Receiver) (log : List (RemoteTrack × TrackInfo))
    → IsOwn r
    → on_tracks ts r ≡ some (r', log)
    → FromSession r.id log
unfolding on_tracks
on_tracks-FromSession [] r r' log h e =
    let nothing : [] ≡ log = ground arith in subst (FromSession r.id) nothing tt
on_tracks-FromSession ((f, g, t) ∷ ts) r r' log h e = elim (Option-cases (on_track f g t r)) [
  | inl p ↦ absurd (ground arith)
  | inr ((r1, found), p) ↦
      let (own, id, mine) = on_track-OwnTrack f g t r r1 found h p in
      let (tail, more, way) = log_found-cases t found (on_tracks ts r1) r' log (ground arith) in
      let rest : FromSession r.id tail =
        subst (λ (k : Uuid). FromSession k tail) id
          (on_tracks-FromSession ts r1 r' tail own more) in
      elim way [
        | inl (_, q) ↦ subst (FromSession r.id) (sym q) rest
        | inr (info, q, l) ↦ subst (FromSession r.id) (sym l) (subst (OwnTrack r.id) q mine, rest)
      ]
]
