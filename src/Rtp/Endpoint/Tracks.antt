-- ===== src/Rtp/Endpoint/Tracks.antt =====
-- Which tracks an endpoint sends after AddTrack and RemoveTrack.
use mathlib.Core.Option
use shig.Common.{
  text_key, uuid_key, lookup-insert, ℕ_discrete, ite, Uuid, List, [], ◌∷◌, inr, inl, Option-cases,
  is_some, ltb, ◌≤◌, ◌∙◌, All, ℕ, Text, ◌≡◌, ◌≢◌, refl, Bool, true, false, none, some, arith,
}
use shig.Rtp.Track.{TrackSdpInfo, TrackInfo}
use shig.Rtp.InfoRepository.{get_info, set_info}
use shig.Rtp.Endpoint.{
  set_egress_mute, set_info, get_info, set_egress_mute, Senders, occurrences, has_sender,
  find_sender, Peer, Endpoint, has_track, get_sender, add_track, remove_track, put_track,
}

pub has_sender_iff : (t : Text) (l : Senders) → has_sender t l ≡ ltb 0 (occurrences t l)
unfolding has_sender occurrences
has_sender_iff t [] = refl
has_sender_iff t ((s, none) ∷ l) = has_sender_iff t l
has_sender_iff t ((s, some u) ∷ l) = ground (arith, has_sender_iff t l)

find_sender_iff : (t : Text) (l : Senders) → is_some (find_sender t l) ≡ ltb 0 (occurrences t l)
unfolding find_sender occurrences
find_sender_iff t [] = refl
find_sender_iff t ((s, none) ∷ l) = find_sender_iff t l
find_sender_iff t ((s, some u) ∷ l) = ground (arith, find_sender_iff t l)

module _ {C : Type 0} (pc : Peer C) where
  -- How often an endpoint sends a track.
  abbrev pub sends : Endpoint C → Text → ℕ
  sends e t = occurrences t (pc.senders e.conn)

  -- No track is sent twice.
  abbrev pub IsSingle : Endpoint C → Type 0
  IsSingle e = (t : Text) → sends e t ≤ 1

  -- AddTrack never puts a track on a second sender.
  pub add_track-IsSingle :
      (e : Endpoint C) (info : TrackInfo) → IsSingle e → IsSingle (add_track pc e info)
  unfolding add_track
  add_track-IsSingle e info h u = elim (Option-cases (pc.add_track e.conn info.track)) [
    | inl p ↦ ground (arith, h u)
    | inr ((s, tid, c), p) ↦
        ground (
          arith,
          h u,
          has_sender_iff u (pc.senders e.conn),
          pc.add_law e.conn c s info.track tid u p,
        )
  ]

  -- RemoveTrack never puts a track on a sender.
  pub sends-remove_le :
      (e : Endpoint C) (info : TrackInfo) (u : Text) → sends (remove_track pc e info) u ≤ sends e u
  unfolding remove_track
  sends-remove_le e info u = elim (Option-cases (get_sender pc e info.track)) [
    | inl p ↦ rw (p, remove_track) (omega arith)
    | inr (s, p) ↦ elim (Option-cases (pc.remove_track e.conn s)) [
      | inl q ↦ rw (p, q, remove_track) (omega arith)
      | inr (c, q) ↦
          rw (p, q, remove_track) (ground (arith, pc.remove_law e.conn c s info.track u q p))
    ]
  ]

  -- The additions of the goroutine that setupOnNegotiationNeeded starts, each with its test passed.
  unfoldable pub put_tracks : List TrackInfo → Endpoint C → Endpoint C
  unfolding put_track
  put_tracks [] e = e
  put_tracks (i ∷ is) e = put_tracks is (put_track pc e i)

  put_track-other :
      (e : Endpoint C) (i : TrackInfo) (u : Text)
      → i.track ≢ u
      → sends (put_track pc e i) u ≡ sends e u
  unfolding put_track
  put_track-other e i u ne = elim (Option-cases (pc.add_track e.conn i.track)) [
    | inl p ↦ ground arith
    | inr ((s, tid, c), p) ↦ ground (arith, pc.add_law e.conn c s i.track tid u p)
  ]

  put_tracks-other :
      (is : List TrackInfo) (e : Endpoint C) (u : Text)
      → All (λ (i : TrackInfo). i.track ≢ u) is
      → sends (put_tracks is e) u ≡ sends e u
  unfolding put_tracks
  put_tracks-other [] e u h = refl
  put_tracks-other (i ∷ is) e u h =
      put_tracks-other is (put_track pc e i) u h.1 ∙ put_track-other e i u h.0

  -- What is not sent stays so while other tracks are added.
  pub has_track-put_tracks :
      (is : List TrackInfo) (e : Endpoint C) (u : Text)
      → All (λ (i : TrackInfo). i.track ≢ u) is
      → has_track pc e u ≡ false
      → has_track pc (put_tracks is e) u ≡ false
  unfolding has_track
  has_track-put_tracks is e u h n = ground (
    arith,
    put_tracks-other is e u h,
    has_sender_iff u (pc.senders e.conn),
    has_sender_iff u (pc.senders (put_tracks is e).conn),
  )

  pub add_track-sends :
      (e : Endpoint C) (info : TrackInfo)
      → is_some (pc.add_track e.conn info.track) ≡ true
      → (has_track pc (add_track pc e info) info.track ≡ true)
        × ((u : Text) → info.track ≢ u → sends (add_track pc e info) u ≡ sends e u)
  unfolding add_track
  add_track-sends e info accepted = elim (Option-cases (pc.add_track e.conn info.track)) [
    | inl p ↦ absurd (cc)
    | inr ((s, tid, c), p) ↦ (
      ground (
        arith,
        has_sender_iff info.track (pc.senders e.conn),
        has_sender_iff info.track (pc.senders c),
        pc.add_law e.conn c s info.track tid info.track p,
      ),
      λ u ne. ground (arith, pc.add_law e.conn c s info.track tid u p),
    )
  ]

  -- If pion takes the track, the endpoint sends it after AddTrack, and every other track as often as
  -- before, whether or not it sent the track already.
  pub sends-add :
      (e : Endpoint C) (info : TrackInfo) (u : Text)
      → is_some (pc.add_track e.conn info.track) ≡ true
      → info.track ≢ u
      → (has_track pc (add_track pc e info) info.track ≡ true)
        × (sends (add_track pc e info) u ≡ sends e u)
  sends-add e info u accepted ne =
      let both = add_track-sends e info accepted in (both.0, both.1 u ne)

  pub remove_track-sends :
      (e : Endpoint C) (info : TrackInfo)
      → IsSingle e
      → ((s : ℕ) → is_some (pc.remove_track e.conn s) ≡ true)
      → (has_track pc (remove_track pc e info) info.track ≡ false)
        × ((u : Text) → info.track ≢ u → sends (remove_track pc e info) u ≡ sends e u)
  unfolding remove_track has_track
  remove_track-sends e info single accepted = elim (Option-cases (get_sender pc e info.track)) [
    | inl p ↦
        rw (p, remove_track)
          (
            ground (
              arith,
              has_sender_iff info.track (pc.senders e.conn),
              find_sender_iff info.track (pc.senders e.conn),
            ),
            λ u ne. refl,
          )
    | inr (s, p) ↦ elim (Option-cases (pc.remove_track e.conn s)) [
      | inl q ↦ absurd (cc (accepted s))
      | inr (c, q) ↦
          rw (p, q, remove_track)
            (
              ground (
                arith,
                single info.track,
                has_sender_iff info.track (pc.senders c),
                pc.remove_law e.conn c s info.track info.track q p,
              ),
              λ u ne. ground (arith, pc.remove_law e.conn c s info.track u q p),
            )
    ]
  ]

  -- An endpoint that sends no track twice does not send the track after RemoveTrack, if pion takes
  -- the call for every sender, and sends every other track as often as before.
  pub sends-remove :
      (e : Endpoint C) (info : TrackInfo) (u : Text)
      → IsSingle e
      → ((s : ℕ) → is_some (pc.remove_track e.conn s) ≡ true)
      → info.track ≢ u
      → (has_track pc (remove_track pc e info) info.track ≡ false)
        × (sends (remove_track pc e info) u ≡ sends e u)
  sends-remove e info u single accepted ne =
      let both = remove_track-sends e info single accepted in (both.0, both.1 u ne)

-- SetEgressMute on a described track sets its flag, returns the description with the flag set, and
-- leaves every other description; on an unknown id it changes nothing and returns none.
pub get_info-set_egress_mute :
    {C : Type 0} (e : Endpoint C) (id k : Uuid) (mute : Bool)
    → (get_info k (set_egress_mute e id mute).0.infos
        ≡ ite (ℕ_discrete id k) (set_egress_mute e id mute).1 (get_info k e.infos))
      × ((set_egress_mute e id mute).1
          ≡ Option.map {A = TrackSdpInfo} (λ i. record i { mute = mute }) (get_info id e.infos))
unfolding set_egress_mute get_info set_info
get_info-set_egress_mute e id k mute = elim (Option-cases (get_info id e.infos)) [
  | inl p ↦ ground (arith)
  | inr (i, p) ↦
      ground (arith, lookup-insert {V = TrackSdpInfo} id k (record i { mute = mute }) e.infos)
]
