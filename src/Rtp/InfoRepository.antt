-- ===== src/Rtp/InfoRepository.antt =====
-- internal/rtp/track_sdp_info_repository.go. The map holds pointers: a write through a pointer that
-- a search returned is `modify_by` of the same search. Locks are not modelled: each method holds
-- the lock from its first statement to its last.
use shig.Common.{
  text_key, uuid_key, ℕ, Uuid, Text, ◌≡◌, refl, Bool, true, false, Option, none, some, [], ◌∷◌, ite,
  arith, Map, lookup, insert, delete, is_some, length, if◌then◌else◌, Text-discrete,
}
use shig.Rtp.Track.{TrackSdpInfo}

abbrev pub InfoRepository : Type 0
InfoRepository = Map Uuid TrackSdpInfo

unfoldable pub set_info : Uuid → TrackSdpInfo → InfoRepository → InfoRepository
set_info = insert

unfoldable pub get_info : Uuid → InfoRepository → Option TrackSdpInfo
get_info = lookup

unfoldable pub delete_info : Uuid → InfoRepository → InfoRepository × Bool
delete_info id r = if is_some (lookup id r) then (delete id r, true) else (r, false)

unfoldable pub contains_info : Uuid → InfoRepository → Bool
contains_info id r = is_some (lookup id r)

unfoldable pub len_info : InfoRepository → ℕ
len_info = length

-- The loops of the three searches: the first entry that fits.
module _ {P : TrackSdpInfo → Type 0} (fits : (i : TrackSdpInfo) → Dec (P i)) where
  unfoldable pub find_by : InfoRepository → Option TrackSdpInfo
  find_by [] = none
  find_by ((k, i) ∷ r) = ite (fits i) (some i) (find_by r)

  unfoldable pub modify_by : (TrackSdpInfo → TrackSdpInfo) → InfoRepository → InfoRepository
  modify_by f [] = []
  modify_by f ((k, i) ∷ r) = ite (fits i) ((k, f i) ∷ r) ((k, i) ∷ modify_by f r)

  -- A write through the pointer that a search returned does not change which keys are there.
  pub lookup-modify_by :
      (f : TrackSdpInfo → TrackSdpInfo) (r : InfoRepository) (k : Uuid)
      → is_some (lookup k (modify_by f r)) ≡ is_some (lookup k r)
  unfolding modify_by lookup
  lookup-modify_by f [] k = refl
  lookup-modify_by f ((j, i) ∷ r) k = ground (arith, lookup-modify_by f r k)

abbrev pub by_egress_track_id : (t : Text) (i : TrackSdpInfo) → Dec (i.egress_track_id ≡ t)
by_egress_track_id t i = Text-discrete i.egress_track_id t

abbrev pub by_ingress_track_id : (t : Text) (i : TrackSdpInfo) → Dec (i.ingress_track_id ≡ t)
by_ingress_track_id t i = Text-discrete i.ingress_track_id t

abbrev pub by_ingress_mid : (t : Text) (i : TrackSdpInfo) → Dec (i.ingress_mid ≡ t)
by_ingress_mid t i = Text-discrete i.ingress_mid t

unfoldable pub get_sdp_info_by_egress_track_id : Text → InfoRepository → Option TrackSdpInfo
get_sdp_info_by_egress_track_id t = find_by (by_egress_track_id t)

unfoldable pub get_track_sdp_info_by_ingress_mid : Text → InfoRepository → Option TrackSdpInfo
get_track_sdp_info_by_ingress_mid mid = find_by (by_ingress_mid mid)

unfoldable pub get_sdp_info_by_ingress_track_id : Text → InfoRepository → Option TrackSdpInfo
get_sdp_info_by_ingress_track_id t = find_by (by_ingress_track_id t)
