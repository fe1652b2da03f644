-- ===== src/Sessions/Hub/Echo.antt =====
-- The path of a track from the participant's offer to the hub.
use shig.Common.{Uuid, ◌≡◌, Bool, some, List, [], ◌∷◌, ℕ, All, arith}
use shig.Rtp.Track.{TrackInfo}
use shig.Rtp.Sdp.{MediaDescription}
use shig.Rtp.Sdp
use shig.Rtp.Sdp.Ingress.{IsWellKeyed, ingress-IsWellKeyed}
use shig.Rtp.InfoRepository.{InfoRepository}
use shig.Rtp.Endpoint.{Peer}
use shig.Rtp.Receiver.{Receiver, RemoteTrack, new_receiver}
use shig.Rtp.Receiver.Dispatching.{FromSession, Arrivals, on_tracks, on_tracks-FromSession}
use shig.Sessions.Session.{Session}
use shig.Sessions.Hub.{deliver_add, is_receiver, filter_for_session}

IsWellKeyed-own :
    (id : Uuid) (r : InfoRepository) → IsWellKeyed id r → All (λ e. e.1.session_id ≡ id) r
IsWellKeyed-own id [] h = tt
IsWellKeyed-own id (e ∷ r) h = (h.0.1, IsWellKeyed-own id r h.1)

module _ {C : Type 0} (pc : Peer C) (enabled : Bool) (wins : Uuid → Bool) (s : Session C) where
  deliver_own : (info : TrackInfo) → info.session_id ≡ s.id → deliver_add pc enabled wins info s ≡ s
  unfolding deliver_add is_receiver filter_for_session
  deliver_own info e = ground arith

  deliver-All :
      (log : List (RemoteTrack × TrackInfo))
      → FromSession s.id log
      → All (λ e. deliver_add pc enabled wins e.1 s ≡ s) log
  deliver-All [] h = tt
  deliver-All (e ∷ log) h = (deliver_own e.1 h.0, deliver-All log h.1)

  -- Whatever a participant's offer says, and whichever tracks then arrive on the connection, each
  -- track that the receiver dispatches leaves the participant's own session as it was when the hub
  -- delivers it.
  pub on_tracks-no_echo :
      (fresh : ℕ → Uuid) (n : ℕ) (ds : List MediaDescription) (ts : Arrivals) (r' : Receiver)
      (log : List (RemoteTrack × TrackInfo))
      → on_tracks ts (new_receiver s.id (Sdp.get_ingress_track_sdp_info fresh n s.id ds []))
        ≡ some (r', log)
      → All (λ e. deliver_add pc enabled wins e.1 s ≡ s) log
  unfolding new_receiver
  on_tracks-no_echo fresh n ds ts r' log e = deliver-All log (
      on_tracks-FromSession ts
        (new_receiver s.id (Sdp.get_ingress_track_sdp_info fresh n s.id ds [])) r' log
        (IsWellKeyed-own s.id _ (ingress-IsWellKeyed fresh n s.id ds [] tt)) e)
