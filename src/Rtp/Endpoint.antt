-- ===== src/Rtp/Endpoint.antt =====
-- internal/rtp/endpoint.go: the tracks that an endpoint sends, their descriptions, and the flag that
-- the first exchange is complete. pion's connection is the interface `Peer`. The calls to the
-- registry of stats workers are kept as a log, in their order. Spans, logs, the callbacks that pion
-- fires and the teardown in `Destruct` are not modelled.
pub mod Tracks
pub mod Race
use shig.Common.{
  map, not, suc, ◌||◌, Text-discrete, if◌then◌else◌, ◌&&◌, ◌++◌, ℕ, ◌+◌, Uuid, Text, ◌≡◌, ◌≤◌, Bool,
  true, false, Option, none, some, List, [], ◌∷◌, ite, Map,
}
use shig.Rtp.Track.{TrackSdpInfo, TrackInfo, EndpointType}
use shig.Rtp.InfoRepository.{
  InfoRepository, set_info, get_info, delete_info, modify_by, by_ingress_mid,
  get_track_sdp_info_by_ingress_mid,
}

-- GetSenders: each sender's handle and the id of its track, if it has one.
abbrev pub Senders : Type 0
Senders = List (ℕ × Option Text)

-- How many senders hold a track.
unfoldable pub occurrences : Text → Senders → ℕ
occurrences t [] = 0
occurrences t ((s, none) ∷ l) = occurrences t l
occurrences t ((s, some u) ∷ l) =
    let rest = occurrences t l in ite (Text-discrete u t) (suc rest) rest

-- The loops of `hasTrack` and `getSender`.
unfoldable pub has_sender : Text → Senders → Bool
has_sender t [] = false
has_sender t ((s, none) ∷ l) = has_sender t l
has_sender t ((s, some u) ∷ l) = ite (Text-discrete u t) true (has_sender t l)

unfoldable pub find_sender : Text → Senders → Option ℕ
find_sender t [] = none
find_sender t ((s, none) ∷ l) = find_sender t l
find_sender t ((s, some u) ∷ l) = ite (Text-discrete u t) (some s) (find_sender t l)

-- pion's PeerConnection, as far as the endpoint uses it, with what its documentation promises:
-- AddTrack puts the track on one sender, which it returns, and RemoveTrack takes a sender's track
-- away; neither touches another track. A failed call (`none`) leaves the connection as it was.
pub record Peer (C : Type 0) : Type 0 where
  pub senders : C → Senders
  pub add_track : C → Text → Option (ℕ × Text × C)
  pub remove_track : C → ℕ → Option C
  pub mid_of : C → ℕ → Option Text
  pub encodings : C → ℕ → List ℕ
  pub add_law :
      (c c' : C) (s : ℕ) (t tid u : Text)
      → add_track c t ≡ some (s, tid, c')
      → (tid ≡ t)
        × (occurrences u (senders c') ≡ occurrences u (senders c) + ite (Text-discrete t u) 1 0)
  pub remove_law :
      (c c' : C) (s : ℕ) (t u : Text)
      → remove_track c s ≡ some c'
      → find_sender t (senders c) ≡ some s
      → occurrences u (senders c') + ite (Text-discrete t u) 1 0 ≡ occurrences u (senders c)
  pub remove_le :
      (c c' : C) (s : ℕ) (u : Text)
      → remove_track c s ≡ some c'
      → occurrences u (senders c') ≤ occurrences u (senders c)

-- StartWorker and StopWorker of the stats registry.
pub data WorkerCall : Type 0 where
  start_worker stop_worker : ℕ → WorkerCall

-- `stats` is `none` where the endpoint has no registry.
pub record Endpoint (C : Type 0) : Type 0 where
  pub endpoint_type : EndpointType
  pub infos : InfoRepository
  pub init_complete : Bool
  pub conn : C
  pub stats : Option (List WorkerCall)

-- SetInitComplete does nothing on a closed session.
unfoldable pub set_init_complete : {C : Type 0} → Bool → Endpoint C → Endpoint C
set_init_complete session_done e =
    if e.init_complete || session_done then e else record e { init_complete = true }

-- IsInitComplete; where both channels are ready, Go's select takes either, as `closed_wins` says.
unfoldable pub is_init_complete : {C : Type 0} → Bool → Bool → Endpoint C → Bool
is_init_complete session_done closed_wins e = e.init_complete && not (session_done && closed_wins)

-- The labels of the workers are not kept.
log_workers : (ℕ → WorkerCall) → List ℕ → Option (List WorkerCall) → Option (List WorkerCall)
log_workers call ssrcs none = none
log_workers call ssrcs (some log) = some (log ++ map call ssrcs)

module _ {C : Type 0} (pc : Peer C) where
  unfoldable pub has_track : Endpoint C → Text → Bool
  has_track e t = has_sender t (pc.senders e.conn)

  unfoldable pub get_sender : Endpoint C → Text → Option ℕ
  get_sender e t = find_sender t (pc.senders e.conn)

  -- The description of a track that is sent: the ids of its sender's track and transceiver.
  unfoldable pub egress_info : TrackInfo → Text → Option Text → TrackSdpInfo
  egress_info info tid none = record info.sdp_info { egress_track_id = tid }
  egress_info info tid (some mid) = record info.sdp_info { egress_track_id = tid; egress_mid = mid }

  -- AddTrack after its test.
  unfoldable pub put_track : Endpoint C → TrackInfo → Endpoint C
  unfolding egress_info log_workers
  put_track e info = elim (pc.add_track e.conn info.track) [
    | none ↦ e
    | some (s, tid, c) ↦ record e {
      conn = c;
      infos = set_info info.id (egress_info info tid (pc.mid_of c s)) e.infos;
      stats = log_workers start_worker (pc.encodings c s) e.stats;
    }
  ]

  -- AddTrack and RemoveTrack hold no lock, and the goroutine that setupOnNegotiationNeeded starts
  -- adds tracks beside the hub. These are their calls if no other comes in between; Race has the
  -- calls in two steps.
  unfoldable pub add_track : Endpoint C → TrackInfo → Endpoint C
  unfolding has_track put_track
  add_track e info = if has_track e info.track then e else put_track e info

  -- The connection after a call that may fail.
  after_remove : C → Option C → C
  after_remove c none = c
  after_remove c (some c') = c'

  -- RemoveTrack after it has found the sender.
  unfoldable pub drop_sender : Endpoint C → TrackInfo → ℕ → Endpoint C
  unfolding after_remove log_workers
  drop_sender e info s =
      let c = after_remove e.conn (pc.remove_track e.conn s) in
      record e {
        infos = (delete_info info.id e.infos).0;
        conn = c;
        stats = log_workers stop_worker (pc.encodings c s) e.stats;
      }

  unfoldable pub remove_track : Endpoint C → TrackInfo → Endpoint C
  unfolding get_sender drop_sender
  remove_track e info = elim (get_sender e info.track) [ none ↦ e | some s ↦ drop_sender e info s ]

-- Both return the description with its new flag, in a `TrackInfo` without a track.
unfoldable pub set_ingress_mute :
    {C : Type 0} → Endpoint C → Text → Bool → Endpoint C × Option TrackSdpInfo
set_ingress_mute e mid mute = elim (get_track_sdp_info_by_ingress_mid mid e.infos) [
  | none ↦ (e, none)
  | some i ↦ (
    record e { infos = modify_by (by_ingress_mid mid) (λ j. record j { mute = mute }) e.infos },
    some (record i { mute = mute }),
  )
]

unfoldable pub set_egress_mute :
    {C : Type 0} → Endpoint C → Uuid → Bool → Endpoint C × Option TrackSdpInfo
set_egress_mute e id mute = elim (get_info id e.infos) [
  | none ↦ (e, none)
  | some i ↦ (
    record e { infos = set_info id (record i { mute = mute }) e.infos },
    some (record i { mute = mute }),
  )
]
