-- ===== src/Rtp/Examples.antt =====
-- A connection that takes every call, and one input for each theorem on tracks and their labels.
use shig.Common.{
  true, ◌<◌, ◌≤◌, refl, if◌then◌else◌, ◌==◌, ite, Text-discrete, ℕ, Text, ◌≡◌, Option, none, some,
  List, [], ◌∷◌, arith, ◌+◌,
}
use shig.Rtp.Endpoint.{Endpoint, Peer, Senders, occurrences, find_sender, has_track, has_sender}
use shig.Rtp.Endpoint.Tracks.{IsSingle, sends}
use shig.Rtp.Endpoint.Race.{
  Move, Calls, hub_adds, setup_adds, hub_ends, setup_ends, hub_removes, idle, moves, moves-IsTwice,
}
use shig.Rtp.Track.{egress, new_track_sdp_info, TrackInfo}

-- One sender for each entry; the handle is the number of entries after it.
abbrev pub Slots : Type 0
Slots = List (Option Text)

unfoldable pub slot_count : Slots → ℕ
slot_count [] = 0
slot_count (t ∷ c) = slot_count c + 1

unfoldable pub slot_senders : Slots → Senders
unfolding slot_count
slot_senders [] = []
slot_senders (t ∷ c) = (slot_count c, t) ∷ slot_senders c

unfoldable pub clear : ℕ → Slots → Slots
unfolding slot_count
clear s [] = []
clear s (t ∷ c) = let rest = clear s c in if slot_count c == s then none ∷ c else t ∷ rest

find_sender_lt :
    (t : Text) (c : Slots) (s : ℕ) → find_sender t (slot_senders c) ≡ some s → s < slot_count c
unfolding find_sender slot_senders slot_count
find_sender_lt t [] s e = absurd (cc e)
find_sender_lt t (none ∷ c) s e = ground (arith, find_sender_lt t c s)
find_sender_lt t (some u ∷ c) s e = ground (arith, find_sender_lt t c s)

clear-occurrences :
    (c : Slots) (s : ℕ) (t u : Text)
    → find_sender t (slot_senders c) ≡ some s
    → occurrences u (slot_senders (clear s c)) + ite (Text-discrete t u) 1 0
      ≡ occurrences u (slot_senders c)
unfolding find_sender slot_senders occurrences clear
clear-occurrences [] s t u e = absurd (cc e)
clear-occurrences (none ∷ c) s t u e =
    ground (arith, clear-occurrences c s t u, find_sender_lt t c s)
clear-occurrences (some v ∷ c) s t u e =
    ground (arith, clear-occurrences c s t u, find_sender_lt t c s)

pub peer-add_law :
    (c c' : Slots) (s : ℕ) (t tid u : Text)
    → ◌≡◌ {A = Option (ℕ × Text × Slots)} (some (slot_count c, t, some t ∷ c)) (some (s, tid, c'))
    → (tid ≡ t)
      × (occurrences u (slot_senders c')
          ≡ occurrences u (slot_senders c) + ite (Text-discrete t u) 1 0)
unfolding occurrences slot_senders
peer-add_law c c' s t tid u e = ground arith

clear_le :
    (c : Slots) (s : ℕ) (u : Text)
    → occurrences u (slot_senders (clear s c)) ≤ occurrences u (slot_senders c)
unfolding slot_senders occurrences clear slot_count
clear_le [] s u = omega arith
clear_le (none ∷ c) s u = ground (arith, clear_le c s u)
clear_le (some v ∷ c) s u = ground (arith, clear_le c s u)

pub peer-remove_le :
    (c c' : Slots) (s : ℕ) (u : Text)
    → some (clear s c) ≡ some c'
    → occurrences u (slot_senders c') ≤ occurrences u (slot_senders c)
peer-remove_le c c' s u e = ground (arith, clear_le c s u)

pub peer-remove_law :
    (c c' : Slots) (s : ℕ) (t u : Text)
    → some (clear s c) ≡ some c'
    → find_sender t (slot_senders c) ≡ some s
    → occurrences u (slot_senders c') + ite (Text-discrete t u) 1 0 ≡ occurrences u (slot_senders c)
peer-remove_law c c' s t u e f = ground (arith, clear-occurrences c s t u f)

abbrev pub peer : Peer Slots
peer = record {
  senders = slot_senders;
  add_track = λ c t. some (slot_count c, t, some t ∷ c);
  remove_track = λ c s. some (clear s c);
  mid_of = λ c s. none;
  encodings = λ c s. s ∷ [];
  add_law = peer-add_law;
  remove_law = peer-remove_law;
  remove_le = peer-remove_le;
}

abbrev pub cam : Text
cam = 99 ∷ []

abbrev pub mic : Text
mic = 109 ∷ []

abbrev pub cam_info : TrackInfo
cam_info = record { sdp_info = new_track_sdp_info 7 1; track = cam }

abbrev pub idle_endpoint : Endpoint Slots
idle_endpoint = record {
  endpoint_type = egress;
  infos = [];
  init_complete = true;
  conn = [];
  stats = some [];
}

abbrev pub cam_endpoint : Endpoint Slots
cam_endpoint = record idle_endpoint { conn = some mic ∷ some cam ∷ [] }

pub cam_endpoint-IsSingle : IsSingle peer cam_endpoint
unfolding slot_senders occurrences slot_count
cam_endpoint-IsSingle t = ground (arith)

-- Both goroutines test for the camera's track before either adds it.
abbrev both_add : List Move
both_add = hub_adds cam_info ∷ setup_adds cam_info ∷ hub_ends ∷ setup_ends ∷ []

abbrev at_rest : Calls Slots
at_rest = record { endpoint = idle_endpoint; hub = idle; setup = idle }

abbrev with_cam : Calls Slots
with_cam = record at_rest { endpoint = cam_endpoint }

-- It is then sent twice.
sent_twice : sends peer (moves peer both_add at_rest).endpoint cam ≡ 2
unfolding moves slot_senders occurrences slot_count has_track has_sender Text-discrete
sent_twice = refl

moves-IsTwice_example :
    sends peer (moves peer (hub_removes cam_info ∷ setup_adds cam_info ∷ []) with_cam).endpoint cam
    ≤ 2
moves-IsTwice_example =
    moves-IsTwice peer (hub_removes cam_info ∷ setup_adds cam_info ∷ []) with_cam refl refl
      cam_endpoint-IsSingle cam
