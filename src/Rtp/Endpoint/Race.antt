-- ===== src/Rtp/Endpoint/Race.antt =====
-- internal/rtp/endpoint.go and establish_endpoint.go: two goroutines call AddTrack of one endpoint
-- without a lock, that of the hub and the one that setupOnNegotiationNeeded starts, which adds the
-- tracks that the hub listed. RemoveTrack is called by the hub's only. A call is two steps, its test
-- and the call of pion, and the steps of the two goroutines come in any order. pion's own calls hold
-- its lock.
use shig.Common.{
  ite, Text-discrete, ℕ, ◌+◌, ◌≤◌, Text, ◌≡◌, none, some, List, [], ◌∷◌, if◌then◌else◌, arith, inl,
  inr, Option-cases,
}
use shig.Rtp.Track.{TrackInfo}
use shig.Rtp.Endpoint.{Peer, Endpoint, has_track, get_sender, put_track, drop_sender}
use shig.Rtp.Endpoint.Tracks.{sends, has_sender_iff}

-- What a goroutine is in the midst of: AddTrack with its test passed, or RemoveTrack with the sender
-- that it found.
pub data Doing : Type 0 where
  idle : Doing
  adding : TrackInfo → Doing
  removing : TrackInfo → ℕ → Doing

pub record Calls (C : Type 0) : Type 0 where
  pub endpoint : Endpoint C
  pub hub : Doing
  pub setup : Doing

-- A step of one of the goroutines: it begins a call, or ends the one that it is in.
pub data Move : Type 0 where
  hub_adds hub_removes setup_adds : TrackInfo → Move
  hub_ends setup_ends : Move

module _ {C : Type 0} (pc : Peer C) where
  unfoldable pub begin_add : Endpoint C → TrackInfo → Doing → Doing
  begin_add e info idle = if has_track pc e info.track then idle else adding info
  begin_add e info d = d

  unfoldable pub begin_remove : Endpoint C → TrackInfo → Doing → Doing
  begin_remove e info idle = elim (get_sender pc e info.track) [
    | none ↦ idle
    | some s ↦ removing info s
  ]
  begin_remove e info d = d

  unfoldable pub end_call : Doing → Endpoint C → Endpoint C
  unfolding put_track drop_sender
  end_call idle e = e
  end_call (adding info) e = put_track pc e info
  end_call (removing info s) e = drop_sender pc e info s

  unfoldable pub move : Move → Calls C → Calls C
  unfolding begin_add begin_remove end_call
  move (hub_adds info) c = record c { hub = begin_add c.endpoint info c.hub }
  move (hub_removes info) c = record c { hub = begin_remove c.endpoint info c.hub }
  move (setup_adds info) c = record c { setup = begin_add c.endpoint info c.setup }
  move hub_ends c = record c { endpoint = end_call c.hub c.endpoint; hub = idle }
  move setup_ends c = record c { endpoint = end_call c.setup c.endpoint; setup = idle }

  unfoldable pub moves : List Move → Calls C → Calls C
  unfolding move
  moves [] c = c
  moves (m ∷ ms) c = moves ms (move m c)

  -- How often a goroutine is about to add a track.
  abbrev pub pending : Text → Doing → ℕ
  pending t (adding info) = ite (Text-discrete info.track t) 1 0
  pending t _ = 0

  -- The senders of a track, and those to come.
  abbrev pub total : Text → Calls C → ℕ
  total t c = sends pc c.endpoint t + (pending t c.hub + pending t c.setup)

  pending_le : (t : Text) (d : Doing) → pending t d ≤ 1
  pending_le t idle = omega arith
  pending_le t (adding info) = ground arith
  pending_le t (removing info s) = omega arith

  begin_add-pending :
      (t : Text) (e : Endpoint C) (info : TrackInfo) (d : Doing) (n : ℕ)
      → n ≤ 1
      → sends pc e t + (pending t d + n) ≤ 2
      → sends pc e t + (pending t (begin_add e info d) + n) ≤ 2
  unfolding begin_add has_track
  begin_add-pending t e info idle n le h = ground (arith, has_sender_iff t (pc.senders e.conn))
  begin_add-pending t e info (adding i) n le h = h
  begin_add-pending t e info (removing i s) n le h = h

  begin_remove-pending :
      (t : Text) (e : Endpoint C) (info : TrackInfo) (d : Doing)
      → pending t (begin_remove e info d) ≤ pending t d
  unfolding begin_remove
  begin_remove-pending t e info idle = ground arith
  begin_remove-pending t e info (adding i) = omega arith
  begin_remove-pending t e info (removing i s) = omega arith

  end_call-sends :
      (t : Text) (d : Doing) (e : Endpoint C)
      → sends pc (end_call d e) t ≤ sends pc e t + pending t d
  unfolding end_call
  end_call-sends t idle e = omega arith
  end_call-sends t (adding info) e = elim (Option-cases (pc.add_track e.conn info.track)) [
    | inl p ↦ ground arith
    | inr ((s, tid, c), p) ↦ ground (arith, pc.add_law e.conn c s info.track tid t p)
  ]
  end_call-sends t (removing info s) e = elim (Option-cases (pc.remove_track e.conn s)) [
    | inl p ↦ ground arith
    | inr (c, p) ↦ ground (arith, pc.remove_le e.conn c s t p)
  ]

  move-total : (t : Text) (m : Move) (c : Calls C) → total t c ≤ 2 → total t (move m c) ≤ 2
  unfolding move
  move-total t (hub_adds info) c h =
      begin_add-pending t c.endpoint info c.hub (pending t c.setup) (pending_le t c.setup) h
  move-total t (setup_adds info) c h =
      let le = pending_le t c.hub in
      let swapped =
        begin_add-pending t c.endpoint info c.setup (pending t c.hub) le (omega arith) in
      omega arith
  move-total t (hub_removes info) c h =
      let le = begin_remove-pending t c.endpoint info c.hub in omega arith
  move-total t hub_ends c h = let le = end_call-sends t c.hub c.endpoint in omega arith
  move-total t setup_ends c h = let le = end_call-sends t c.setup c.endpoint in omega arith

  moves-total : (t : Text) (ms : List Move) (c : Calls C) → total t c ≤ 2 → total t (moves ms c) ≤ 2
  unfolding moves
  moves-total t [] c h = h
  moves-total t (m ∷ ms) c h = moves-total t ms (move m c) (move-total t m c h)

  -- However the calls of AddTrack and RemoveTrack by the hub and of AddTrack by the goroutine that
  -- set up the endpoint interleave, and whichever of pion's calls fail, an endpoint that sends each
  -- track at most once while neither goroutine is in a call never sends a track more than twice.
  pub moves-IsTwice :
      (ms : List Move) (c : Calls C)
      → c.hub ≡ idle
      → c.setup ≡ idle
      → ((t : Text) → sends pc c.endpoint t ≤ 1)
      → (t : Text) → sends pc (moves ms c).endpoint t ≤ 2
  moves-IsTwice ms c i j h t =
      let one = h t in
      let start : total t c ≤ 2 = rw (i, j) (omega arith) in
      let all = moves-total t ms c start in omega arith
