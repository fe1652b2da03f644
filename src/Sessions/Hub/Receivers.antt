-- ===== src/Sessions/Hub/Receivers.antt =====
-- Which sessions send a track after its addition and after its removal.
use mathlib.Core.Option
use shig.Common.{
  Bool-cases, ◌⊎◌, inr, inl, Option-cases, is_some, text_key, uuid_key, lookup, ℕ, Uuid, ◌≡◌, refl,
  Text, Bool, true, false, Option, none, some, List, All, ◌≢◌, [], ◌∷◌, arith,
}
use shig.Rtp.Track.{TrackInfo}
use shig.Rtp.Endpoint.{Peer, Endpoint}
use shig.Rtp.Endpoint
use shig.Rtp.Endpoint.Tracks.{
  IsSingle, add_track-sends, remove_track-sends, put_tracks, has_track-put_tracks,
}
use shig.Sessions.Session.{Session, Slot}
use shig.Sessions.Session
use shig.Sessions.Repository.{Repository, iter}
use shig.Sessions.Hub.{
  call_sender, counted_add, counted_remove, add_live, remove_live, Hub, deliver_add, deliver_remove,
  is_receiver, on_add_track, on_remove_track,
}

module _ {C : Type 0} where
  lookup-iter :
      (f : Session C → Session C) (k : Uuid) (r : Repository C)
      → lookup k (iter f r) ≡ Option.map f (lookup k r)
  unfolding lookup iter
  lookup-iter f k [] = refl
  lookup-iter f k ((j, s) ∷ r) = ground (arith, lookup-iter f k r)

  -- Whether a session sends a track.
  abbrev pub is_sent : Peer C → Text → Option (Slot C) → Bool
  is_sent pc t none = false
  is_sent pc t (some slot) = Endpoint.has_track pc slot.endpoint t

  -- The endpoint after the late additions of the goroutine that set it up.
  abbrev pub after_late : Peer C → List TrackInfo → Option (Slot C) → Option (Slot C)
  after_late pc late none = none
  after_late pc late (some slot) =
      some (record slot { endpoint = put_tracks pc late slot.endpoint })

  receiver-egress :
      (w : Bool) (info : TrackInfo) (s : Session C)
      → is_receiver w info s ≡ true
      → (slot : Slot C) × (s.egress ≡ some slot)
  unfolding is_receiver Session.init_complete
  receiver-egress w info s h = elim (Option-cases s.egress) [
    | inl p ↦ absurd (ground arith)
    | inr found ↦ found
  ]

module _ {C : Type 0} (pc : Peer C) (enabled : Bool) (wins : Uuid → Bool) (info : TrackInfo) where
  on_add_track-sessions :
      (st st' : Hub × Repository C)
      → on_add_track pc enabled wins info st ≡ some st'
      → iter (deliver_add pc enabled wins info) st.1 ≡ st'.1
  unfolding on_add_track
  on_add_track-sessions (h, r) st' e =
      elim (Option-cases (call_sender (add_live info.track) info (counted_add enabled info h))) [
        | inl p ↦ absurd (ground arith)
        | inr (h1, p) ↦ ground arith
      ]

  on_remove_track-sessions :
      (st st' : Hub × Repository C)
      → on_remove_track pc enabled wins info st ≡ some st'
      → iter (deliver_remove pc enabled wins info) st.1 ≡ st'.1
  unfolding on_remove_track
  on_remove_track-sessions (h, r) st' e =
      elim (Option-cases
        (call_sender (remove_live info.track) info (counted_remove enabled info h))) [
          | inl p ↦ absurd (ground arith)
          | inr (h1, p) ↦ ground arith
        ]

  -- The receivers of a track are the sessions of others that are opening no endpoint and whose
  -- egress endpoint has completed its first exchange. After the hub's goroutine has survived the
  -- addition of a track, every receiver in the repository sends it, if pion accepts the track on
  -- every connection, and every other session is as it was.
  pub on_add_track-delivers :
      (st st' : Hub × Repository C) (k : Uuid) (s : Session C)
      → on_add_track pc enabled wins info st ≡ some st'
      → lookup k st.1 ≡ some s
      → ((c : C) → is_some (pc.add_track c info.track) ≡ true)
      → (s' : Session C) × (lookup k st'.1 ≡ some s')
        × (((is_receiver (wins s.id) info s ≡ true) × (is_sent pc info.track s'.egress ≡ true))
            ⊎ ((is_receiver (wins s.id) info s ≡ false) × (s' ≡ s)))
  unfolding deliver_add
  on_add_track-delivers st st' k s e at_k accepts = (
    deliver_add pc enabled wins info s,
    rw (← on_add_track-sessions st st' e, lookup-iter, at_k) refl,
    elim (Bool-cases (is_receiver (wins s.id) info s)) [
      | inl yes_it ↦
          let (slot, p) = receiver-egress (wins s.id) info s yes_it in
          inl (
            yes_it,
            rw (yes_it, deliver_add)
                (unfold Session.add_track in
                  rw (p, Session.add_track)
                    (add_track-sends pc slot.endpoint info (accepts slot.endpoint.conn)).0),
          )
      | inr no_it ↦ inr (no_it, rw (no_it, deliver_add) refl)
    ],
  )

  -- After the hub's goroutine has survived the removal of a track, no receiver in the repository
  -- sends it, if the receiver sent no track twice and pion accepts every removal; nor does it after
  -- the goroutine that set up its endpoint has added what it still adds, if the track is not among
  -- it. Every session that is no receiver is as it was.
  pub on_remove_track-withdraws :
      (st st' : Hub × Repository C) (k : Uuid) (s : Session C)
      → on_remove_track pc enabled wins info st ≡ some st'
      → lookup k st.1 ≡ some s
      → ((slot : Slot C) → s.egress ≡ some slot → IsSingle pc slot.endpoint)
      → ((c : C) (sender : ℕ) → is_some (pc.remove_track c sender) ≡ true)
      → (late : List TrackInfo) → All (λ (i : TrackInfo). i.track ≢ info.track) late
      → (s' : Session C) × (lookup k st'.1 ≡ some s')
        × (((is_receiver (wins s.id) info s ≡ true)
              × (is_sent pc info.track (after_late pc late s'.egress) ≡ false))
            ⊎ ((is_receiver (wins s.id) info s ≡ false) × (s' ≡ s)))
  unfolding deliver_remove
  on_remove_track-withdraws st st' k s e at_k single accepts late others = (
    deliver_remove pc enabled wins info s,
    rw (← on_remove_track-sessions st st' e, lookup-iter, at_k) refl,
    elim (Bool-cases (is_receiver (wins s.id) info s)) [
      | inl yes_it ↦
          let (slot, p) = receiver-egress (wins s.id) info s yes_it in
          inl (
            yes_it,
            rw (yes_it, deliver_remove)
                (unfold Session.remove_track in
                  rw (p, Session.remove_track)
                    (has_track-put_tracks pc late (Endpoint.remove_track pc slot.endpoint info)
                      info.track others
                      (remove_track-sends pc slot.endpoint info (single slot p)
                        (accepts slot.endpoint.conn)).0)),
          )
      | inr no_it ↦ inr (no_it, rw (no_it, deliver_remove) refl)
    ],
  )
