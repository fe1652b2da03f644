-- ===== src/Sessions/Hub/Delivery.antt =====
-- What the sessions of a lobby send after a request to its hub.
use shig.Common.{
  subst, ◌∙◌, sym, All-insert, is_some, text_key, uuid_key, if_neg, inr, inl, ℕ_discrete,
  All-delete, Bool-cases, Option-cases, lookup, Text, Uuid, ◌≡◌, ◌≢◌, refl, Bool, true, Option,
  none, some, List, [], ◌∷◌, arith, All,
}
use shig.Rtp.Track.{TrackInfo, TrackSdpInfo}
use shig.Rtp.InfoRepository.{set_info, get_info, delete_info, InfoRepository}
use shig.Rtp.Endpoint.{egress_info, Peer, Endpoint}
use shig.Rtp.Endpoint
use shig.Sessions.Session.{Session, Slot}
use shig.Sessions.Session
use shig.Sessions.Repository.{Repository, iter}
use shig.Sessions.Hub.{
  call_sender, counted_add, counted_remove, add_live, remove_live, Hub, Request, add_track,
  remove_track, mute_track, get_track_list, handle, run, deliver_add, deliver_remove, deliver_mute,
  is_receiver, filter_for_session,
}

-- No description of the list is of the session.
abbrev pub AreForeign : Uuid → InfoRepository → Type 0
AreForeign id = All (λ e. e.1.session_id ≢ id)

lookup-AreForeign :
    (id k : Uuid) (i : TrackSdpInfo) (r : InfoRepository)
    → AreForeign id r
    → lookup k r ≡ some i
    → i.session_id ≢ id
unfolding lookup
lookup-AreForeign id k i [] h e = absurd (cc e)
lookup-AreForeign id k i ((j, w) ∷ r) h e = elim (ℕ_discrete j k) [
  | yes hit ↦ ground (arith, h.0)
  | no miss ↦ lookup-AreForeign id k i r h.1 (rw (if_neg _ miss) at e)
]

module _ {C : Type 0} where
  abbrev pub slot_infos : Option (Slot C) → InfoRepository
  slot_infos none = []
  slot_infos (some slot) = slot.endpoint.infos

  -- The egress endpoint describes no track of the session itself.
  abbrev pub IsForeign : Session C → Type 0
  IsForeign s = AreForeign s.id (slot_infos s.egress)

  abbrev pub AllForeign : Repository C → Type 0
  AllForeign = All (λ e. IsForeign e.1)

  egress_info-session :
      (pc : Peer C) (info : TrackInfo) (tid : Text) (mid : Option Text)
      → (egress_info pc info tid mid).session_id ≡ info.session_id
  unfolding egress_info
  egress_info-session pc info tid none = refl
  egress_info-session pc info tid (some mid) = refl

  add_track-AreForeign :
      (pc : Peer C) (id : Uuid) (e : Endpoint C) (info : TrackInfo)
      → info.session_id ≢ id
      → AreForeign id e.infos
      → AreForeign id (Endpoint.add_track pc e info).infos
  unfolding Endpoint.add_track Endpoint.put_track set_info
  add_track-AreForeign pc id e info ne h = elim (Bool-cases (Endpoint.has_track pc e info.track)) [
    | inl p ↦ rw (p, Endpoint.add_track) h
    | inr p ↦ elim (Option-cases (pc.add_track e.conn info.track)) [
      | inl q ↦ rw (p, q, Endpoint.add_track, Endpoint.put_track) h
      | inr ((s, tid, c), q) ↦
          let i = egress_info pc info tid (pc.mid_of c s) in
          rw (p, q, Endpoint.add_track, Endpoint.put_track)
            (All-insert (λ e. e.1.session_id ≢ id) info.id i e.infos
              (λ x. ne (sym (egress_info-session pc info tid (pc.mid_of c s)) ∙ x)) h)
    ]
  ]

  remove_track-AreForeign :
      (pc : Peer C) (id : Uuid) (e : Endpoint C) (info : TrackInfo)
      → AreForeign id e.infos
      → AreForeign id (Endpoint.remove_track pc e info).infos
  unfolding Endpoint.remove_track delete_info
  remove_track-AreForeign pc id e info h =
      let deleted = All-delete (λ e. e.1.session_id ≢ id) info.id e.infos h in
      elim (Option-cases (Endpoint.get_sender pc e info.track)) [
        | inl p ↦ rw (p, Endpoint.remove_track) h
        | inr (s, p) ↦ elim (Bool-cases (is_some (lookup info.id e.infos))) [
          | inl q ↦ rw (p, q, Endpoint.remove_track) deleted
          | inr q ↦ rw (p, q, Endpoint.remove_track) h
        ]
      ]

  set_egress_mute-AreForeign :
      (id k : Uuid) (mute : Bool) (e : Endpoint C)
      → AreForeign id e.infos
      → AreForeign id (Endpoint.set_egress_mute e k mute).0.infos
  unfolding Endpoint.set_egress_mute set_info get_info
  set_egress_mute-AreForeign id k mute e h = elim (Option-cases (lookup k e.infos)) [
    | inl p ↦ rw (p, Endpoint.set_egress_mute) h
    | inr (i, p) ↦
        rw (p, Endpoint.set_egress_mute)
          (All-insert (λ e. e.1.session_id ≢ id) k (record i { mute = mute }) e.infos
            (lookup-AreForeign id k i e.infos h p) h)
  ]

module _ {C : Type 0} (pc : Peer C) where
  add_track-IsForeign :
      (s : Session C) (info : TrackInfo)
      → info.session_id ≢ s.id
      → IsForeign s
      → IsForeign (Session.add_track pc s info)
  unfolding Session.add_track
  add_track-IsForeign s info ne h = elim (Option-cases s.egress) [
    | inl p ↦ rw (p, Session.add_track) (rw p at h)
    | inr (slot, p) ↦
        rw (p, Session.add_track) (add_track-AreForeign pc s.id slot.endpoint info ne (rw p at h))
  ]

  remove_track-IsForeign :
      (s : Session C) (info : TrackInfo) → IsForeign s → IsForeign (Session.remove_track pc s info)
  unfolding Session.remove_track
  remove_track-IsForeign s info h = elim (Option-cases s.egress) [
    | inl p ↦ rw (p, Session.remove_track) (rw p at h)
    | inr (slot, p) ↦
        rw (p, Session.remove_track)
          (remove_track-AreForeign pc s.id slot.endpoint info (rw p at h))
  ]

  mute_track-IsForeign :
      (s : Session C) (info : TrackInfo) → IsForeign s → IsForeign (Session.mute_track s info)
  unfolding Session.mute_track
  mute_track-IsForeign s info h = elim (Option-cases s.egress) [
    | inl p ↦ rw (p, Session.mute_track) h
    | inr (slot, p) ↦
        rw (p, Session.mute_track)
          (set_egress_mute-AreForeign s.id info.id info.mute slot.endpoint (rw p at h))
  ]

receiver-ne :
    {C : Type 0} (w : Bool) (info : TrackInfo) (s : Session C)
    → is_receiver w info s ≡ true
    → info.session_id ≢ s.id
unfolding is_receiver
receiver-ne w info s h e = ground arith

module _ {C : Type 0} (pc : Peer C) (enabled : Bool) where
  deliver_add-IsForeign :
      (wins : Uuid → Bool) (info : TrackInfo) (s : Session C)
      → IsForeign s
      → IsForeign (deliver_add pc enabled wins info s)
  unfolding deliver_add
  deliver_add-IsForeign wins info s h = elim (Bool-cases (is_receiver (wins s.id) info s)) [
    | inl p ↦
        rw (p, deliver_add) (add_track-IsForeign pc s info (receiver-ne (wins s.id) info s p) h)
    | inr p ↦ rw (p, deliver_add) h
  ]

  deliver_remove-IsForeign :
      (wins : Uuid → Bool) (info : TrackInfo) (s : Session C)
      → IsForeign s
      → IsForeign (deliver_remove pc enabled wins info s)
  unfolding deliver_remove
  deliver_remove-IsForeign wins info s h = elim (Bool-cases (is_receiver (wins s.id) info s)) [
    | inl p ↦ rw (p, deliver_remove) (remove_track-IsForeign pc s info h)
    | inr p ↦ rw (p, deliver_remove) h
  ]

  deliver_mute-IsForeign :
      (info : TrackInfo) (s : Session C) → IsForeign s → IsForeign (deliver_mute pc enabled info s)
  unfolding deliver_mute
  deliver_mute-IsForeign info s h = elim (Bool-cases (filter_for_session s.id info)) [
    | inl p ↦ rw (p, deliver_mute) (mute_track-IsForeign pc s info h)
    | inr p ↦ rw (p, deliver_mute) h
  ]

  iter-AllForeign :
      (f : Session C → Session C) (r : Repository C)
      → ((s : Session C) → IsForeign s → IsForeign (f s))
      → AllForeign r
      → AllForeign (iter f r)
  unfolding iter
  iter-AllForeign f [] keep h = tt
  iter-AllForeign f ((k, s) ∷ r) keep h = (keep s h.0, iter-AllForeign f r keep h.1)

  handle-AllForeign :
      (q : Request) (st st' : Hub × Repository C)
      → handle pc enabled q st ≡ some st'
      → AllForeign st.1
      → AllForeign st'.1
  unfolding handle
  handle-AllForeign (add_track wins info) (h, r) (h', r') e a =
      elim (Option-cases (call_sender (add_live info.track) info (counted_add enabled info h))) [
        | inl p ↦ absurd (ground arith)
        | inr (h1, p) ↦
            let same : iter (deliver_add pc enabled wins info) r ≡ r' = ground arith in
            subst AllForeign same (
              iter-AllForeign (deliver_add pc enabled wins info) r (deliver_add-IsForeign wins info)
                a)
      ]
  handle-AllForeign (remove_track wins info) (h, r) (h', r') e a =
      elim (Option-cases
        (call_sender (remove_live info.track) info (counted_remove enabled info h))) [
          | inl p ↦ absurd (ground arith)
          | inr (h1, p) ↦
              let same : iter (deliver_remove pc enabled wins info) r ≡ r' = ground arith in
              subst AllForeign same (
                iter-AllForeign (deliver_remove pc enabled wins info) r
                  (deliver_remove-IsForeign wins info) a)
        ]
  handle-AllForeign (mute_track info) (h, r) (h', r') e a =
      let same : iter (deliver_mute pc enabled info) r ≡ r' = ground arith in
      subst AllForeign same
        (iter-AllForeign (deliver_mute pc enabled info) r (deliver_mute-IsForeign info) a)
  handle-AllForeign (get_track_list id filters) (h, r) (h', r') e a =
      let same : r ≡ r' = ground arith in subst AllForeign same a

  -- If no session's egress endpoint holds the description of a track that came from that session,
  -- and the hub's goroutine survives the requests, then none does after them, whatever the requests
  -- are.
  pub run-AllForeign :
      (qs : List Request) (st st' : Hub × Repository C)
      → run pc enabled qs st ≡ some st'
      → AllForeign st.1
      → AllForeign st'.1
  unfolding run
  run-AllForeign [] st st' e a = let same : st.1 ≡ st'.1 = ground arith in subst AllForeign same a
  run-AllForeign (q ∷ qs) st st' e a = elim (Option-cases (handle pc enabled q st)) [
    | inl p ↦ absurd (ground arith)
    | inr (mid, p) ↦ run-AllForeign qs mid st' (ground arith) (handle-AllForeign q st mid p a)
  ]
