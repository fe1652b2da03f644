-- ===== src/Sessions/Hub/Counts.antt =====
-- The egress nodes of the track graph under additions and removals.
use shig.Common.{
  if_neg, if_pos, ◌∙◌, subst, lookup-insert, lookup-delete, inr, Option-cases, inl, ℕ_discrete,
  Bool-cases, ite, text_key, uuid_key, if◌then◌else◌, lookup, Uuid, ◌≡◌, refl, Bool, true, Option,
  none, some, [], ◌∷◌, arith, Map,
}
use shig.Rtp.Track.{egress, TrackInfo, Purpose}
use shig.Rtp.Endpoint.{Peer}
use shig.Metric.{GraphNode, graph_node_update_dec, is_empty}
use shig.Sessions.Session.{Session}
use shig.Sessions.Repository.{Repository}
use shig.Sessions.Repository.Users.{IsUnique, IsAbsent}
use shig.Sessions.Hub.{
  Hub, Nodes, SenderCall, add_live, remove_live, call_sender, counted_add, counted_remove,
  is_receiver, count_removed, decrease_in, decrease_node_graph_stats, on_add_track, on_remove_track,
}

-- One track less; a node that counts nothing is gone.
abbrev pub one_less : Bool → Purpose → Option GraphNode → Option GraphNode
one_less enabled purpose none = none
one_less enabled purpose (some node) =
    if is_empty (graph_node_update_dec enabled node purpose)
    then none
    else some (graph_node_update_dec enabled node purpose)

lookup-decrease_in :
    (enabled : Bool) (purpose : Purpose) (id j : Uuid) (m : Map Uuid GraphNode)
    → lookup j (decrease_in enabled id purpose m)
      ≡ ite (ℕ_discrete id j) (one_less enabled purpose (lookup j m)) (lookup j m)
unfolding decrease_in
lookup-decrease_in enabled purpose id j m = elim (Option-cases (lookup id m)) [
  | inl p ↦ ground arith
  | inr (node, p) ↦ ground (
    arith,
    lookup-delete id j m,
    lookup-insert id j (graph_node_update_dec enabled node purpose) m,
  )
]

call_sender-nodes :
    (call : SenderCall) (info : TrackInfo) (h h' : Hub)
    → call_sender call info h ≡ some h'
    → h'.nodes ≡ h.nodes
unfolding call_sender
call_sender-nodes call info h h' e = ground arith

module _ {C : Type 0} (pc : Peer C) (enabled : Bool) (wins : Uuid → Bool) (info : TrackInfo) where
  count_removed-absent :
      (id u : Uuid) (r : Repository C) (n : Nodes)
      → IsAbsent id u r
      → IsUnique r
      → lookup id (count_removed pc enabled wins info r n).egress_nodes ≡ lookup id n.egress_nodes
  unfolding count_removed
  count_removed-absent id u [] n a h = refl
  count_removed-absent id u ((k, s) ∷ r) n a h =
      elim (Bool-cases (is_receiver (wins s.id) info s)) [
        | inl p ↦
            rw (p, count_removed)
              (ground (
                arith,
                count_removed-absent id u r
                    (decrease_node_graph_stats enabled s.id egress info.purpose n) a.1 h.2,
                lookup-decrease_in enabled info.purpose s.id id n.egress_nodes,
              ))
        | inr p ↦ rw (p, count_removed) (count_removed-absent id u r n a.1 h.2)
      ]

  -- The node of the first entry, if it is the receiver.
  count_removed-head :
      (k : Uuid) (t : Session C) (r : Repository C) (n : Nodes)
      → IsUnique ((k, t) ∷ r)
      → is_receiver (wins t.id) info t ≡ true
      → lookup t.id (count_removed pc enabled wins info ((k, t) ∷ r) n).egress_nodes
        ≡ one_less enabled info.purpose (lookup t.id n.egress_nodes)
  unfolding count_removed
  count_removed-head k t r n h p =
      let n' = decrease_node_graph_stats enabled t.id egress info.purpose n in
      let absent : IsAbsent t.id t.user r = subst (λ j. IsAbsent j t.user r) h.0 h.1 in
      rw (p, count_removed)
        (count_removed-absent t.id t.user r n' absent h.2
          ∙ ground (arith, lookup-decrease_in enabled info.purpose t.id t.id n.egress_nodes))

  lookup-count_removed :
      (s : Session C) (r : Repository C) (n : Nodes)
      → IsUnique r
      → lookup s.id r ≡ some s
      → is_receiver (wins s.id) info s ≡ true
      → lookup s.id (count_removed pc enabled wins info r n).egress_nodes
        ≡ one_less enabled info.purpose (lookup s.id n.egress_nodes)
  unfolding count_removed lookup
  lookup-count_removed s [] n h e p = absurd (cc e)
  lookup-count_removed s ((k, t) ∷ r) n h e p = elim (ℕ_discrete k s.id) [
    | yes hit ↦
        let same : t ≡ s = cc (rw (if_pos _ hit) at e) in
        subst
          (λ x.
            is_receiver (wins x.id) info x ≡ true
            → lookup x.id (count_removed pc enabled wins info ((k, t) ∷ r) n).egress_nodes
              ≡ one_less enabled info.purpose (lookup x.id n.egress_nodes))
          same (count_removed-head k t r n h) p
    | no miss ↦ elim (Bool-cases (is_receiver (wins t.id) info t)) [
      | inl q ↦
          let n' = decrease_node_graph_stats enabled t.id egress info.purpose n in
          rw (q, count_removed)
            (lookup-count_removed s r n' h.2 (rw (if_neg _ miss) at e) p
              ∙ ground (arith, lookup-decrease_in enabled info.purpose t.id s.id n.egress_nodes))
      | inr q ↦ rw (q, count_removed) (lookup-count_removed s r n h.2 (rw (if_neg _ miss) at e) p)
    ]
  ]

  -- Where the sessions are unique and the hub's goroutine survives, adding a track changes no
  -- egress node, and removing it takes one track from the egress node of a receiver, which goes
  -- when it is empty.
  pub egress_nodes-drift :
      (st added removed : Hub × Repository C) (s : Session C)
      → on_add_track pc enabled wins info st ≡ some added
      → on_remove_track pc enabled wins info st ≡ some removed
      → IsUnique st.1
      → lookup s.id st.1 ≡ some s
      → is_receiver (wins s.id) info s ≡ true
      → (added.0.nodes.egress_nodes ≡ st.0.nodes.egress_nodes)
        × (lookup s.id removed.0.nodes.egress_nodes
            ≡ one_less enabled info.purpose (lookup s.id st.0.nodes.egress_nodes))
  unfolding on_add_track on_remove_track counted_add counted_remove
  egress_nodes-drift (h, r) (h1, r1) (h2, r2) s ea er u e p = (
    elim (Option-cases (call_sender (add_live info.track) info (counted_add enabled info h))) [
      | inl q ↦ absurd (ground arith)
      | inr (h', q) ↦
          ground
            (arith, call_sender-nodes (add_live info.track) info (counted_add enabled info h) h' q)
    ],
    elim (Option-cases
        (call_sender (remove_live info.track) info (counted_remove enabled info h))) [
          | inl q ↦ absurd (ground arith)
          | inr (h', q) ↦ ground (
            arith,
            call_sender-nodes (remove_live info.track) info (counted_remove enabled info h) h' q,
            lookup-count_removed s r h'.nodes u e p,
          )
        ],
  )
