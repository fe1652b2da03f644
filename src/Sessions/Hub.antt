-- ===== src/Sessions/Hub.antt =====
-- internal/lobby/sessions/hub.go and hub_request.go. The hub's goroutine takes one request at a
-- time, so a run of the hub is a list of requests. `none` is a panic of that goroutine. The
-- goroutines that onMuteTrack starts, one for each session, are run at once: each touches its own
-- session only. Where a `select` may take either of two ready cases, `wins` chooses, for each
-- session. `sender` is `none` where the interface value is nil, and otherwise the log of its calls.
pub mod Requests
pub mod Delivery
pub mod Receivers
pub mod Counts
pub mod Echo
use shig.Common.{
  text_key, uuid_key, ◌==◌, delete, if◌then◌else◌, insert, ite, lookup, map, not, ◌&&◌, ℕ, Uuid,
  Text, Bool, true, false, Option, none, some, List, [], ◌∷◌, ◌++◌, Map,
}
use shig.Rtp.Track.{TrackInfo, Purpose, main, EndpointType, ingress, egress, Purpose-discrete}
use shig.Rtp.Endpoint.{Peer}
use shig.Metric.{GraphNode, build_node, graph_node_update_inc, graph_node_update_dec, is_empty}
use shig.Sessions.Session.{Session}
use shig.Sessions.Session
use shig.Sessions.Repository.{Repository, iter}

pub data SenderCall : Type 0 where
  add_live remove_live : Text → SenderCall

-- The nodes of ingress and egress endpoints, each by session: the source's map is keyed by the
-- type's name followed by the session's id.
pub record Nodes : Type 0 where
  pub ingress_nodes : Map Uuid GraphNode
  pub egress_nodes : Map Uuid GraphNode

pub record Hub : Type 0 where
  pub sender : Option (List SenderCall)
  pub tracks : Map Text TrackInfo
  pub nodes : Nodes
  pub hub_node : GraphNode

unfoldable pub new_hub : Option (List SenderCall) → Hub
new_hub sender = record {
  sender = sender;
  tracks = [];
  nodes = record { ingress_nodes = []; egress_nodes = [] };
  hub_node = build_node;
}

module _ (enabled : Bool) where
  -- A node that is not there is built first.
  node_or_new : Option GraphNode → GraphNode
  node_or_new none = build_node
  node_or_new (some node) = node

  increase_in : Uuid → Purpose → Map Uuid GraphNode → Map Uuid GraphNode
  unfolding node_or_new
  increase_in id purpose m =
      insert id (graph_node_update_inc enabled (node_or_new (lookup id m)) purpose) m

  -- A node that counts nothing any more is deleted.
  decrease_in : Uuid → Purpose → Map Uuid GraphNode → Map Uuid GraphNode
  decrease_in id purpose m = elim (lookup id m) [
    | none ↦ m
    | some node ↦
        let less = graph_node_update_dec enabled node purpose in
        if is_empty less then delete id m else insert id less m
  ]

  unfoldable pub increase_node_graph_stats : Uuid → EndpointType → Purpose → Nodes → Nodes
  unfolding increase_in
  increase_node_graph_stats id ingress purpose n = record n {
    ingress_nodes = increase_in id purpose n.ingress_nodes;
  }
  increase_node_graph_stats id egress purpose n = record n {
    egress_nodes = increase_in id purpose n.egress_nodes;
  }

  unfoldable pub decrease_node_graph_stats : Uuid → EndpointType → Purpose → Nodes → Nodes
  unfolding decrease_in
  decrease_node_graph_stats id ingress purpose n = record n {
    ingress_nodes = decrease_in id purpose n.ingress_nodes;
  }
  decrease_node_graph_stats id egress purpose n = record n {
    egress_nodes = decrease_in id purpose n.egress_nodes;
  }

-- filterForSession and filterForNotMain
unfoldable pub filter_for_session : Uuid → TrackInfo → Bool
filter_for_session id info = not (id == info.session_id)

unfoldable pub filter_for_not_main : TrackInfo → Bool
filter_for_not_main info = ite (Purpose-discrete info.purpose main) false true

-- The call of a method of the sender, for a main track.
unfoldable pub call_sender : SenderCall → TrackInfo → Hub → Option Hub
call_sender call info h = if filter_for_not_main info then some h else (elim h.sender [
  | none ↦ none
  | some log ↦ some (record h { sender = some (log ++ (call ∷ [])) })
])

unfoldable pub is_receiver : {C : Type 0} → Bool → TrackInfo → Session C → Bool
unfolding filter_for_session
is_receiver closed_wins info s = Session.init_complete closed_wins s && filter_for_session s.id info

-- h.tracks[id] = track
store_track : TrackInfo → Hub → Hub
store_track info h = record h { tracks = insert info.track info h.tracks }

drop_track : TrackInfo → Hub → Hub
drop_track info h = record h { tracks = delete info.track h.tracks }

-- onGetTrackList: the tracks in the order of Go's iteration, which is any
unfoldable pub on_get_track_list : Hub → List TrackInfo
on_get_track_list h = map (λ e. e.1) h.tracks

unfoldable pub passes : List (TrackInfo → Bool) → TrackInfo → Bool
passes [] info = true
passes (f ∷ fs) info = f info && passes fs info

pub data Request : Type 0 where
  add_track remove_track : (Uuid → Bool) → TrackInfo → Request
  mute_track : TrackInfo → Request
  get_track_list : Uuid → List (TrackInfo → Bool) → Request

module _ (enabled : Bool) where
  -- The loop of getTrackList over what the hub answered; an answer that does not come is an empty
  -- list.
  unfoldable pub select_tracks :
      Uuid → List (TrackInfo → Bool) → List TrackInfo → Nodes → List TrackInfo × Nodes
  unfolding passes increase_node_graph_stats
  select_tracks id filters [] n = ([], n)
  select_tracks id filters (info ∷ infos) n =
      let taken =
        select_tracks id filters infos
          (increase_node_graph_stats enabled id egress info.purpose n) in
      let left = select_tracks id filters infos n in
      if passes filters info then (info ∷ taken.0, taken.1) else left

  -- The answer of a request for the list goes to the caller, who counts what it takes.
  counted_list : Uuid → List (TrackInfo → Bool) → Hub → Hub
  unfolding select_tracks
  counted_list id filters h = record h {
    nodes = (select_tracks id filters (on_get_track_list h) h.nodes).1;
  }

module _ (enabled : Bool) where
  -- The counts that change before the sender is called.
  unfoldable pub counted_add : TrackInfo → Hub → Hub
  unfolding increase_node_graph_stats
  counted_add info h = record h {
    nodes = increase_node_graph_stats enabled info.session_id ingress info.purpose h.nodes;
    hub_node = graph_node_update_inc enabled h.hub_node info.purpose;
  }

  unfoldable pub counted_remove : TrackInfo → Hub → Hub
  unfolding decrease_node_graph_stats
  counted_remove info h = record h {
    nodes = decrease_node_graph_stats enabled info.session_id ingress info.purpose h.nodes;
    hub_node = graph_node_update_dec enabled h.hub_node info.purpose;
  }

module _ {C : Type 0} (pc : Peer C) (enabled : Bool) where
  -- The routines that are run on each session.
  unfoldable pub deliver_add : (Uuid → Bool) → TrackInfo → Session C → Session C
  unfolding is_receiver
  deliver_add wins info s =
      if is_receiver (wins s.id) info s then Session.add_track pc s info else s

  unfoldable pub deliver_remove : (Uuid → Bool) → TrackInfo → Session C → Session C
  unfolding is_receiver
  deliver_remove wins info s =
      if is_receiver (wins s.id) info s then Session.remove_track pc s info else s

  unfoldable pub deliver_mute : TrackInfo → Session C → Session C
  unfolding filter_for_session
  deliver_mute info s = if filter_for_session s.id info then Session.mute_track s info else s

  -- The nodes after the removal has been delivered to each receiver.
  unfoldable pub count_removed : (Uuid → Bool) → TrackInfo → Repository C → Nodes → Nodes
  unfolding is_receiver decrease_node_graph_stats
  count_removed wins info [] n = n
  count_removed wins info ((k, s) ∷ r) n = count_removed wins info r (
      if is_receiver (wins s.id) info s
      then decrease_node_graph_stats enabled s.id egress info.purpose n
      else n)

  unfoldable pub on_add_track :
      (Uuid → Bool) → TrackInfo → Hub × Repository C → Option (Hub × Repository C)
  unfolding store_track
  on_add_track wins info (h, r) =
      elim (call_sender (add_live info.track) info (counted_add enabled info h)) [
        | none ↦ none
        | some h' ↦ some (store_track info h', iter (deliver_add wins info) r)
      ]

  unfoldable pub on_remove_track :
      (Uuid → Bool) → TrackInfo → Hub × Repository C → Option (Hub × Repository C)
  unfolding drop_track
  on_remove_track wins info (h, r) =
      elim (call_sender (remove_live info.track) info (counted_remove enabled info h)) [
        | none ↦ none
        | some h' ↦
            let dropped = drop_track info h' in
            some (
              record dropped { nodes = count_removed wins info r dropped.nodes },
              iter (deliver_remove wins info) r,
            )
      ]

  unfoldable pub on_mute_track : TrackInfo → Hub × Repository C → Option (Hub × Repository C)
  unfolding deliver_mute
  on_mute_track info (h, r) = some (h, iter (deliver_mute info) r)

  unfoldable pub handle : Request → Hub × Repository C → Option (Hub × Repository C)
  unfolding on_add_track on_remove_track on_mute_track counted_list
  handle (add_track wins info) st = on_add_track wins info st
  handle (remove_track wins info) st = on_remove_track wins info st
  handle (mute_track info) st = on_mute_track info st
  handle (get_track_list id filters) (h, r) = some (counted_list enabled id filters h, r)

  unfoldable pub run : List Request → Hub × Repository C → Option (Hub × Repository C)
  unfolding handle
  run [] st = some st
  run (q ∷ qs) st = elim (handle q st) [ none ↦ none | some st' ↦ run qs st' ]
