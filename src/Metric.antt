-- ===== src/Metric.antt =====
-- internal/metric/node_graph.go: the counts on the nodes of the track graph. `enabled` says that the
-- graph was registered (`nodeGraph != nil`). The gauges of prometheus, which mirror the nodes and
-- the edges, are not modelled.
pub mod Counts
use shig.Common.{◌&&◌, Uuid, Text, Bool, true, false}
use shig.Common.Int.{ℤ, pos, inc, dec, is_zero}
use shig.Rtp.Track.{Purpose, main, guest}

-- The labels of a node are built from the session and the type, and never read again.
pub record GraphNode : Type 0 where
  pub tracks : ℤ
  pub main_tracks : ℤ

unfoldable pub build_node : GraphNode
build_node = record { tracks = pos 0; main_tracks = pos 0 }

unfoldable pub graph_node_update_inc : Bool → GraphNode → Purpose → GraphNode
graph_node_update_inc false node purpose = node
graph_node_update_inc true node main = record node { main_tracks = inc node.main_tracks }
graph_node_update_inc true node guest = record node { tracks = inc node.tracks }

unfoldable pub graph_node_update_dec : Bool → GraphNode → Purpose → GraphNode
graph_node_update_dec false node purpose = node
graph_node_update_dec true node main = record node { main_tracks = dec node.main_tracks }
graph_node_update_dec true node guest = record node { tracks = dec node.tracks }

unfoldable pub is_empty : GraphNode → Bool
unfolding is_zero
is_empty node = is_zero node.tracks && is_zero node.main_tracks
