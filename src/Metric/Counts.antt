-- ===== src/Metric/Counts.antt =====
-- Counting up and down again.
use shig.Common.{◌≡◌, refl, Bool, true, false, arith}
use shig.Common.Int.{dec-inc}
use shig.Rtp.Track.{Purpose, main, guest}
use shig.Metric.{GraphNode, graph_node_update_inc, graph_node_update_dec}

-- A decrement undoes an increment of the same purpose, whether or not the graph is registered.
pub dec-graph_node_update_inc :
    (enabled : Bool) (node : GraphNode) (purpose : Purpose)
    → graph_node_update_dec enabled (graph_node_update_inc enabled node purpose) purpose ≡ node
unfolding graph_node_update_inc graph_node_update_dec
dec-graph_node_update_inc false node purpose = refl
dec-graph_node_update_inc true node main = ground (arith, dec-inc node.main_tracks)
dec-graph_node_update_inc true node guest = ground (arith, dec-inc node.tracks)
