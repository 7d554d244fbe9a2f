-- ===== src/Tests/Data.antt =====
-- A cluster of three nodes, of which "c" does not answer.
use pair_db.Prelude.{ℕ, String, List, [], ◌∷◌, true, none, some, str_eq, if◌then◌else◌}
use pair_db.Int64.{int64}
use pair_db.VectorClock.{VectorClock}
use pair_db.Topology.{StorageNode, NodeState, NodeStatus}
use pair_db.StorageClient.{Network, StorageResponse}

abbrev pub entry : String → ℕ → VectorClock
entry k t = record {
  entries = record { coordinator_node_id = k; logical_timestamp = int64 t } ∷ [];
}

abbrev pub node : String → StorageNode
node id = record {
  node_id = id;
  host = "localhost";
  port = 9000;
  status = NodeStatus.active;
  state = NodeState.normal;
  virtual_nodes = 1;
  tokens = [];
}

abbrev pub three : List StorageNode
three = node "a" ∷ node "b" ∷ node "c" ∷ []

abbrev pub net : Network
net = record {
  send_write = λ to _ _ _ vc.
      if str_eq to.node_id "c"
      then none
      else some (record { success = true; updated_vector_clock = vc });
  send_read = λ to _ _.
      if str_eq to.node_id "c"
      then none
      else some (record { success = true; value = 7 ∷ []; vector_clock = entry "x" 5 });
}

-- A response that is a hit.
abbrev pub hit : String → VectorClock → StorageResponse
hit id vc = record {
  node_id = id;
  success = true;
  value = 7 ∷ [];
  vector_clock = vc;
  timestamp = int64 0;
  found = true;
}
