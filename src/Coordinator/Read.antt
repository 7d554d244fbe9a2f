-- ===== src/Coordinator/Read.antt =====
-- `readFromReplicasWithRepair`, `performReadRepair` and `readExistingValue` of
-- coordinator/internal/service/coordinator_service_v2.go.
pub mod Freshness
use pair_db.Prelude.{
  ℕ, zero, String, List, [], ◌∷◌, ◌++◌, Bool, true, false, Option, none, some, count_if, length,
  not, if◌then◌else◌,
}
use pair_db.GoMap.{Iteration}
use pair_db.VectorClock.{VectorClock, equals}
use pair_db.Topology.{StorageNode, NodeState, NodeStatus}
use pair_db.Consistency.{is_quorum_reached, get_required_replicas_simple}
use pair_db.HintedHandoff.{HintedHandoffService, store_hint}
use pair_db.StorageClient.{Network, StorageResponse, read, write}
use pair_db.Conflict.{Scan, is_hit, detect_conflicts}
use pair_db.Coordinator.{
  Arrival, Reply, ok, err, Error, key_not_found, quorum_not_reached, ReadResult, failed_response,
}

-- the response that is recorded for a call
pub respond : StorageNode → Option StorageResponse → StorageResponse
respond node none = failed_response node
respond node (some resp) = resp

module _ (net : Network) (tenant_id key : String) where
  pub read_node : StorageNode → StorageResponse
  unfolding respond
  read_node node = respond node (read net node tenant_id key)

  pub read_nodes : List StorageNode → List StorageResponse
  read_nodes [] = []
  read_nodes (node ∷ nodes) = read_node node ∷ read_nodes nodes

  -- The result, and whether a repair is started.
  answer : Option Scan → Reply ReadResult × Bool
  answer none = (err key_not_found, false)
  answer (some s) = (
    ok (record { key = key; value = s.latest.value; vector_clock = s.latest.vector_clock }),
    s.has_conflict,
  )

  unfoldable pub read_from_replicas_with_repair :
      Iteration → Arrival → List StorageNode → String → Reply ReadResult × Bool
  unfolding read_node read_nodes answer
  read_from_replicas_with_repair range arrival replicas consistency =
      let responses = read_nodes (arrival.order replicas) in
      let hits = count_if is_hit responses in
      let required = get_required_replicas_simple consistency (length replicas) in
      if not (is_quorum_reached hits (length replicas) consistency)
      then (err (quorum_not_reached hits required), false)
      else answer (detect_conflicts range responses)

  -- The first hit to arrive; goroutines that start later do not read.
  first_hit : List StorageResponse → Option StorageResponse
  first_hit [] = none
  first_hit (resp ∷ rest) = let more = first_hit rest in if is_hit resp then some resp else more

  unfoldable pub read_existing_value : Arrival → List StorageNode → Option StorageResponse
  unfolding read_node read_nodes first_hit
  read_existing_value arrival replicas = first_hit (read_nodes (arrival.order replicas))

-- &model.StorageNode{NodeID: resp.NodeID}: no address. The client does not read status and state.
abbrev bare_node : String → StorageNode
bare_node id = record {
  node_id = id;
  host = "";
  port = 0;
  status = NodeStatus.inactive;
  state = NodeState.down;
  virtual_nodes = 0;
  tokens = [];
}

module _ (net : Network) (now : ℕ) (tenant_id key : String) (latest : StorageResponse) where
  repair_hint : HintedHandoffService → String → Option StorageResponse → HintedHandoffService
  repair_hint h id none = store_hint now h id tenant_id key latest.value latest.vector_clock
  repair_hint h id (some resp) = h

  repair_one : HintedHandoffService → StorageResponse → HintedHandoffService
  unfolding repair_hint
  repair_one h resp =
      if equals resp.vector_clock latest.vector_clock
      then h
      else repair_hint h resp.node_id
          (write net (bare_node resp.node_id) tenant_id key latest.value latest.vector_clock)

  unfoldable pub perform_read_repair :
      HintedHandoffService → List StorageResponse → HintedHandoffService
  unfolding repair_one
  perform_read_repair h [] = h
  perform_read_repair h (resp ∷ rest) = perform_read_repair (repair_one h resp) rest
