-- ===== src/Coordinator/Write.antt =====
-- `writeToReplicasWithHints` of coordinator/internal/service/coordinator_service_v2.go.
pub mod Quorum
pub mod Hints
use pair_db.Prelude.{
  ℕ, String, List, [], ◌∷◌, ◌++◌, Bool, true, false, Option, none, some, count_if, length, not,
  if◌then◌else◌,
}
use pair_db.VectorClock.{VectorClock}
use pair_db.Topology.{StorageNode}
use pair_db.Consistency.{is_quorum_reached, get_required_replicas_for_write_set}
use pair_db.HintedHandoff.{HintedHandoffService, store_hint}
use pair_db.StorageClient.{Network, StorageResponse, write}
use pair_db.Coordinator.{Arrival, Reply, ok, err, quorum_not_reached, WriteResult, failed_response}

-- What the goroutines share: the hints and the responses so far.
pub record Fanout : Type 0 where
  pub hints : HintedHandoffService
  pub responses : List StorageResponse

pub success_count : List StorageResponse → ℕ
success_count = count_if (λ resp. resp.success)

module _ (net : Network) (now : ℕ) (tenant_id key : String) (value : List ℕ)
    (vc : VectorClock) where
  -- the rest of a goroutine, from the result of its call
  collect : Fanout → StorageNode → Option StorageResponse → Fanout
  collect f node none = record {
    hints = store_hint now f.hints node.node_id tenant_id key value vc;
    responses = f.responses ++ failed_response node ∷ [];
  }
  collect f node (some resp) = record f { responses = f.responses ++ resp ∷ [] }

  write_node : Fanout → StorageNode → Fanout
  unfolding collect
  write_node f node = collect f node (write net node tenant_id key value vc)

  write_nodes : Fanout → List StorageNode → Fanout
  write_nodes f [] = f
  write_nodes f (node ∷ nodes) = write_nodes (write_node f node) nodes

  -- the check of the quorum and the result
  pub conclude : List StorageNode → String → ℕ → Reply WriteResult
  conclude replicas consistency successes =
      let required = get_required_replicas_for_write_set consistency replicas in
      if not (is_quorum_reached successes (length replicas) consistency)
      then err (quorum_not_reached successes required)
      else ok (record {
        success = true;
        key = key;
        vector_clock = vc;
        replica_count = successes;
        consistency = consistency;
        is_duplicate = false;
      })

  unfoldable pub write_to_replicas_with_hints :
      Arrival
      → HintedHandoffService
      → List StorageNode
      → String
      → HintedHandoffService × Reply WriteResult
  unfolding write_node write_nodes success_count conclude
  write_to_replicas_with_hints arrival hints replicas consistency =
      let done = write_nodes (record { hints = hints; responses = [] }) (arrival.order replicas) in
      (done.hints, conclude replicas consistency (success_count done.responses))
