-- ===== src/Coordinator.antt =====
-- The request path of the coordinator, coordinator/internal/service/coordinator_service_v2.go: what its
-- parts share. The goroutines of one fan-out finish in some order, an `Arrival`.
pub mod Write
pub mod Read
pub mod Requests
use pair_db.Prelude.{
  ℕ, String, List, [], ◌∷◌, Bool, true, false, Option, none, some, ◌≡◌, refl, count_if,
}
use pair_db.Int64.{zero64}
use pair_db.VectorClock.{VectorClock}
use pair_db.Topology.{StorageNode}
use pair_db.StorageClient.{StorageResponse, empty_clock}

pub data Error : Type 0 where
  invalid_level tenant_failed replicas_failed key_not_found : Error
  quorum_not_reached : ℕ → ℕ → Error

pub data Reply {ℓ} (A : Type ℓ) : Type ℓ where
  ok : A → Reply A
  err : Error → Reply A

pub record WriteResult : Type 0 where
  pub success : Bool
  pub key : String
  pub vector_clock : VectorClock
  pub replica_count : ℕ
  pub consistency : String
  pub is_duplicate : Bool

pub record ReadResult : Type 0 where
  pub key : String
  pub value : List ℕ
  pub vector_clock : VectorClock

-- The order in which the goroutines of a fan-out add their responses.
pub record Arrival : Type 0 where
  pub order : List StorageNode → List StorageNode
  pub count_if-order :
      (p : StorageNode → Bool) (nodes : List StorageNode)
      → count_if p (order nodes) ≡ count_if p nodes

-- The replicas answer one after the other.
abbrev pub sequential : Arrival
sequential = record { order = λ nodes. nodes; count_if-order = λ p nodes. refl }

-- the response that is recorded for a call that fails
abbrev pub failed_response : StorageNode → StorageResponse
failed_response node = record {
  node_id = node.node_id;
  success = false;
  value = [];
  vector_clock = empty_clock;
  timestamp = zero64;
  found = false;
}
