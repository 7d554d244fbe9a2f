-- ===== src/Topology.antt =====
-- Cluster topology: coordinator/internal/model/topology.go and coordinator/internal/model/hashring.go.
-- A `time.Time` is a number of nanoseconds, 0 for the zero time.
use pair_db.Prelude.{ℕ, String, List, Bool, true, false}
use pair_db.GoMap.{GoMap}

pub data NodeState : Type 0 where
  normal bootstrapping leaving down : NodeState

-- The constants, and "failed", which the handler of nodes writes.
pub data NodeStatus : Type 0 where
  active bootstrapping draining inactive failed : NodeStatus

-- a hash range [start, end)
pub record TokenRange : Type 0 where
  pub start : ℕ
  pub end : ℕ

pub record StorageNode : Type 0 where
  pub node_id : String
  pub host : String
  pub port : ℕ
  pub status : NodeStatus
  pub state : NodeState
  pub virtual_nodes : ℕ
  pub tokens : List ℕ

-- A range that moves, as the node that receives it or the node that leaves keeps it.
pub record RangeInfo : Type 0 where
  pub range : TokenRange
  pub old_owner_id : String
  pub new_owner_id : String
  pub streaming_state : String

pub data PendingChangeStatus : Type 0 where
  in_progress completed failed rolled_back : PendingChangeStatus

pub data StreamingState : Type 0 where
  streaming completed failed : StreamingState

pub record StreamingProgress : Type 0 where
  pub source_node_id : String
  pub target_node_id : String
  pub keys_copied : ℕ
  pub keys_streamed : ℕ
  pub state : StreamingState

pub record PendingChange : Type 0 where
  pub change_id : String
  pub type : String
  pub node_id : String
  pub affected_nodes : List String
  pub ranges : List TokenRange
  pub start_time : ℕ
  pub status : PendingChangeStatus
  pub error_message : String
  pub last_updated : ℕ
  pub completed_at : ℕ
  pub progress : GoMap StreamingProgress

-- node.State == model.NodeStateNormal
abbrev pub is_normal : NodeState → Bool
is_normal NodeState.normal = true
is_normal _ = false

abbrev pub is_active : NodeStatus → Bool
is_active NodeStatus.active = true
is_active _ = false

-- PendingChange.IsCompleted
abbrev pub is_completed : PendingChangeStatus → Bool
is_completed PendingChangeStatus.completed = true
is_completed _ = false

-- progress.State == "completed"
abbrev pub is_streamed : StreamingState → Bool
is_streamed StreamingState.completed = true
is_streamed _ = false
