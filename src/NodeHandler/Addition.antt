-- ===== src/NodeHandler/Addition.antt =====
-- `AddStorageNodeV2`, `monitorStreamingProgress` and `rollbackNodeAddition`. The monitor gets what the
-- request passes on: the node, the source nodes and the id of the change.
use pair_db.Prelude.{
  ℕ, zero, suc, Bool, true, false, ◌==◌, if◌then◌else◌, Option, none, some, String, str_eq, List,
  [], ◌∷◌, ◌++◌, map,
}
use pair_db.Bytes.{Bytes}
use pair_db.ByteMap.{ByteMap}
use pair_db.Topology.{
  StorageNode, NodeState, NodeStatus, RangeInfo, TokenRange, PendingChange, PendingChangeStatus,
}
use pair_db.KeyRanges.{KeyRange, calculate_key_ranges_for_new_node}
use pair_db.Routing.{route_add}
use pair_db.MetadataStore
use pair_db.NodeHandler.{
  Environment, Action, ◌>>=◌, return, Code, invalid_argument, internal, Assignments, update_store,
  get_storage_node, send_start, send_stop, stream_completed, wait_tick, read_clock, is_done,
  check_all, finish_change, completed_at, failed_at, clear_ranges, token_range, range_info,
}

pub record AddStorageNodeRequest : Type 0 where
  pub node_id : String
  pub host : String
  pub port : ℕ
  pub virtual_nodes : ℕ

-- `added` holds what the monitor is started with, and how many streams were started.
pub data AddResponse : Type 0 where
  refused : Code → AddResponse
  added : StorageNode → (streaming_started : ℕ) (change_id : String) → Assignments → AddResponse

-- the node that a request adds
unfoldable pub new_node : AddStorageNodeRequest → StorageNode
new_node req = record {
  node_id = req.node_id;
  host = req.host;
  port = req.port;
  status = NodeStatus.active;
  state = NodeState.bootstrapping;
  virtual_nodes = if req.virtual_nodes == 0 then 150 else req.virtual_nodes;
  tokens = [];
}

unfoldable pub pending_ranges : String → Assignments → List RangeInfo
pending_ranges node_id [] = []
pending_ranges node_id ((old_node, ranges) ∷ rest) =
    map (range_info old_node node_id) ranges ++ pending_ranges node_id rest

unfoldable pub token_ranges : Assignments → List TokenRange
token_ranges [] = []
token_ranges ((other, ranges) ∷ rest) = map token_range ranges ++ token_ranges rest

abbrev pub others : Assignments → List String
others = map (λ p. p.0)

unfoldable pub bootstrap_change : String → String → ℕ → Assignments → PendingChange
bootstrap_change change_id node_id now assignments = record {
  change_id = change_id;
  type = "bootstrap";
  node_id = node_id;
  affected_nodes = others assignments;
  ranges = token_ranges assignments;
  start_time = now;
  status = PendingChangeStatus.in_progress;
  error_message = "";
  last_updated = now;
  completed_at = 0;
  progress = [];
}

module _ (env : Environment) where
  abbrev pub start_source : StorageNode → String → List KeyRange → Option StorageNode → Action Bool
  start_source node old_node ranges none = return false
  start_source node old_node ranges (some found) = send_start env old_node node ranges

  -- how many streams to the node were started
  unfoldable pub start_sources : StorageNode → Assignments → Action ℕ
  start_sources node [] = return 0
  start_sources node ((old_node, ranges) ∷ rest) = do
    found ← get_storage_node env old_node
    is_started ← start_source node old_node ranges found
    count ← start_sources node rest
    return (if is_started then suc count else count)

  module _ (encode : String → Bytes) (hash : Bytes → ℕ) (order : ByteMap ℕ → ByteMap ℕ)
      (visit : ByteMap (List KeyRange) → Assignments) where
    abbrev pub moved_to : StorageNode → Action Assignments
    moved_to node c = (
      c,
      visit (
          calculate_key_ranges_for_new_node hash order c.ring (encode node.node_id)
            node.virtual_nodes),
    )

    abbrev pub add_streams : StorageNode → String → Assignments → Action AddResponse
    add_streams node change_id assignments = do
      streaming_started ← start_sources node assignments
      return (added node streaming_started change_id assignments)

    abbrev pub add_change : StorageNode → Assignments → Action AddResponse
    add_change node assignments = do
      now ← read_clock env
      let change_id = env.change_id_of "bootstrap" node.node_id now
      stored ← update_store env (
          MetadataStore.add_pending_change
            (bootstrap_change change_id node.node_id now assignments))
      if stored then add_streams node change_id assignments else return (refused internal)

    abbrev pub add_ranges : StorageNode → Action AddResponse
    add_ranges node = do
      assignments ← moved_to node
      stored ← update_store env (
          MetadataStore.update_node_ranges node.node_id (pending_ranges node.node_id assignments)
            [])
      if stored then add_change node assignments else return (refused internal)

    abbrev pub add_valid : StorageNode → Action AddResponse
    add_valid node = do
      stored ← update_store env (MetadataStore.add_storage_node env.before node)
      if stored then add_ranges node else return (refused internal)

    unfoldable pub add_storage_node : AddStorageNodeRequest → Action AddResponse
    add_storage_node req =
        if str_eq req.node_id ""
        then return (refused invalid_argument)
        else if str_eq req.host ""
        then return (refused invalid_argument)
        else if req.port == 0
        then return (refused invalid_argument)
        else add_valid (new_node req)

-- How the monitor ends.
pub data Joining : Type 0 where
  joined : Joining  -- with the state NORMAL
  state_not_updated : Joining
  hints_failed : Joining
  timed_out : Joining

module _ (env : Environment) (node : StorageNode) where
  abbrev pub ask_source : String → Option StorageNode → Action Bool
  ask_source source none = return false
  ask_source source (some found) = stream_completed env source node.node_id

  -- one source of a round: whether it has completed, and the completed sources
  unfoldable pub check_source : List String → String → Action Bool
  check_source done source =
      if is_done done source
      then return true
      else (get_storage_node env source >>= λ found. ask_source source found)

  abbrev pub stop_source : String → Option StorageNode → Action (Unit {0})
  stop_source source none = return tt
  stop_source source (some found) = send_stop env source node.node_id

  unfoldable pub stop_sources : List String → Action (Unit {0})
  stop_sources [] = return tt
  stop_sources (source ∷ sources) = do
    found ← get_storage_node env source
    stopped ← stop_source source found
    stop_sources sources

  unfoldable pub rollback_node_addition : List String → String → Action (Unit {0})
  rollback_node_addition sources change_id = do
    stopped ← stop_sources sources
    status ←
        update_store env (MetadataStore.update_storage_node_status node.node_id NodeStatus.failed)
    state ← update_store env (MetadataStore.update_node_state node.node_id NodeState.down)
    ranges ← clear_ranges env node.node_id
    change ←
        finish_change env (failed_at "Bootstrap timeout: streaming did not complete within 1 hour")
          change_id
    return tt

  module _ (encode : String → Bytes) (hash : Bytes → ℕ) where
    -- ReplayHintsForNode, and whether it returned no error
    unfoldable pub replay_hints : Action Bool
    replay_hints c = (record c { calls = suc c.calls }, env.hints_replayed c.calls)

    unfoldable pub add_to_ring : Action (Unit {0})
    add_to_ring c = (record c { ring = route_add encode hash node c.ring }, tt)

    unfoldable pub after_state : List String → String → Bool → Action Joining
    after_state sources change_id false = return state_not_updated
    after_state sources change_id true = do
      status ←
          update_store env (MetadataStore.update_storage_node_status node.node_id NodeStatus.active)
      ranges ← clear_ranges env node.node_id
      change ← finish_change env completed_at change_id
      stopped ← stop_sources sources
      return joined

    unfoldable pub after_hints : List String → String → Bool → Action Joining
    after_hints sources change_id false = do
      rolled_back ← rollback_node_addition sources change_id
      return hints_failed
    after_hints sources change_id true = do
      on_ring ← add_to_ring
      normal ← update_store env (MetadataStore.update_node_state node.node_id NodeState.normal)
      after_state sources change_id normal

    abbrev pub finish_joining : List String → String → Action Joining
    finish_joining sources change_id = do
      replayed ← replay_hints
      after_hints sources change_id replayed

    -- The loop, with the attempts to go.
    unfoldable pub monitor_streaming : ℕ → List String → String → List String → Action Joining
    monitor_streaming zero sources change_id done = do
      rolled_back ← rollback_node_addition sources change_id
      return timed_out
    monitor_streaming (suc todo) sources change_id done = do
      waited ← wait_tick env encode hash
      (all_completed, done') ← check_all check_source done sources
      (if all_completed
          then finish_joining sources change_id
          else monitor_streaming todo sources change_id done')

    abbrev pub max_attempts : ℕ
    max_attempts = 360

    unfoldable pub monitor_streaming_progress : List String → String → Action Joining
    monitor_streaming_progress sources change_id =
        monitor_streaming max_attempts sources change_id []
