-- ===== src/NodeHandler/Removal.antt =====
-- `RemoveStorageNodeV2`, `monitorRemovalProgress` and `rollbackNodeRemoval`. The monitor gets what the
-- request passes on: the node, the inheriting nodes and the id of the change.
use pair_db.Prelude.{
  ℕ, zero, suc, ◌-◌, Bool, true, false, ltb, not, ◌&&◌, if◌then◌else◌, Option, none, some, String,
  str_eq, List, [], ◌∷◌, ◌++◌, map, count_if,
}
use pair_db.Bytes.{Bytes}
use pair_db.ByteMap.{ByteMap}
use pair_db.Topology.{
  StorageNode, NodeState, NodeStatus, RangeInfo, PendingChange, PendingChangeStatus,
}
use pair_db.KeyRanges.{KeyRange, calculate_key_ranges_for_removed_node}
use pair_db.Routing.{is_on_ring, route_remove}
use pair_db.MetadataStore
use pair_db.NodeHandler.{
  Environment, Action, ◌>>=◌, return, Code, invalid_argument, not_found, failed_precondition,
  internal, Assignments, update_store, list_nodes, get_storage_node, send_start, send_stop, is_done,
  check_all, stream_completed, wait_tick, read_clock, finish_change, completed_at, failed_at,
  clear_ranges, clear_all_ranges, range_info,
}
use pair_db.NodeHandler.Addition.{token_ranges, others}

pub record RemoveStorageNodeRequest : Type 0 where
  pub node_id : String
  pub force : Bool

-- `leaving` holds what the monitor is started with, and how many streams were started.
pub data RemoveResponse : Type 0 where
  refused : Code → RemoveResponse
  leaving :
      StorageNode → (streaming_started : ℕ) (change_id : String) → Assignments → RemoveResponse

-- active or bootstrapping, as `is_on_ring` of the routing service
unfoldable pub active_node_count : List StorageNode → ℕ
active_node_count = count_if (λ node. is_on_ring node.status)

-- The count less one is below three; a count of 0 is below it too.
unfoldable pub is_too_small : Bool → List StorageNode → Bool
is_too_small force nodes = not force && ltb (active_node_count nodes - 1) 3

unfoldable pub leaving_ranges : String → Assignments → List RangeInfo
leaving_ranges node_id [] = []
leaving_ranges node_id ((inheritor, ranges) ∷ rest) =
    map (range_info node_id inheritor) ranges ++ leaving_ranges node_id rest

unfoldable pub decommission_change : String → String → ℕ → Assignments → PendingChange
decommission_change change_id node_id now assignments = record {
  change_id = change_id;
  type = "decommission";
  node_id = node_id;
  affected_nodes = others assignments ++ node_id ∷ [];
  ranges = token_ranges assignments;
  start_time = now;
  status = PendingChangeStatus.in_progress;
  error_message = "";
  last_updated = now;
  completed_at = 0;
  progress = [];
}

module _ (env : Environment) where
  -- The pending ranges of the inheriting nodes; an error is only logged.
  unfoldable pub add_inherited : String → Assignments → Action (Unit {0})
  add_inherited node_id [] = return tt
  add_inherited node_id ((inheritor, ranges) ∷ rest) = do
    stored ←
        update_store env (
          MetadataStore.update_node_ranges inheritor (map (range_info node_id inheritor) ranges) [])
    add_inherited node_id rest

  abbrev start_inheritor : String → List KeyRange → Option StorageNode → Action Bool
  start_inheritor node_id ranges none = return false
  start_inheritor node_id ranges (some inheritor) = send_start env node_id inheritor ranges

  -- how many streams from the node were started
  unfoldable pub start_inheritors : String → Assignments → Action ℕ
  start_inheritors node_id [] = return 0
  start_inheritors node_id ((inheritor, ranges) ∷ rest) = do
    found ← get_storage_node env inheritor
    is_started ← start_inheritor node_id ranges found
    count ← start_inheritors node_id rest
    return (if is_started then suc count else count)

  module _ (encode : String → Bytes) (hash : Bytes → ℕ) (order : ByteMap ℕ → ByteMap ℕ)
      (visit : ByteMap (List KeyRange) → Assignments) where
    abbrev inherited_from : StorageNode → Action Assignments
    inherited_from node c =
        (c, visit (calculate_key_ranges_for_removed_node hash order c.ring (encode node.node_id)))

    abbrev leave_streams : StorageNode → String → Assignments → Action RemoveResponse
    leave_streams node change_id assignments = do
      streaming_started ← start_inheritors node.node_id assignments
      return (leaving node streaming_started change_id assignments)

    abbrev leave_change : StorageNode → Assignments → Action RemoveResponse
    leave_change node assignments = do
      inherited ← add_inherited node.node_id assignments
      now ← read_clock env
      let change_id = env.change_id_of "decommission" node.node_id now
      stored ← update_store env (
          MetadataStore.add_pending_change
            (decommission_change change_id node.node_id now assignments))
      if stored then leave_streams node change_id assignments else return (refused internal)

    abbrev leave_ranges : StorageNode → Action RemoveResponse
    leave_ranges node = do
      assignments ← inherited_from node
      stored ← update_store env (
          MetadataStore.update_node_ranges node.node_id []
            (leaving_ranges node.node_id assignments))
      if stored then leave_change node assignments else return (refused internal)

    abbrev leave_state : StorageNode → Action RemoveResponse
    leave_state node = do
      stored ← update_store env (MetadataStore.update_node_state node.node_id NodeState.leaving)
      if stored then leave_ranges node else return (refused internal)

    abbrev leave_status : StorageNode → Action RemoveResponse
    leave_status node = do
      stored ←
          update_store env
            (MetadataStore.update_storage_node_status node.node_id NodeStatus.draining)
      if stored then leave_state node else return (refused internal)

    unfoldable pub remove_counted :
        Bool → StorageNode → Option (List StorageNode) → Action RemoveResponse
    remove_counted force node none = return (refused internal)
    remove_counted force node (some nodes) =
        if is_too_small force nodes then return (refused failed_precondition) else leave_status node

    unfoldable pub remove_found : Bool → Option StorageNode → Action RemoveResponse
    remove_found force none = return (refused not_found)
    remove_found force (some node) = list_nodes env >>= remove_counted force node

    unfoldable pub remove_storage_node : RemoveStorageNodeRequest → Action RemoveResponse
    remove_storage_node req =
        if str_eq req.node_id ""
        then return (refused invalid_argument)
        else (get_storage_node env req.node_id >>= remove_found req.force)

-- How the monitor ends.
pub data Leaving : Type 0 where
  removed : Leaving
  not_deleted : Leaving  -- off the ring, but still in the metadata store
  rolled_back : Leaving

module _ (env : Environment) (node_id : String) where
  -- one inheriting node of a round: whether its stream has completed
  unfoldable pub check_inheritor : List String → String → Action Bool
  check_inheritor done inheritor =
      if is_done done inheritor then return true else stream_completed env node_id inheritor

  unfoldable pub stop_inheritors : List String → Action (Unit {0})
  stop_inheritors [] = return tt
  stop_inheritors (inheritor ∷ inheritors) = do
    stopped ← send_stop env node_id inheritor
    stop_inheritors inheritors

  unfoldable pub rollback_node_removal : List String → String → Action (Unit {0})
  rollback_node_removal inheritors change_id = do
    stopped ← stop_inheritors inheritors
    ranges ← clear_ranges env node_id
    cleared ← clear_all_ranges env inheritors
    state ← update_store env (MetadataStore.update_node_state node_id NodeState.normal)
    status ← update_store env (MetadataStore.update_storage_node_status node_id NodeStatus.active)
    change ←
        finish_change env
          (failed_at "Decommission timeout: streaming did not complete within 1 hour") change_id
    return tt

  module _ (encode : String → Bytes) (hash : Bytes → ℕ) where
    unfoldable pub remove_from_ring : Action (Unit {0})
    remove_from_ring c = (record c { ring = route_remove encode hash node_id c.ring }, tt)

    unfoldable pub after_delete : List String → String → Bool → Action Leaving
    after_delete inheritors change_id false = return not_deleted
    after_delete inheritors change_id true = do
      change ← finish_change env completed_at change_id
      stopped ← stop_inheritors inheritors
      return removed

    abbrev pub finish_leaving : List String → String → Action Leaving
    finish_leaving inheritors change_id = do
      off_ring ← remove_from_ring
      cleared ← clear_all_ranges env inheritors
      deleted ← update_store env (MetadataStore.remove_storage_node node_id)
      after_delete inheritors change_id deleted

    -- The loop, with the attempts to go.
    unfoldable pub monitor_removal : ℕ → List String → String → List String → Action Leaving
    monitor_removal zero inheritors change_id done = do
      undone ← rollback_node_removal inheritors change_id
      return rolled_back
    monitor_removal (suc todo) inheritors change_id done = do
      waited ← wait_tick env encode hash
      (all_completed, done') ← check_all check_inheritor done inheritors
      (if all_completed
          then finish_leaving inheritors change_id
          else monitor_removal todo inheritors change_id done')

    abbrev pub max_attempts : ℕ
    max_attempts = 360

    unfoldable pub monitor_removal_progress : List String → String → Action Leaving
    monitor_removal_progress inheritors change_id =
        monitor_removal max_attempts inheritors change_id []
