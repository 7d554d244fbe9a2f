-- ===== src/Tests/Nodes.antt =====
-- A cluster of three nodes that a node joins or leaves.
use pair_db.Prelude.{
  ℕ, ◌<◌, String, List, [], ◌∷◌, true, false, some, ◌≡◌, ◌≢◌, refl, arith, inl, inr,
}
use pair_db.ByteMap.{ByteMap}
use pair_db.Ring.{new_hasher, contains, vnode_id_of}
use pair_db.Topology.{StorageNode, NodeState, NodeStatus}
use pair_db.KeyRanges.{KeyRange}
use pair_db.Routing.{update_hash_ring, is_on_ring}
use pair_db.MetadataStore.{
  NodeRow, ChangeRow, find_row, find_change, change_row, list_storage_nodes, set_state, set_ranges,
  update_node_state, update_node, set_status, update_node_ranges, add_pending_change,
}
use pair_db.MetadataStore
use pair_db.NodeHandler.{
  Environment, Cluster, Assignments, check_all, is_done, get_storage_node, list_nodes,
  stream_completed, update_store, wait_tick, send_start,
}
use pair_db.NodeHandler.Addition.{
  AddStorageNodeRequest, new_node, bootstrap_change, add_storage_node, monitor_streaming_progress,
  added, AddResponse, start_sources, pending_ranges, token_ranges, rollback_node_addition, joined,
  monitor_streaming, check_source, replay_hints, after_hints, after_state, add_to_ring,
}
use pair_db.NodeHandler.Removal.{
  rolled_back, remove_storage_node, active_node_count, monitor_removal_progress,
}
use pair_db.NodeHandler.States.{state_of}
use pair_db.NodeHandler.Undone.{monitor_removal_progress-rolled_back}
use pair_db.NodeHandler.Started.{add_storage_node-places}
use pair_db.NodeHandler.Joins
use pair_db.NodeHandler.Joins.{monitor_streaming_progress-Ends}
use pair_db.NodeHandler.Leaves
use pair_db.NodeHandler.Rollback.{rollback_addition-places}
use pair_db.NodeHandler.Guard.{IsRefused, remove-IsRefused}
use pair_db.NodeHandler.Unrecorded.{monitor_streaming_progress-unrecorded}
use pair_db.Tests.Data.{node}
use pair_db.Tests.Routes.{name_bytes, weigh}

-- Every call gets through, the driver cannot read NULL, and streams are reported as `state`.
abbrev world : String → Environment
world state = record {
  reaches = λ n. true;
  stream_state = λ n source target. some state;
  stream_started = λ n. some true;
  hints_replayed = λ n. true;
  refreshes = λ n. true;
  now = λ n. n;
  scan_text = λ text. text;
  before = λ a b. false;
  change_id_of = λ type id now. type;
}

abbrev row : StorageNode → NodeRow
row n = record { node = n; pending_ranges = []; leaving_ranges = [] }

-- A change that has just been stored, for the node "b".
abbrev begun : ChangeRow
begun = change_row (bootstrap_change "change" "b" 3 [])

abbrev cluster : Cluster
cluster = record {
  store = record {
    storage_nodes = row (node "a") ∷ row (node "b") ∷ row (node "c") ∷ [];
    pending_changes = begun ∷ [];
  };
  ring = new_hasher;
  calls = 0;
  requests = [];
}

-- "b" as a removal has left it
abbrev draining : NodeRow
draining = row (record (node "b") { status = NodeStatus.draining; state = NodeState.leaving })

abbrev leaving_cluster : Cluster
leaving_cluster = record cluster {
  store = record (cluster.store) {
    storage_nodes = row (node "a") ∷ draining ∷ row (node "c") ∷ [];
  };
}

b_drains : find_row "b" leaving_cluster.store.storage_nodes ≡ some draining
unfolding find_row
b_drains = refl

-- "b" as an addition has left it
abbrev joining : NodeRow
joining = row (record (node "b") { state = NodeState.bootstrapping })

abbrev joining_cluster : Cluster
joining_cluster = record cluster {
  store = record (cluster.store) { storage_nodes = row (node "a") ∷ joining ∷ row (node "c") ∷ [] };
}

b_joins : find_row "b" joining_cluster.store.storage_nodes ≡ some joining
unfolding find_row
b_joins = refl

abbrev keep_order : ByteMap ℕ → ByteMap ℕ
keep_order m = m

abbrev no_ranges : ByteMap (List KeyRange) → Assignments
no_ranges m = []

others : List String
others = "a" ∷ "c" ∷ []

b_is_not_normal : state_of "b" joining_cluster ≢ some NodeState.normal
unfolding find_row
b_is_not_normal e = ground (arith, e)

monitor_streaming_progress-Ends_example :
    let r =
      monitor_streaming_progress
        (world "completed")
        (node "b")
        name_bytes
        weigh
        others
        "change"
        joining_cluster in
    Joins.Ends (world "completed") (node "b") 0 name_bytes weigh others r.1 r.0
monitor_streaming_progress-Ends_example =
    monitor_streaming_progress-Ends (world "completed") (node "b") name_bytes weigh others "change"
      joining_cluster b_is_not_normal

monitor_removal_progress-rolled_back_example :
    let r =
      monitor_removal_progress
        (world "copying")
        "b"
        name_bytes
        weigh
        others
        "change"
        leaving_cluster in
    (r.1 ≡ rolled_back)
    × (find_row "b" r.0.store.storage_nodes
        ≡ some
            (set_status NodeStatus.active (set_state NodeState.normal (set_ranges [] [] draining))))
unfolding others
monitor_removal_progress-rolled_back_example =
    monitor_removal_progress-rolled_back (world "copying") "b" name_bytes weigh others "c" "change"
      draining leaving_cluster (λ n. refl) (λ n. refl) (inr (inl refl)) b_drains

abbrev request : AddStorageNodeRequest
request = record { node_id = "d"; host = "localhost"; port = 9000; virtual_nodes = 0 }

-- one range of "a" moves
abbrev one_range : ByteMap (List KeyRange) → Assignments
one_range m = ("a", record { start_hash = 10; end_hash = 20 } ∷ []) ∷ []

abbrev adding : Cluster × AddResponse
adding = add_storage_node (world "copying") name_bytes weigh keep_order one_range request cluster

adding_run : adding.1 ≡ added (new_node request) 1 "bootstrap" (one_range [])
unfolding add_storage_node start_sources get_storage_node list_nodes send_start update_store
    MetadataStore.add_storage_node update_node_ranges update_node find_row list_storage_nodes
    add_pending_change find_change bootstrap_change new_node pending_ranges token_ranges
    MetadataStore.is_valid_row MetadataStore.insert_row MetadataStore.update_rows set_ranges
adding_run = refl

add_storage_node-places_example :
    contains
      (wait_tick (world "copying") name_bytes weigh adding.0).0.ring.ring
      (weigh (vnode_id_of (name_bytes "d") 0))
    ≡ true
unfolding new_node
add_storage_node-places_example =
    add_storage_node-places (world "copying") name_bytes weigh keep_order one_range request cluster
      (new_node request) 1 "bootstrap" (one_range []) 0 adding_run refl (omega arith)

rollback_addition-places_example :
    let db =
      (rollback_node_addition
        (world "copying")
        (node "b")
        others
        "change"
        joining_cluster).0.store in
    (find_row "b" db.storage_nodes ≡ some (set_ranges [] [] (set_state NodeState.down joining)))
    × (contains
          (update_hash_ring name_bytes weigh (some (list_storage_nodes db)) new_hasher).0.ring
          (weigh (vnode_id_of (name_bytes "b") 0))
        ≡ true)
rollback_addition-places_example =
    rollback_addition-places (world "copying") name_bytes weigh (node "b") others "change" joining
      joining_cluster new_hasher 0 (λ n. refl) b_joins refl (omega arith)

three_active : active_node_count (list_storage_nodes cluster.store) < 4
unfolding active_node_count list_storage_nodes is_on_ring
three_active = omega arith

remove-IsRefused_example :
    let r =
      remove_storage_node
        (world "copying")
        name_bytes
        weigh
        keep_order
        no_ranges
        (record { node_id = "b"; force = false })
        cluster in
    IsRefused r.1 × (r.0.store ≡ cluster.store) × (r.0.ring ≡ cluster.ring)
remove-IsRefused_example =
    remove-IsRefused (world "copying") name_bytes weigh keep_order no_ranges "b" cluster
      three_active

change_begun : find_change "change" cluster.store.pending_changes ≡ some begun
unfolding find_change bootstrap_change
change_begun = refl

monitor_streaming_progress-unrecorded_example :
    (monitor_streaming_progress
      (world "completed")
      (node "b")
      name_bytes
      weigh
      others
      "change"
      cluster).0.store.pending_changes
    ≡ cluster.store.pending_changes
monitor_streaming_progress-unrecorded_example =
    monitor_streaming_progress-unrecorded (world "completed") (node "b") name_bytes weigh others
      "change" begun cluster refl change_begun refl

-- When the streams are reported as complete the node joins.
completed_joins :
    (monitor_streaming_progress
      (world "completed")
      (node "b")
      name_bytes
      weigh
      others
      "change"
      joining_cluster).1
    ≡ joined
unfolding monitor_streaming_progress monitor_streaming wait_tick check_all check_source is_done
    others get_storage_node list_nodes stream_completed replay_hints after_hints after_state
    add_to_ring update_store update_node_state update_node find_row list_storage_nodes
completed_joins = refl
