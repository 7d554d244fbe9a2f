-- ===== src/MetadataStore.antt =====
-- coordinator/internal/store/postgres_metadata_store.go on the tables of coordinator/migrations: an
-- operation is the SQL statement on the rows, `none` where the database or the code reports an error. The
-- CHECK constraints, primary keys and the foreign key of 001_initial_schema.sql and
-- 004_add_topology_tracking.sql are kept; the lengths of texts are not. The rows stand in the order of
-- their key, which ORDER BY asks for; `before` is the database's order of texts. Ports and counts of
-- virtual nodes are natural numbers. `scan_text` is what the driver's Scan makes of a text column that may
-- be NULL, when it reads it into a string.
pub mod Rows
use pair_db.Prelude.{
  ℕ, Bool, true, false, ltb, leb, ◌==◌, not, ◌&&◌, if◌then◌else◌, Option, none, some, String,
  str_eq, List, [], ◌∷◌, select, map, ◌>>=◌,
}
use pair_db.Topology.{
  StorageNode, NodeState, NodeStatus, RangeInfo, PendingChange, PendingChangeStatus,
}

-- a row of storage_nodes
pub record NodeRow : Type 0 where
  pub node : StorageNode
  pub pending_ranges : List RangeInfo
  pub leaving_ranges : List RangeInfo

-- a row of pending_changes; error_message may be NULL
pub record ChangeRow : Type 0 where
  pub change : PendingChange
  pub error_text : Option String

pub record Database : Type 0 where
  pub storage_nodes : List NodeRow
  pub pending_changes : List ChangeRow

-- CHECK (status IN ('active', 'draining', 'inactive'))
abbrev pub is_allowed : NodeStatus → Bool
is_allowed NodeStatus.active = true
is_allowed NodeStatus.draining = true
is_allowed NodeStatus.inactive = true
is_allowed _ = false

abbrev pub is_inactive : NodeStatus → Bool
is_inactive NodeStatus.inactive = true
is_inactive _ = false

-- WHERE node_id = id
unfoldable pub find_row : String → List NodeRow → Option NodeRow
find_row id [] = none
find_row id (row ∷ rows) =
    let rest = find_row id rows in if str_eq row.node.node_id id then some row else rest

unfoldable pub find_change : String → List ChangeRow → Option ChangeRow
find_change id [] = none
find_change id (row ∷ rows) =
    let rest = find_change id rows in if str_eq row.change.change_id id then some row else rest

-- UPDATE storage_nodes SET … WHERE node_id = id
unfoldable pub update_rows : String → (NodeRow → NodeRow) → List NodeRow → List NodeRow
update_rows id set = map (λ row. if str_eq row.node.node_id id then set row else row)

unfoldable pub list_storage_nodes : Database → List StorageNode
list_storage_nodes db =
    select (λ node. not (is_inactive node.status)) (map (λ row. row.node) db.storage_nodes)

-- the columns of a new row that the schema checks
unfoldable pub is_valid_row : StorageNode → Bool
is_valid_row node =
    ltb 0 node.port && ltb node.port 65536 && is_allowed node.status && ltb 0 node.virtual_nodes

unfoldable pub insert_row :
    (before : String → String → Bool) → NodeRow → List NodeRow → List NodeRow
insert_row before row [] = row ∷ []
insert_row before row (other ∷ rows) =
    let rest = insert_row before row rows in
    if before row.node.node_id other.node.node_id then row ∷ other ∷ rows else other ∷ rest

unfoldable pub add_storage_node :
    (before : String → String → Bool) → StorageNode → Database → Option Database
add_storage_node before node db = elim (find_row node.node_id db.storage_nodes) [
  | some _ ↦ none
  | none ↦
      if is_valid_row node
      then some (record db {
        storage_nodes =
            insert_row before (record { node = node; pending_ranges = []; leaving_ranges = [] })
              db.storage_nodes;
      })
      else none
]

-- With ON DELETE CASCADE the changes of the node go too.
unfoldable pub remove_storage_node : String → Database → Option Database
remove_storage_node id db = elim (find_row id db.storage_nodes) [
  | none ↦ none
  | some _ ↦ some (record {
    storage_nodes = select (λ row. not (str_eq row.node.node_id id)) db.storage_nodes;
    pending_changes = select (λ row. not (str_eq row.change.node_id id)) db.pending_changes;
  })
]

-- an update of one row; none is an error
unfoldable pub update_node : String → (NodeRow → NodeRow) → Database → Option Database
update_node id set db = elim (find_row id db.storage_nodes) [
  | none ↦ none
  | some _ ↦ some (record db { storage_nodes = update_rows id set db.storage_nodes })
]

unfoldable pub set_status : NodeStatus → NodeRow → NodeRow
set_status status row = record row { node = record (row.node) { status = status } }

unfoldable pub set_state : NodeState → NodeRow → NodeRow
set_state state row = record row { node = record (row.node) { state = state } }

unfoldable pub set_ranges : List RangeInfo → List RangeInfo → NodeRow → NodeRow
set_ranges pending leaving row = record row { pending_ranges = pending; leaving_ranges = leaving }

unfoldable pub update_storage_node_status : String → NodeStatus → Database → Option Database
update_storage_node_status id status db = elim (find_row id db.storage_nodes) [
  | none ↦ none
  | some _ ↦ if is_allowed status then update_node id (set_status status) db else none
]

unfoldable pub update_node_state : String → NodeState → Database → Option Database
update_node_state id state = update_node id (set_state state)

unfoldable pub update_node_ranges :
    String → List RangeInfo → List RangeInfo → Database → Option Database
update_node_ranges id pending leaving = update_node id (set_ranges pending leaving)

unfoldable pub get_storage_node : String → Database → Option NodeRow
get_storage_node id db = find_row id db.storage_nodes

-- CHECK (type IN ('bootstrap', 'decommission'))
abbrev pub is_change_type : String → Bool
is_change_type type = if str_eq type "bootstrap" then true else str_eq type "decommission"

-- What INSERT INTO pending_changes keeps: error_message is NULL, and CompletedAt has no column.
abbrev pub change_row : PendingChange → ChangeRow
change_row change = record {
  change = record change { error_message = ""; completed_at = 0 };
  error_text = none;
}

unfoldable pub add_pending_change : PendingChange → Database → Option Database
add_pending_change change db = elim (find_change change.change_id db.pending_changes) [
  | some _ ↦ none
  | none ↦ elim (find_row change.node_id db.storage_nodes) [
    | none ↦ none
    | some _ ↦
        if is_change_type change.type
        then some (record db { pending_changes = change_row change ∷ db.pending_changes })
        else none
  ]
]

unfoldable pub get_pending_change :
    (scan_text : Option String → Option String) → String → Database → Option PendingChange
get_pending_change scan_text id db = find_change id db.pending_changes >>= λ row.
    scan_text row.error_text >>= λ message. some (record (row.change) { error_message = message })

-- UPDATE pending_changes SET status, error_message, last_updated, progress
abbrev pub overwrite : PendingChange → ChangeRow → ChangeRow
overwrite change row = record {
  change = record (row.change) {
    status = change.status;
    last_updated = change.last_updated;
    progress = change.progress;
  };
  error_text = some change.error_message;
}

unfoldable pub update_pending_change : PendingChange → Database → Option Database
update_pending_change change db = elim (find_change change.change_id db.pending_changes) [
  | none ↦ none
  | some _ ↦ some (record db {
    pending_changes =
        map
          (λ row.
            if str_eq row.change.change_id change.change_id then overwrite change row else row)
          db.pending_changes;
  })
]

unfoldable pub delete_pending_change : String → Database → Option Database
delete_pending_change id db = elim (find_change id db.pending_changes) [
  | none ↦ none
  | some _ ↦ some (record db {
    pending_changes = select (λ row. not (str_eq row.change.change_id id)) db.pending_changes;
  })
]
