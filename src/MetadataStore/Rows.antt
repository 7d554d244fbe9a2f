-- ===== src/MetadataStore/Rows.antt =====
-- What the statements do to the row of a node.
use pair_db.Prelude.{
  Bool, true, false, if◌then◌else◌, Option, none, some, String, str_eq, eq_iff, List, [], ◌∷◌, ◌≡◌,
  refl, arith, Bool-cases, Option-cases, inl, inr,
}
use pair_db.Topology.{StorageNode, NodeState, NodeStatus, RangeInfo, PendingChange}
use pair_db.MetadataStore.{
  NodeRow, Database, find_row, update_rows, update_node, set_status, set_state, set_ranges,
  update_storage_node_status, update_node_state, update_node_ranges, add_storage_node, insert_row,
  is_valid_row, is_allowed, add_pending_change, update_pending_change, find_change, is_change_type,
}

-- `set` on the row that is found, if there is one
abbrev pub change_row : (NodeRow → NodeRow) → Option NodeRow → Option NodeRow
change_row set none = none
change_row set (some row) = some (set row)

abbrev pub is_some : Option NodeRow → Bool
is_some none = false
is_some (some row) = true

-- The metadata store has a row of the node.
abbrev pub Stored : String → Database → Type 0
Stored id db = is_some (find_row id db.storage_nodes) ≡ true

-- `set` leaves the key alone.
abbrev pub KeepsKey : (NodeRow → NodeRow) → Type 0
KeepsKey set = (row : NodeRow) → (set row).node.node_id ≡ row.node.node_id

pub find_row-update_rows :
    (set : NodeRow → NodeRow) (id other : String) (rows : List NodeRow)
    → KeepsKey set
    → find_row other (update_rows id set rows)
      ≡ (if str_eq id other then change_row set (find_row other rows) else find_row other rows)
unfolding find_row update_rows
find_row-update_rows set id other [] k = ground arith
find_row-update_rows set id other (row ∷ rows) k = ground (
  arith,
  find_row-update_rows set id other rows k,
  k row,
  eq_iff row.node.node_id id,
  eq_iff row.node.node_id other,
  eq_iff (set row).node.node_id other,
  eq_iff id other,
)

-- An update that succeeds finds a row, and changes it alone.
pub find_row-update_node :
    (set : NodeRow → NodeRow) (id other : String) (db db' : Database)
    → KeepsKey set
    → update_node id set db ≡ some db'
    → find_row other db'.storage_nodes ≡ (
        if str_eq id other
        then change_row set (find_row other db.storage_nodes)
        else find_row other db.storage_nodes)
unfolding update_node
find_row-update_node set id other db db' k e = elim (Option-cases (find_row id db.storage_nodes)) [
  | inl absent ↦ absurd (ground (arith, absent))
  | inr (row, found) ↦
      let rows : db'.storage_nodes ≡ update_rows id set db.storage_nodes = ground (arith, found) in
      rw rows (find_row-update_rows set id other db.storage_nodes k)
]

pub set_status-KeepsKey : (status : NodeStatus) → KeepsKey (set_status status)
unfolding set_status
set_status-KeepsKey status row = refl

pub set_state-KeepsKey : (state : NodeState) → KeepsKey (set_state state)
unfolding set_state
set_state-KeepsKey state row = refl

pub set_ranges-KeepsKey : (pending leaving : List RangeInfo) → KeepsKey (set_ranges pending leaving)
unfolding set_ranges
set_ranges-KeepsKey pending leaving row = refl

-- A statement that deletes no row.
abbrev pub KeepsRows : (Database → Option Database) → Type 0
KeepsRows statement =
    (id : String) (db db' : Database) → statement db ≡ some db' → Stored id db → Stored id db'

update_node-KeepsRows :
    (set : NodeRow → NodeRow) (at : String) → KeepsKey set → KeepsRows (update_node at set)
update_node-KeepsRows set at k id db db' e stored =
    elim (Option-cases (find_row id db.storage_nodes)) [
      | inl absent ↦ absurd (ground (arith, absent))
      | inr (row, found) ↦ ground (arith, found, find_row-update_node set at id db db' k e)
    ]

pub state-KeepsRows : (at : String) (state : NodeState) → KeepsRows (update_node_state at state)
unfolding update_node_state
state-KeepsRows at state = update_node-KeepsRows (set_state state) at (set_state-KeepsKey state)

pub ranges-KeepsRows :
    (at : String) (pending leaving : List RangeInfo)
    → KeepsRows (update_node_ranges at pending leaving)
unfolding update_node_ranges
ranges-KeepsRows at pending leaving =
    update_node-KeepsRows (set_ranges pending leaving) at (set_ranges-KeepsKey pending leaving)

pub status-is_update :
    (at : String) (status : NodeStatus) (db db' : Database)
    → update_storage_node_status at status db ≡ some db'
    → update_node at (set_status status) db ≡ some db'
unfolding update_storage_node_status
status-is_update at status db db' e = elim (Option-cases (find_row at db.storage_nodes)) [
  | inl absent ↦ absurd (ground (arith, absent))
  | inr (row, found) ↦ elim (Bool-cases (is_allowed status)) [
    | inl allowed ↦ ground (arith, found, allowed)
    | inr refused ↦ absurd (ground (arith, found, refused))
  ]
]

pub status-KeepsRows :
    (at : String) (status : NodeStatus) → KeepsRows (update_storage_node_status at status)
status-KeepsRows at status id db db' e =
    update_node-KeepsRows (set_status status) at (set_status-KeepsKey status) id db db'
      (status-is_update at status db db' e)

insert_row-keeps :
    (before : String → String → Bool) (row : NodeRow) (id : String) (rows : List NodeRow)
    → is_some (find_row id rows) ≡ true
    → is_some (find_row id (insert_row before row rows)) ≡ true
unfolding find_row insert_row
insert_row-keeps before row id [] h = ground arith
insert_row-keeps before row id (r ∷ rows) h = ground (arith, insert_row-keeps before row id rows)

pub add-KeepsRows :
    (before : String → String → Bool) (node : StorageNode)
    → KeepsRows (add_storage_node before node)
unfolding add_storage_node
add-KeepsRows before node id db db' e stored =
    let row : NodeRow = record { node = node; pending_ranges = []; leaving_ranges = [] } in
    let kept = insert_row-keeps before row id db.storage_nodes stored in
    elim (Option-cases (find_row node.node_id db.storage_nodes)) [
      | inr (old, found) ↦ absurd (ground (arith, found))
      | inl absent ↦ elim (Bool-cases (is_valid_row node)) [
        | inl valid ↦
            let rows : db'.storage_nodes ≡ insert_row before row db.storage_nodes =
              ground (arith, absent, valid) in
            rw rows kept
        | inr invalid ↦ absurd (ground (arith, absent, invalid))
      ]
    ]

pub add_change-rows :
    (change : PendingChange) (db db' : Database)
    → add_pending_change change db ≡ some db'
    → db'.storage_nodes ≡ db.storage_nodes
unfolding add_pending_change
add_change-rows change db db' e =
    elim (Option-cases (find_change change.change_id db.pending_changes)) [
      | inr (old, taken) ↦ absurd (ground (arith, taken))
      | inl free ↦ elim (Option-cases (find_row change.node_id db.storage_nodes)) [
        | inl absent ↦ absurd (ground (arith, free, absent))
        | inr (row, found) ↦ elim (Bool-cases (is_change_type change.type)) [
          | inl valid ↦ ground (arith, free, found, valid)
          | inr invalid ↦ absurd (ground (arith, free, found, invalid))
        ]
      ]
    ]

pub update_change-rows :
    (change : PendingChange) (db db' : Database)
    → update_pending_change change db ≡ some db'
    → db'.storage_nodes ≡ db.storage_nodes
unfolding update_pending_change
update_change-rows change db db' e =
    elim (Option-cases (find_change change.change_id db.pending_changes)) [
      | inl absent ↦ absurd (ground (arith, absent))
      | inr (old, found) ↦ ground (arith, found)
    ]

pub add_change-KeepsRows : (change : PendingChange) → KeepsRows (add_pending_change change)
add_change-KeepsRows change id db db' e stored = rw (add_change-rows change db db' e) stored

pub update_change-KeepsRows : (change : PendingChange) → KeepsRows (update_pending_change change)
update_change-KeepsRows change id db db' e stored = rw (update_change-rows change db db' e) stored
