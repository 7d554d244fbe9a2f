-- ===== src/NodeHandler/Rows.antt =====
-- The row of a node after each call of the metadata store, where it does not fail for a reason of its own.
use pair_db.Prelude.{
  ℕ, true, if◌then◌else◌, Option, none, some, String, str_eq, eq_iff, List, [], ◌∷◌, ◌≡◌, refl,
  arith, Bool-cases, Option-cases, inl, inr, ◌∙◌, ap,
}
use pair_db.Topology.{StorageNode, NodeState, NodeStatus, PendingChange}
use pair_db.MetadataStore
use pair_db.MetadataStore.{
  Database, NodeRow, find_row, update_node, set_status, set_state, set_ranges, is_inactive,
  list_storage_nodes,
}
use pair_db.MetadataStore.Rows.{
  change_row, KeepsKey, find_row-update_node, set_status-KeepsKey, set_state-KeepsKey,
  set_ranges-KeepsKey,
}
use pair_db.NodeHandler.{
  Environment, Cluster, update_store, get_storage_node, list_nodes, send_stop, clear_ranges,
  clear_all_ranges, finish_change,
}
use pair_db.NodeHandler.Addition.{stop_source, stop_sources}
use pair_db.NodeHandler.Removal.{stop_inheritors}
use pair_db.NodeHandler.Calm.{finish_change-rows}

-- the row of a node in a state
abbrev pub row_of : String → Cluster → Option NodeRow
row_of id c = find_row id c.store.storage_nodes

update_node-absent :
    (set : NodeRow → NodeRow) (id : String) (db : Database)
    → update_node id set db ≡ none
    → find_row id db.storage_nodes ≡ none
unfolding update_node
update_node-absent set id db e = elim (Option-cases (find_row id db.storage_nodes)) [
  | inl absent ↦ absent
  | inr (row, found) ↦ absurd (ground (arith, found))
]

refuses_failed :
    (id : String) (db : Database)
    → MetadataStore.update_storage_node_status id NodeStatus.failed db ≡ none
unfolding MetadataStore.update_storage_node_status
refuses_failed id db = elim (Option-cases (find_row id db.storage_nodes)) [
  | inl absent ↦ rw (MetadataStore.update_storage_node_status, absent) refl
  | inr (row, found) ↦ rw (MetadataStore.update_storage_node_status, found) refl
]

allows_active :
    (id : String) (db : Database)
    → MetadataStore.update_storage_node_status id NodeStatus.active db
      ≡ update_node id (set_status NodeStatus.active) db
unfolding MetadataStore.update_storage_node_status update_node
allows_active id db = elim (Option-cases (find_row id db.storage_nodes)) [
  | inl absent ↦ rw (MetadataStore.update_storage_node_status, update_node, absent) refl
  | inr (row, found) ↦ rw (MetadataStore.update_storage_node_status, found) refl
]

-- The calls that stop the streams leave the metadata store alone.
module _ (env : Environment) where
  stop_source-store :
      (node : StorageNode) (source : String) (found : Option StorageNode) (c : Cluster)
      → (stop_source env node source found c).0.store ≡ c.store
  unfolding send_stop
  stop_source-store node source none c = refl
  stop_source-store node source (some at) c = refl

  pub stop_sources-store :
      (node : StorageNode) (sources : List String) (c : Cluster)
      → (stop_sources env node sources c).0.store ≡ c.store
  unfolding stop_sources get_storage_node list_nodes
  stop_sources-store node [] c = refl
  stop_sources-store node (source ∷ sources) c =
      let (c1, found) = get_storage_node env source c in
      stop_sources-store node sources (stop_source env node source found c1).0
      ∙ stop_source-store node source found c1

  pub stop_inheritors-store :
      (node_id : String) (inheritors : List String) (c : Cluster)
      → (stop_inheritors env node_id inheritors c).0.store ≡ c.store
  unfolding stop_inheritors send_stop
  stop_inheritors-store node_id [] c = refl
  stop_inheritors-store node_id (inheritor ∷ inheritors) c =
      stop_inheritors-store node_id inheritors (send_stop env node_id inheritor c).0

module _ (env : Environment) (up : (n : ℕ) → env.reaches n ≡ true) where
  pub update_node-row :
      (set : NodeRow → NodeRow) (id other : String) (c : Cluster)
      → KeepsKey set
      → row_of other (update_store env (update_node id set) c).0
        ≡ (if str_eq id other then change_row set (row_of other c) else row_of other c)
  unfolding update_store
  update_node-row set id other c k = elim (Option-cases (update_node id set c.store)) [
    | inl refused ↦
        rw (up c.calls, refused)
          (ground (arith, eq_iff id other, update_node-absent set id c.store refused))
    | inr (store, e) ↦ rw (up c.calls, e) (find_row-update_node set id other c.store store k e)
  ]

  -- The status "failed" is not among those that the schema allows.
  pub failed_status-row :
      (id other : String) (c : Cluster)
      → row_of other
          (update_store env (MetadataStore.update_storage_node_status id NodeStatus.failed) c).0
        ≡ row_of other c
  unfolding update_store
  failed_status-row id other c = rw (up c.calls, refuses_failed id c.store) refl

  pub active_status-row :
      (id other : String) (c : Cluster)
      → row_of other
          (update_store env (MetadataStore.update_storage_node_status id NodeStatus.active) c).0
        ≡ (if str_eq id other
            then change_row (set_status NodeStatus.active) (row_of other c)
            else row_of other c)
  unfolding update_store
  active_status-row id other c =
      elim (Option-cases (update_node id (set_status NodeStatus.active) c.store)) [
        | inl refused ↦
            rw (up c.calls, allows_active id c.store, refused)
              (ground (
                arith,
                eq_iff id other,
                update_node-absent (set_status NodeStatus.active) id c.store refused,
              ))
        | inr (store, e) ↦
            rw (up c.calls, allows_active id c.store, e)
              (find_row-update_node (set_status NodeStatus.active) id other c.store store
                (set_status-KeepsKey NodeStatus.active) e)
      ]

  pub state-row :
      (state : NodeState) (id other : String) (c : Cluster)
      → row_of other (update_store env (MetadataStore.update_node_state id state) c).0 ≡ (
          if str_eq id other then change_row (set_state state) (row_of other c) else row_of other c)
  unfolding MetadataStore.update_node_state
  state-row state id other c =
      update_node-row (set_state state) id other c (set_state-KeepsKey state)

  pub clear_ranges-row :
      (id other : String) (c : Cluster)
      → row_of other (clear_ranges env id c).0 ≡ (
          if str_eq id other
          then change_row (set_ranges [] []) (row_of other c)
          else row_of other c)
  unfolding clear_ranges MetadataStore.update_node_ranges
  clear_ranges-row id other c =
      update_node-row (set_ranges [] []) id other c (set_ranges-KeepsKey [] [])

  pub finish-row :
      (set : ℕ → PendingChange → PendingChange) (change_id other : String) (c : Cluster)
      → row_of other (finish_change env set change_id c).0 ≡ row_of other c
  finish-row set change_id other c = ap (find_row other) (finish_change-rows env set change_id c)

  pub clear_all-row :
      (id : String) (ids : List String) (row : NodeRow) (c : Cluster)
      → set_ranges [] [] row ≡ row
      → row_of id c ≡ some row
      → row_of id (clear_all_ranges env ids c).0 ≡ some row
  unfolding clear_all_ranges
  clear_all-row id [] row c clear found = found
  clear_all-row id (other ∷ ids) row c clear found =
      let step = clear_ranges-row other id c in
      clear_all-row id ids row (clear_ranges env other c).0 clear
        (elim (Bool-cases (str_eq other id)) [
          | inl same ↦ step ∙ rw (same, found) (ap some clear)
          | inr differ ↦ step ∙ rw (differ, found) refl
        ])
