-- ===== src/NodeHandler/States.antt =====
-- The state of a node in the metadata store, and the calls that leave it alone.
use pair_db.Prelude.{
  ℕ, true, false, Option, none, some, String, eq_refl, List, [], ◌≡◌, ◌≢◌, refl, arith, Bool-cases,
  Option-cases, inl, inr, ◌∙◌, ap, sym,
}
use pair_db.Topology.{StorageNode, NodeState, NodeStatus, PendingChange}
use pair_db.MetadataStore
use pair_db.MetadataStore.{
  Database, NodeRow, find_row, update_node, set_status, set_state, set_ranges,
}
use pair_db.MetadataStore.Rows.{
  KeepsKey, find_row-update_node, set_status-KeepsKey, set_state-KeepsKey, set_ranges-KeepsKey,
  status-is_update,
}
use pair_db.NodeHandler.{Environment, Cluster, update_store, clear_ranges, finish_change}
use pair_db.NodeHandler.Addition.{stop_sources, rollback_node_addition}
use pair_db.NodeHandler.Calm.{update_store-cases, finish_change-rows}
use pair_db.NodeHandler.Rows.{stop_sources-store}

abbrev pub state_in : Option NodeRow → Option NodeState
state_in none = none
state_in (some row) = some row.node.state

-- the state of the node's row
abbrev pub state_of : String → Cluster → Option NodeState
state_of id c = state_in (find_row id c.store.storage_nodes)

update_node-state :
    (set : NodeRow → NodeRow) (id : String) (db db' : Database)
    → KeepsKey set
    → ((row : NodeRow) → (set row).node.state ≡ row.node.state)
    → update_node id set db ≡ some db'
    → state_in (find_row id db'.storage_nodes) ≡ state_in (find_row id db.storage_nodes)
update_node-state set id db db' k keeps e =
    let found = find_row-update_node set id id db db' k e in
    elim (Option-cases (find_row id db.storage_nodes)) [
      | inl absent ↦ rw (found, eq_refl id, absent) refl
      | inr (row, there) ↦ rw (found, eq_refl id, there) (ap some (keeps row))
    ]

update_node-found :
    (set : NodeRow → NodeRow) (id : String) (db db' : Database)
    → update_node id set db ≡ some db'
    → (row : NodeRow) × (find_row id db.storage_nodes ≡ some row)
unfolding update_node
update_node-found set id db db' e = elim (Option-cases (find_row id db.storage_nodes)) [
  | inl absent ↦ absurd (ground (arith, absent))
  | inr (row, found) ↦ (row, found)
]

module _ (env : Environment) (id : String) where
  update_store-state :
      (statement : Database → Option Database) (c : Cluster)
      → ((db db' : Database)
          → statement db ≡ some db'
          → state_in (find_row id db'.storage_nodes) ≡ state_in (find_row id db.storage_nodes))
      → state_of id (update_store env statement c).0 ≡ state_of id c
  update_store-state statement c keeps = elim (update_store-cases env statement c) [
    | inl e ↦ rw e refl
    | inr (store, done, e) ↦ rw e (keeps c.store store done)
  ]

  pub status-state :
      (status : NodeStatus) (c : Cluster)
      → state_of id (update_store env (MetadataStore.update_storage_node_status id status) c).0
        ≡ state_of id c
  status-state status c =
      update_store-state (MetadataStore.update_storage_node_status id status) c (λ db db' e.
        update_node-state (set_status status) id db db' (set_status-KeepsKey status)
          (λ row. unfold set_status in refl) (status-is_update id status db db' e))

  pub clear_ranges-state : (c : Cluster) → state_of id (clear_ranges env id c).0 ≡ state_of id c
  unfolding clear_ranges MetadataStore.update_node_ranges
  clear_ranges-state c = update_store-state (update_node id (set_ranges [] [])) c (λ db db' e.
      update_node-state (set_ranges [] []) id db db' (set_ranges-KeepsKey [] [])
        (λ row. unfold set_ranges in refl) e)

  pub finish_change-state :
      (set : ℕ → PendingChange → PendingChange) (change_id : String) (c : Cluster)
      → state_of id (finish_change env set change_id c).0 ≡ state_of id c
  finish_change-state set change_id c =
      ap (λ rows. state_in (find_row id rows)) (finish_change-rows env set change_id c)

  -- The update of the state: where it succeeds the state is the new one, else it is as it was.
  pub update_state :
      (state : NodeState) (c : Cluster)
      → let r = update_store env (MetadataStore.update_node_state id state) c in
        (r.1 ≡ true → state_of id r.0 ≡ some state)
        × (r.1 ≡ false → state_of id r.0 ≡ state_of id c)
  unfolding MetadataStore.update_node_state
  update_state state c = elim (update_store-cases env (update_node id (set_state state)) c) [
    | inl e ↦ rw e (λ f. absurd (ground arith), λ f. refl)
    | inr (store, done, e) ↦
        let (row, there) = update_node-found (set_state state) id c.store store done in
        let found =
          find_row-update_node (set_state state) id id c.store store (set_state-KeepsKey state)
            done in
        rw e (
          λ f. rw (found, eq_refl id, there) (unfold set_state in refl),
          λ f. absurd (ground arith),
        )
  ]

-- A rollback of an addition does not make the state NORMAL.
pub rollback-state :
    (env : Environment) (node : StorageNode) (sources : List String) (change_id : String)
    (c : Cluster)
    → state_of node.node_id c ≢ some NodeState.normal
    → state_of node.node_id (rollback_node_addition env node sources change_id c).0
      ≢ some NodeState.normal
unfolding rollback_node_addition
rollback-state env node sources change_id c before e =
    let id = node.node_id in
    let c1 = (stop_sources env node sources c).0 in
    let failing = MetadataStore.update_storage_node_status id NodeStatus.failed in
    let c2 = (update_store env failing c1).0 in
    let (c3, down) = update_store env (MetadataStore.update_node_state id NodeState.down) c2 in
    let c4 = (clear_ranges env id c3).0 in
    let (marked, unmarked) = update_state env id NodeState.down c2 in
    let first : state_of id c2 ≡ state_of id c =
      status-state env id NodeStatus.failed c1
      ∙ ap (λ (s : Database). state_in (find_row id s.storage_nodes))
          (stop_sources-store env node sources c) in
    let last : state_of id c3 ≡ some NodeState.normal =
      sym (clear_ranges-state env id c3) ∙ sym (finish_change-state env id _ change_id c4) ∙ e in
    elim (Bool-cases down) [
      | inl done ↦ absurd (ground (arith, marked done, last))
      | inr refused ↦ before (sym first ∙ sym (unmarked refused) ∙ last)
    ]
