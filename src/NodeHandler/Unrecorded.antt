-- ===== src/NodeHandler/Unrecorded.antt =====
-- What becomes of the record of a change, with a driver that cannot read NULL into a string.
use pair_db.Prelude.{
  ℕ, zero, suc, Bool, true, false, Option, none, some, String, List, [], ◌∷◌, ◌≡◌, refl, arith,
  Bool-cases, Option-cases, inl, inr, ◌∙◌, ap,
}
use pair_db.Bytes.{Bytes}
use pair_db.Topology.{StorageNode, NodeState, NodeStatus, PendingChange}
use pair_db.MetadataStore
use pair_db.MetadataStore.{
  Database, NodeRow, ChangeRow, find_row, find_change, update_node, set_status, set_state,
  set_ranges,
}
use pair_db.MetadataStore.Rows.{status-is_update}
use pair_db.NodeHandler.{
  Environment, Cluster, check_all, is_done, note, update_store, get_storage_node, list_nodes,
  stream_completed, wait_tick, get_change, finish_change, completed_at, clear_ranges,
}
use pair_db.NodeHandler.Addition.{
  ask_source, check_source, stop_sources, rollback_node_addition, replay_hints, add_to_ring,
  after_state, after_hints, monitor_streaming, monitor_streaming_progress,
}
use pair_db.NodeHandler.Calm.{update_store-cases}
use pair_db.NodeHandler.Rows.{stop_sources-store}

-- the records of the changes
abbrev changes_of : Cluster → List ChangeRow
changes_of c = c.store.pending_changes

pub update_node-changes :
    (set : NodeRow → NodeRow) (id : String) (db db' : Database)
    → update_node id set db ≡ some db'
    → db'.pending_changes ≡ db.pending_changes
unfolding update_node
update_node-changes set id db db' e = elim (Option-cases (find_row id db.storage_nodes)) [
  | inl absent ↦ absurd (ground (arith, absent))
  | inr (row, found) ↦ ground (arith, found)
]

module _ (env : Environment) where
  update_store-changes :
      (statement : Database → Option Database) (c : Cluster)
      → ((db db' : Database) → statement db ≡ some db' → db'.pending_changes ≡ db.pending_changes)
      → changes_of (update_store env statement c).0 ≡ changes_of c
  update_store-changes statement c same = elim (update_store-cases env statement c) [
    | inl e ↦ rw e refl
    | inr (store, done, e) ↦ rw e (same c.store store done)
  ]

  state-changes :
      (id : String) (state : NodeState) (c : Cluster)
      → changes_of (update_store env (MetadataStore.update_node_state id state) c).0 ≡ changes_of c
  unfolding MetadataStore.update_node_state
  state-changes id state c =
      update_store-changes (update_node id (set_state state)) c
        (update_node-changes (set_state state) id)

  status-changes :
      (id : String) (status : NodeStatus) (c : Cluster)
      → changes_of (update_store env (MetadataStore.update_storage_node_status id status) c).0
        ≡ changes_of c
  status-changes id status c =
      update_store-changes (MetadataStore.update_storage_node_status id status) c (λ db db' e.
        update_node-changes (set_status status) id db db' (status-is_update id status db db' e))

  ranges-changes : (id : String) (c : Cluster) → changes_of (clear_ranges env id c).0 ≡ changes_of c
  unfolding clear_ranges MetadataStore.update_node_ranges
  ranges-changes id c =
      update_store-changes (update_node id (set_ranges [] [])) c
        (update_node-changes (set_ranges [] []) id)

  module _ (change_id : String) (row : ChangeRow) (null : row.error_text ≡ none)
      (unread : env.scan_text none ≡ none) where
    get_change-unread :
        (c : Cluster)
        → find_change change_id (changes_of c) ≡ some row
        → ((get_change env change_id c).1 ≡ none) × ((get_change env change_id c).0.store ≡ c.store)
    unfolding get_change MetadataStore.get_pending_change
    get_change-unread c found = elim (Bool-cases (env.reaches c.calls)) [
      | inr failed ↦ rw failed (refl, refl)
      | inl reached ↦ rw (reached, found, null, unread) (refl, refl)
    ]

    finish-changes :
        (set : ℕ → PendingChange → PendingChange) (c : Cluster)
        → find_change change_id (changes_of c) ≡ some row
        → changes_of (finish_change env set change_id c).0 ≡ changes_of c
    unfolding finish_change
    finish-changes set c found =
        let (unknown, same) = get_change-unread c found in
        rw (finish_change, unknown) (ap (λ (s : Database). s.pending_changes) same)

  module _ (node : StorageNode) where
    ask-store :
        (source : String) (found : Option StorageNode) (c : Cluster)
        → (ask_source env node source found c).0.store ≡ c.store
    unfolding stream_completed
    ask-store source none c = refl
    ask-store source (some at) c = refl

    check_source-store :
        (done : List String) (source : String) (c : Cluster)
        → (check_source env node done source c).0.store ≡ c.store
    unfolding check_source get_storage_node list_nodes
    check_source-store done source c = elim (Bool-cases (is_done done source)) [
      | inl known ↦ rw known refl
      | inr unknown ↦
          let (c', found) = get_storage_node env source c in rw unknown (ask-store source found c')
    ]

    pub check_all-store :
        (sources done : List String) (c : Cluster)
        → (check_all (check_source env node) done sources c).0.store ≡ c.store
    unfolding check_all
    check_all-store [] done c = refl
    check_all-store (source ∷ sources) done c =
        let (c', is_completed) = check_source env node done source c in
        check_all-store sources (note done source is_completed) c'
        ∙ check_source-store done source c

    module _ (change_id : String) (row : ChangeRow) (null : row.error_text ≡ none)
        (unread : env.scan_text none ≡ none) (rows : List ChangeRow)
        (found : find_change change_id rows ≡ some row) where
      finish-kept :
          (set : ℕ → PendingChange → PendingChange) (c : Cluster)
          → changes_of c ≡ rows
          → changes_of (finish_change env set change_id c).0 ≡ rows
      finish-kept set c same =
          finish-changes change_id row null unread set c (ap (find_change change_id) same ∙ found)
          ∙ same

      rollback-kept :
          (sources : List String) (c : Cluster)
          → changes_of c ≡ rows
          → changes_of (rollback_node_addition env node sources change_id c).0 ≡ rows
      unfolding rollback_node_addition
      rollback-kept sources c same =
          let c1 = (stop_sources env node sources c).0 in
          let failing = MetadataStore.update_storage_node_status node.node_id NodeStatus.failed in
          let c2 = (update_store env failing c1).0 in
          let c3 =
            (update_store env (MetadataStore.update_node_state node.node_id NodeState.down) c2).0 in
          finish-kept _ (clear_ranges env node.node_id c3).0 (
            ranges-changes node.node_id c3
            ∙ state-changes node.node_id NodeState.down c2
            ∙ status-changes node.node_id NodeStatus.failed c1
            ∙ ap (λ (s : Database). s.pending_changes) (stop_sources-store env node sources c)
            ∙ same)

      module _ (encode : String → Bytes) (hash : Bytes → ℕ) where
        after_state-kept :
            (sources : List String) (normal : Bool) (c : Cluster)
            → changes_of c ≡ rows
            → changes_of (after_state env node encode hash sources change_id normal c).0 ≡ rows
        unfolding after_state
        after_state-kept sources false c same = same
        after_state-kept sources true c same =
            let activate =
              MetadataStore.update_storage_node_status node.node_id NodeStatus.active in
            let c1 = (update_store env activate c).0 in
            let c2 = (clear_ranges env node.node_id c1).0 in
            let c3 = (finish_change env completed_at change_id c2).0 in
            ap (λ (s : Database). s.pending_changes) (stop_sources-store env node sources c3)
            ∙ finish-kept completed_at c2 (
                ranges-changes node.node_id c1
                ∙ status-changes node.node_id NodeStatus.active c
                ∙ same)

        after_hints-kept :
            (sources : List String) (replayed : Bool) (c : Cluster)
            → changes_of c ≡ rows
            → changes_of (after_hints env node encode hash sources change_id replayed c).0 ≡ rows
        unfolding after_hints add_to_ring
        after_hints-kept sources false c same = rollback-kept sources c same
        after_hints-kept sources true c same =
            let c1 = (add_to_ring env node encode hash c).0 in
            let (c2, normal) =
              update_store env (MetadataStore.update_node_state node.node_id NodeState.normal) c1 in
            after_state-kept sources normal c2
              (state-changes node.node_id NodeState.normal c1 ∙ same)

        monitor-kept :
            (todo : ℕ) (sources done : List String) (c : Cluster)
            → changes_of c ≡ rows
            → changes_of (monitor_streaming env node encode hash todo sources change_id done c).0
              ≡ rows
        unfolding monitor_streaming replay_hints wait_tick
        monitor-kept zero sources done c same = rollback-kept sources c same
        monitor-kept (suc todo) sources done c same =
            let (c', (all_completed, done')) =
              check_all (check_source env node) done sources (wait_tick env encode hash c).0 in
            let same' =
              ap (λ (s : Database). s.pending_changes)
                (check_all-store sources done (wait_tick env encode hash c).0)
              ∙ same in
            elim (Bool-cases all_completed) [
              | inr waiting ↦ rw waiting (monitor-kept todo sources done' c' same')
              | inl ready ↦ rw ready (
                  after_hints-kept sources (env.hints_replayed c'.calls)
                    (record c' { calls = suc c'.calls }) same')
            ]

-- With a driver that cannot read NULL into a string, the record of a change whose error message is still
-- NULL, as it is when the change is stored, is never updated: however the monitor of an addition ends,
-- the records of all changes are as they were, and so the change is still in progress.
pub monitor_streaming_progress-unrecorded :
    (env : Environment) (node : StorageNode) (encode : String → Bytes) (hash : Bytes → ℕ)
    (sources : List String) (change_id : String) (row : ChangeRow) (c : Cluster)
    → env.scan_text none ≡ none
    → find_change change_id c.store.pending_changes ≡ some row
    → row.error_text ≡ none
    → (monitor_streaming_progress env node encode hash sources change_id c).0.store.pending_changes
      ≡ c.store.pending_changes
unfolding monitor_streaming_progress
monitor_streaming_progress-unrecorded env node encode hash sources change_id row c unread found
      null =
    monitor-kept env node change_id row null unread c.store.pending_changes found encode hash 360
      sources [] c refl
