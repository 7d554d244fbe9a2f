-- ===== src/NodeHandler/Rollback.antt =====
-- What a rollback leaves of the node, where the metadata store does not fail for a reason of its own.
use pair_db.Prelude.{
  ℕ, ◌<◌, Bool, true, not, some, String, str_eq, eq_refl, List, [], ◌∷◌, ◌≡◌, refl, arith, Any, map,
  select, Bool-cases, inl, inr, ◌∙◌, ap,
}
use pair_db.Bytes.{Bytes}
use pair_db.Ring.{ConsistentHasher, contains, vnode_id_of}
use pair_db.Topology.{StorageNode, NodeState, NodeStatus}
use pair_db.Routing.{is_on_ring, update_hash_ring}
use pair_db.Routing.Refresh.{update_hash_ring-places}
use pair_db.MetadataStore
use pair_db.MetadataStore.{
  Database, NodeRow, find_row, update_node, set_status, set_state, set_ranges, is_inactive,
  list_storage_nodes,
}
use pair_db.NodeHandler.{Environment, Cluster, update_store, clear_ranges, clear_all_ranges}
use pair_db.NodeHandler.Addition.{stop_sources, rollback_node_addition}
use pair_db.NodeHandler.Removal.{stop_inheritors, rollback_node_removal}
use pair_db.NodeHandler.Rows.{
  row_of, stop_sources-store, stop_inheritors-store, failed_status-row, active_status-row,
  state-row, clear_ranges-row, finish-row, clear_all-row,
}

module _ (env : Environment) (up : (n : ℕ) → env.reaches n ≡ true) where
  rollback_addition-row :
      (node : StorageNode) (sources : List String) (change_id : String) (row : NodeRow)
      (c : Cluster)
      → row_of node.node_id c ≡ some row
      → row_of node.node_id (rollback_node_addition env node sources change_id c).0
        ≡ some (set_ranges [] [] (set_state NodeState.down row))
  unfolding rollback_node_addition
  rollback_addition-row node sources change_id row c found =
      let id = node.node_id in
      let c1 = (stop_sources env node sources c).0 in
      let failing = MetadataStore.update_storage_node_status id NodeStatus.failed in
      let c2 = (update_store env failing c1).0 in
      let c3 = (update_store env (MetadataStore.update_node_state id NodeState.down) c2).0 in
      let c4 = (clear_ranges env id c3).0 in
      let stopped : row_of id c1 ≡ some row =
        ap (λ (s : Database). find_row id s.storage_nodes) (stop_sources-store env node sources c)
        ∙ found in
      let unmarked : row_of id c2 ≡ some row = failed_status-row env up id id c1 ∙ stopped in
      let down : row_of id c3 ≡ some (set_state NodeState.down row) =
        state-row env up NodeState.down id id c2 ∙ rw (eq_refl id, unmarked) refl in
      finish-row env up _ change_id id c4
      ∙ clear_ranges-row env up id id c3
      ∙ rw (eq_refl id, down) refl

-- Where the metadata store does not fail for a reason of its own, the rollback of a removal leaves the
-- node's row with state NORMAL and status active, and without pending or leaving ranges.
pub rollback_removal-row :
    (env : Environment) (node_id : String) (inheritors : List String) (change_id : String)
    (row : NodeRow) (c : Cluster)
    → ((n : ℕ) → env.reaches n ≡ true)
    → find_row node_id c.store.storage_nodes ≡ some row
    → find_row node_id
        (rollback_node_removal env node_id inheritors change_id c).0.store.storage_nodes
      ≡ some (set_status NodeStatus.active (set_state NodeState.normal (set_ranges [] [] row)))
unfolding rollback_node_removal
rollback_removal-row env node_id inheritors change_id row c up found =
    let c1 = (stop_inheritors env node_id inheritors c).0 in
    let c2 = (clear_ranges env node_id c1).0 in
    let c3 = (clear_all_ranges env inheritors c2).0 in
    let c4 = (update_store env (MetadataStore.update_node_state node_id NodeState.normal) c3).0 in
    let activate = MetadataStore.update_storage_node_status node_id NodeStatus.active in
    let c5 = (update_store env activate c4).0 in
    let stopped : row_of node_id c1 ≡ some row =
      ap (λ (s : Database). find_row node_id s.storage_nodes)
        (stop_inheritors-store env node_id inheritors c)
      ∙ found in
    let clear : row_of node_id c2 ≡ some (set_ranges [] [] row) =
      clear_ranges-row env up node_id node_id c1 ∙ rw (eq_refl node_id, stopped) refl in
    let still_clear =
      clear_all-row env up node_id inheritors (set_ranges [] [] row) c2 (unfold set_ranges in refl)
        clear in
    let normal : row_of node_id c4 ≡ some (set_state NodeState.normal (set_ranges [] [] row)) =
      state-row env up NodeState.normal node_id node_id c3
      ∙ rw (eq_refl node_id, still_clear) refl in
    finish-row env up _ change_id node_id c5
    ∙ active_status-row env up node_id node_id c4
    ∙ rw (eq_refl node_id, normal) refl

pub select-Any :
    {A : Type 0} (p : A → Bool) (x : A) (xs : List A)
    → p x ≡ true
    → Any (λ y. y ≡ x) xs
    → Any (λ y. y ≡ x) (select p xs)
select-Any p x [] keeps there = absurd there
select-Any p x (y ∷ ys) keeps (inl same) = rw (ap p same ∙ keeps) (inl same)
select-Any p x (y ∷ ys) keeps (inr there) = elim (Bool-cases (p y)) [
  | inl e ↦ rw e (inr (select-Any p x ys keeps there))
  | inr e ↦ rw e (select-Any p x ys keeps there)
]

pub find_row-Any :
    (id : String) (row : NodeRow) (rows : List NodeRow)
    → find_row id rows ≡ some row
    → Any (λ n. n ≡ row.node) (map (λ (r : NodeRow). r.node) rows)
unfolding find_row
find_row-Any id row [] found = ground arith
find_row-Any id row (r ∷ rows) found = elim (Bool-cases (str_eq r.node.node_id id)) [
  | inl e ↦ inl (let same : r ≡ row = ground (arith, e) in ap (λ (x : NodeRow). x.node) same)
  | inr e ↦ inr (find_row-Any id row rows (ground (arith, e)))
]

-- Where the metadata store does not fail for a reason of its own, the rollback of an addition leaves an
-- active node with state DOWN but with the status active, since the status that it writes is not one that
-- the schema allows; so the next rebuild of the hash ring places each virtual node of the failed node.
pub rollback_addition-places :
    (env : Environment) (encode : String → Bytes) (hash : Bytes → ℕ) (node : StorageNode)
    (sources : List String) (change_id : String) (row : NodeRow) (c : Cluster)
    (ring : ConsistentHasher) (j : ℕ)
    → ((n : ℕ) → env.reaches n ≡ true)
    → find_row node.node_id c.store.storage_nodes ≡ some row
    → row.node.status ≡ NodeStatus.active
    → j < row.node.virtual_nodes
    → let db = (rollback_node_addition env node sources change_id c).0.store in
      (find_row node.node_id db.storage_nodes
        ≡ some (set_ranges [] [] (set_state NodeState.down row)))
      × (contains
            (update_hash_ring encode hash (some (list_storage_nodes db)) ring).0.ring
            (hash (vnode_id_of (encode row.node.node_id) j))
          ≡ true)
unfolding is_on_ring
rollback_addition-places env encode hash node sources change_id row c ring j up found active lt =
    let db = (rollback_node_addition env node sources change_id c).0.store in
    let left = set_ranges [] [] (set_state NodeState.down row) in
    let there = rollback_addition-row env up node sources change_id row c found in
    let listed : Any (λ n. n ≡ left.node) (list_storage_nodes db) =
      unfold list_storage_nodes set_ranges set_state in
      select-Any (λ n. not (is_inactive n.status)) left.node
        (map (λ (r : NodeRow). r.node) db.storage_nodes) (rw active refl)
        (find_row-Any node.node_id left db.storage_nodes there) in
    (
      there,
      unfold set_ranges set_state in
          (update_hash_ring-places encode hash (list_storage_nodes db) left.node ring j listed
            (rw active refl) lt).1,
    )
