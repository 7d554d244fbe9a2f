-- ===== src/NodeHandler/Undone.antt =====
-- A removal whose streams do not all complete.
use pair_db.Prelude.{
  ℕ, zero, suc, Bool, true, false, Option, some, String, List, [], ◌∷◌, ◌≡◌, ◌≢◌, refl, subst,
  arith, All, Any, Bool-cases, inl, inr, ◌∙◌, ap,
}
use pair_db.Bytes.{Bytes}
use pair_db.Topology.{NodeState, NodeStatus}
use pair_db.MetadataStore.{
  Database, NodeRow, find_row, set_status, set_state, set_ranges, remove_storage_node,
}
use pair_db.NodeHandler.{
  Environment, Cluster, is_completed, is_done, note, check_all, stream_completed, wait_tick,
  update_store, clear_all_ranges,
}
use pair_db.NodeHandler.Removal.{
  Leaving, removed, not_deleted, rolled_back, check_inheritor, remove_from_ring, after_delete,
  finish_leaving, monitor_removal, monitor_removal_progress,
}
use pair_db.NodeHandler.Joins.{Reported}
use pair_db.NodeHandler.Leaves.{Ends, monitor_removal_progress-Ends}
use pair_db.NodeHandler.Rollback.{rollback_removal-row}

-- the row of a node whose removal was rolled back
abbrev pub restored : NodeRow → NodeRow
restored row = set_status NodeStatus.active (set_state NodeState.normal (set_ranges [] [] row))

abbrev row_in : String → Cluster → Option NodeRow
row_in id c = find_row id c.store.storage_nodes

module _ (env : Environment) (node_id : String) where
  check_inheritor-store :
      (done : List String) (inheritor : String) (c : Cluster)
      → (check_inheritor env node_id done inheritor c).0.store ≡ c.store
  unfolding check_inheritor stream_completed
  check_inheritor-store done inheritor c = elim (Bool-cases (is_done done inheritor)) [
    | inl e ↦ rw e refl
    | inr e ↦ rw e refl
  ]

  check_all-store :
      (inheritors done : List String) (c : Cluster)
      → (check_all (check_inheritor env node_id) done inheritors c).0.store ≡ c.store
  unfolding check_all
  check_all-store [] done c = refl
  check_all-store (inheritor ∷ inheritors) done c =
      let (c', is_reported) = check_inheritor env node_id done inheritor c in
      check_all-store inheritors (note done inheritor is_reported) c'
      ∙ check_inheritor-store done inheritor c

  module _ (encode : String → Bytes) (hash : Bytes → ℕ) (inheritors : List String)
      (change_id : String) where
    deleted-ends :
        (deleted : Bool) (c : Cluster)
        → (after_delete env node_id encode hash inheritors change_id deleted c).1 ≢ rolled_back
    unfolding after_delete
    deleted-ends false c e = ground (arith, e)
    deleted-ends true c e = ground (arith, e)

    finish-ends :
        (c : Cluster)
        → (finish_leaving env node_id encode hash inheritors change_id c).1 ≢ rolled_back
    unfolding remove_from_ring
    finish-ends c =
        let c1 = (remove_from_ring env node_id encode hash c).0 in
        let c2 = (clear_all_ranges env inheritors c1).0 in
        let (c3, deleted) = update_store env (remove_storage_node node_id) c2 in
        deleted-ends deleted c3

    -- A monitor that ends rolled back has restored the node's row.
    monitor-restored :
        (todo : ℕ) (done : List String) (row : NodeRow) (c : Cluster)
        → ((n : ℕ) → env.reaches n ≡ true)
        → row_in node_id c ≡ some row
        → let r = monitor_removal env node_id encode hash todo inheritors change_id done c in
          r.1 ≡ rolled_back → row_in node_id r.0 ≡ some (restored row)
    unfolding monitor_removal wait_tick
    monitor-restored zero done row c up found =
        λ e. rollback_removal-row env node_id inheritors change_id row c up found
    monitor-restored (suc todo) done row c up found =
        let c0 = (wait_tick env encode hash c).0 in
        let (c', (all_completed, done')) =
          check_all (check_inheritor env node_id) done inheritors c0 in
        let found' : row_in node_id c' ≡ some row =
          ap (λ (s : Database). find_row node_id s.storage_nodes)
            (check_all-store inheritors done c0)
          ∙ found in
        elim (Bool-cases all_completed) [
          | inr waiting ↦ rw waiting (monitor-restored todo done' row c' up found')
          | inl ready ↦ rw ready (λ e. absurd (finish-ends c' e))
        ]

unreported :
    (env : Environment) (from : ℕ) (node_id inheritor : String) (inheritors : List String)
    → ((n : ℕ) → is_completed (env.stream_state n node_id inheritor) ≡ false)
    → Any (λ i. i ≡ inheritor) inheritors
    → ¬ All (λ i. Reported env from node_id i) inheritors
unreported env from node_id inheritor [] never there all = there
unreported env from node_id inheritor (i ∷ inheritors) never (inl same) all =
    let (n, past, e) = subst (λ x. Reported env from node_id x) same all.0 in
    ground (arith, never n, e)
unreported env from node_id inheritor (i ∷ inheritors) never (inr there) all =
    unreported env from node_id inheritor inheritors never there all.1

Ends-rolled_back :
    (env : Environment) (node_id : String) (from : ℕ) (encode : String → Bytes) (hash : Bytes → ℕ)
    (begin : Cluster) (inheritors : List String) (ending : Leaving) (c' : Cluster)
    → ¬ All (λ i. Reported env from node_id i) inheritors
    → Ends env node_id from encode hash begin inheritors ending c'
    → ending ≡ rolled_back
Ends-rolled_back env node_id from encode hash begin inheritors removed c' not_all ends =
    absurd (not_all ends.0.1)
Ends-rolled_back env node_id from encode hash begin inheritors not_deleted c' not_all ends =
    absurd (not_all ends.0.1)
Ends-rolled_back env node_id from encode hash begin inheritors rolled_back c' not_all ends = refl

-- Where the metadata store does not fail for a reason of its own: if the stream to one of the inheriting
-- nodes is never reported as complete, for instance since it was never started, the monitor of a removal
-- ends rolled back, and then the node's row, that was in the store, has state NORMAL and status active and
-- no pending or leaving ranges, and is else as it was.
pub monitor_removal_progress-rolled_back :
    (env : Environment) (node_id : String) (encode : String → Bytes) (hash : Bytes → ℕ)
    (inheritors : List String) (inheritor change_id : String) (row : NodeRow) (c : Cluster)
    → ((n : ℕ) → env.reaches n ≡ true)
    → ((n : ℕ) → is_completed (env.stream_state n node_id inheritor) ≡ false)
    → Any (λ i. i ≡ inheritor) inheritors
    → find_row node_id c.store.storage_nodes ≡ some row
    → let r = monitor_removal_progress env node_id encode hash inheritors change_id c in
      (r.1 ≡ rolled_back)
      × (find_row node_id r.0.store.storage_nodes
          ≡ some (set_status NodeStatus.active (set_state NodeState.normal (set_ranges [] [] row))))
unfolding monitor_removal_progress
monitor_removal_progress-rolled_back env node_id encode hash inheritors inheritor change_id row c up
      never there found =
    let r = monitor_removal_progress env node_id encode hash inheritors change_id c in
    let undone =
      Ends-rolled_back env node_id c.calls encode hash c inheritors r.1 r.0
        (unreported env c.calls node_id inheritor inheritors never there)
        (monitor_removal_progress-Ends env node_id encode hash inheritors change_id c) in
    (
      undone,
      monitor-restored env node_id encode hash inheritors change_id 360 [] row c up found undone,
    )
