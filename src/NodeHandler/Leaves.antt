-- ===== src/NodeHandler/Leaves.antt =====
-- When a node that is removed leaves the metadata store.
use pair_db.Prelude.{
  ℕ, zero, suc, ◌≤◌, Bool, true, false, not, none, some, String, str_eq, List, [], ◌∷◌, ◌≡◌, refl,
  sym, subst, arith, All, select, Bool-cases, Option-cases, inl, inr, ◌∙◌, ap,
}
use pair_db.Bytes.{Bytes}
use pair_db.Topology.{NodeState, NodeStatus}
use pair_db.Ring.{ConsistentHasher}
use pair_db.Routing.{route_remove}
use pair_db.MetadataStore.{Database, NodeRow, find_row, remove_storage_node}
use pair_db.MetadataStore.Rows.{Stored, state-KeepsRows, status-KeepsRows}
use pair_db.NodeHandler.{
  Environment, Cluster, is_done, check_all, update_store, send_stop, stream_completed,
  finish_change, completed_at, clear_all_ranges, wait_tick,
}
use pair_db.NodeHandler.Removal.{
  Leaving, removed, not_deleted, rolled_back, check_inheritor, stop_inheritors,
  rollback_node_removal, remove_from_ring, after_delete, finish_leaving, monitor_removal,
  monitor_removal_progress,
}
use pair_db.NodeHandler.Rounds.{Sound, check_all-reports}
use pair_db.NodeHandler.Calm.{
  Calm, ◌⨾◌, still, IsCalm, update_store-cases, update_store-IsCalm, finish_change-rows,
  send_stop-IsCalm, stream_completed-IsCalm, clear_ranges-IsCalm, clear_all_ranges-IsCalm,
  finish_change-IsCalm,
}
use pair_db.NodeHandler.Joins.{Reported}

find_row-deleted :
    (id : String) (rows : List NodeRow)
    → find_row id (select (λ row. not (str_eq row.node.node_id id)) rows) ≡ none
unfolding find_row
find_row-deleted id [] = refl
find_row-deleted id (row ∷ rows) = ground (arith, find_row-deleted id rows)

remove-gone :
    (id : String) (db db' : Database)
    → remove_storage_node id db ≡ some db'
    → find_row id db'.storage_nodes ≡ none
unfolding remove_storage_node
remove-gone id db db' e = elim (Option-cases (find_row id db.storage_nodes)) [
  | inl absent ↦ absurd (ground (arith, absent))
  | inr (row, found) ↦
      let rows : db'.storage_nodes
          ≡ select (λ row. not (str_eq row.node.node_id id)) db.storage_nodes =
        ground (arith, found) in
      rw rows (find_row-deleted id db.storage_nodes)
]

module _ (env : Environment) (node_id : String) where
  stop_inheritors-IsCalm :
      (inheritors : List String) → IsCalm (stop_inheritors env node_id inheritors)
  unfolding stop_inheritors
  stop_inheritors-IsCalm [] c = still c
  stop_inheritors-IsCalm (inheritor ∷ inheritors) c =
      send_stop-IsCalm env node_id inheritor c ⨾ stop_inheritors-IsCalm inheritors _

  pub rollback-IsCalm :
      (inheritors : List String) (change_id : String)
      → IsCalm (rollback_node_removal env node_id inheritors change_id)
  unfolding rollback_node_removal
  rollback-IsCalm inheritors change_id c =
      stop_inheritors-IsCalm inheritors c
      ⨾ clear_ranges-IsCalm env node_id _
      ⨾ clear_all_ranges-IsCalm env inheritors _
      ⨾ update_store-IsCalm env _ (state-KeepsRows node_id NodeState.normal) _
      ⨾ update_store-IsCalm env _ (status-KeepsRows node_id NodeStatus.active) _
      ⨾ finish_change-IsCalm env _ change_id _

  module _ (from : ℕ) where
    abbrev Complete : String → Type 0
    Complete inheritor = Reported env from node_id inheritor

    check_inheritor-reports :
        (done : List String) (inheritor : String) (c : Cluster)
        → Sound Complete done
        → from ≤ c.calls
        → Calm c (check_inheritor env node_id done inheritor c).0
          × ((check_inheritor env node_id done inheritor c).1 ≡ true → Complete inheritor)
    unfolding check_inheritor stream_completed
    check_inheritor-reports done inheritor c sound past =
        elim (Bool-cases (is_done done inheritor)) [
          | inl known ↦ rw known (still c, λ _. sound inheritor known)
          | inr unknown ↦
              rw unknown (stream_completed-IsCalm env node_id inheritor c, λ e. (c.calls, past, e))
        ]

    module _ (encode : String → Bytes) (hash : Bytes → ℕ) (begin : Cluster) where
      abbrev KeepsAll : Cluster → Type 0
      KeepsAll c' = (id : String) → Stored id begin.store → Stored id c'.store

      -- The node was taken off the ring that there was, and every inheriting node had its data before.
      abbrev pub Handed : List String → Cluster → Type 0
      Handed inheritors c' =
          ((ring : ConsistentHasher) × (c'.ring ≡ route_remove encode hash node_id ring))
          × All Complete inheritors

      -- What holds for each way in which the monitor ends.
      abbrev pub Ends : List String → Leaving → Cluster → Type 0
      Ends inheritors removed c' =
          Handed inheritors c' × (find_row node_id c'.store.storage_nodes ≡ none)
      Ends inheritors not_deleted c' = Handed inheritors c' × KeepsAll c'
      Ends inheritors rolled_back c' = KeepsAll c'

      -- The statement that deletes the node's row, whether it succeeds or not.
      delete-rows :
          (c : Cluster)
          → let r = update_store env (remove_storage_node node_id) c in
            (r.0.ring ≡ c.ring)
            × (r.1 ≡ true → find_row node_id r.0.store.storage_nodes ≡ none)
            × (r.1 ≡ false → r.0.store ≡ c.store)
      delete-rows c = elim (update_store-cases env (remove_storage_node node_id) c) [
        | inl f ↦ rw f (refl, λ e. absurd (ground arith), λ _. refl)
        | inr (store, done, f) ↦
            rw f (refl, λ _. remove-gone node_id c.store store done, λ e. absurd (ground arith))
      ]

      stop-rows :
          (inheritors : List String) (c : Cluster)
          → (stop_inheritors env node_id inheritors c).0.store ≡ c.store
      unfolding stop_inheritors send_stop
      stop-rows [] c = refl
      stop-rows (inheritor ∷ inheritors) c =
          stop-rows inheritors (send_stop env node_id inheritor c).0

      after_delete-Ends :
          (inheritors : List String) (change_id : String) (deleted : Bool) (c : Cluster)
          → Handed inheritors c
          → (deleted ≡ true → find_row node_id c.store.storage_nodes ≡ none)
          → (deleted ≡ false → KeepsAll c)
          → let r = after_delete env node_id encode hash inheritors change_id deleted c in
            Ends inheritors r.1 r.0
      unfolding after_delete
      after_delete-Ends inheritors change_id false c handed gone kept = (handed, kept refl)
      after_delete-Ends inheritors change_id true c ((ring, off), all) gone kept =
          let finished = finish_change env completed_at change_id c in
          let calm =
            finish_change-IsCalm env completed_at change_id c
            ⨾ stop_inheritors-IsCalm inheritors _ in
          let rows =
            ap (λ (s : Database). s.storage_nodes) (stop-rows inheritors finished.0)
            ∙ finish_change-rows env completed_at change_id c in
          (((ring, calm.same_ring ∙ off), all), ap (find_row node_id) rows ∙ gone refl)

      finish-Ends :
          (inheritors : List String) (change_id : String) (c : Cluster)
          → KeepsAll c
          → All Complete inheritors
          → let r = finish_leaving env node_id encode hash inheritors change_id c in
            Ends inheritors r.1 r.0
      unfolding remove_from_ring
      finish-Ends inheritors change_id c kept all =
          let c1 = (remove_from_ring env node_id encode hash c).0 in
          let c2 = (clear_all_ranges env inheritors c1).0 in
          let cleared = clear_all_ranges-IsCalm env inheritors c1 in
          let (c3, deleted) = update_store env (remove_storage_node node_id) c2 in
          let (ring, gone, same) = delete-rows c2 in
          after_delete-Ends inheritors change_id deleted c3
            ((c.ring, ring ∙ cleared.same_ring), all) gone
            (λ e id h. subst (Stored id) (sym (same e)) (cleared.keeps_rows id (kept id h)))

      monitor-Ends :
          (todo : ℕ) (inheritors : List String) (change_id : String) (done : List String)
          (c : Cluster)
          → Sound Complete done
          → from ≤ c.calls
          → KeepsAll c
          → let r = monitor_removal env node_id encode hash todo inheritors change_id done c in
            Ends inheritors r.1 r.0
      unfolding monitor_removal wait_tick
      monitor-Ends zero inheritors change_id done c sound past kept =
          λ id h. (rollback-IsCalm inheritors change_id c).keeps_rows id (kept id h)
      monitor-Ends (suc todo) inheritors change_id done c sound past kept =
          let c0 = (wait_tick env encode hash c).0 in
          let (c', (all_completed, done')) =
            check_all (check_inheritor env node_id) done inheritors c0 in
          let (checked, sound', all) =
            check_all-reports Complete from (check_inheritor env node_id) check_inheritor-reports
              inheritors done c0 sound (omega (arith, past)) in
          let kept' : KeepsAll c' = λ id h. checked.keeps_rows id (kept id h) in
          elim (Bool-cases all_completed) [
            | inr waiting ↦ rw waiting (
                monitor-Ends todo inheritors change_id done' c' sound'
                  (omega (arith, past, checked.later)) kept')
            | inl ready ↦ rw ready (finish-Ends inheritors change_id c' kept' (all ready))
          ]

pub monitor_removal_progress-Ends :
    (env : Environment) (node_id : String) (encode : String → Bytes) (hash : Bytes → ℕ)
    (inheritors : List String) (change_id : String) (c : Cluster)
    → let r = monitor_removal_progress env node_id encode hash inheritors change_id c in
      Ends env node_id c.calls encode hash c inheritors r.1 r.0
unfolding monitor_removal_progress is_done
monitor_removal_progress-Ends env node_id encode hash inheritors change_id c =
    monitor-Ends env node_id c.calls encode hash c 360 inheritors change_id [] c
      (λ inheritor known. absurd (ground arith)) (omega arith) (λ id h. h)
