-- ===== src/NodeHandler/Joins.antt =====
-- When a node that is added becomes NORMAL.
use pair_db.Prelude.{
  ℕ, zero, suc, ◌≤◌, Bool, true, false, Option, none, some, String, List, [], ◌∷◌, ◌≡◌, refl, sym,
  ◌≢◌, arith, All, Bool-cases, inl, inr, ◌∙◌, ap,
}
use pair_db.Bytes.{Bytes}
use pair_db.Ring.{ConsistentHasher}
use pair_db.Topology.{StorageNode, NodeState, NodeStatus}
use pair_db.Routing.{route_add}
use pair_db.MetadataStore
use pair_db.MetadataStore.Rows.{state-KeepsRows, status-KeepsRows}
use pair_db.NodeHandler.{
  Environment, Cluster, is_completed, is_done, check_all, update_store, get_storage_node,
  stream_completed, completed_at, wait_tick, clear_ranges, finish_change,
}
use pair_db.NodeHandler.Addition.{
  Joining, joined, state_not_updated, hints_failed, timed_out, check_source, stop_source,
  stop_sources, rollback_node_addition, replay_hints, add_to_ring, after_state, after_hints,
  ask_source, monitor_streaming, monitor_streaming_progress,
}
use pair_db.NodeHandler.Rounds.{Sound, check_all-reports}
use pair_db.NodeHandler.Calm.{
  Calm, ◌⨾◌, still, IsCalm, update_store-IsCalm, get_storage_node-IsCalm, send_stop-IsCalm,
  stream_completed-IsCalm, clear_ranges-IsCalm, finish_change-IsCalm,
}
use pair_db.MetadataStore.{Database, find_row}
use pair_db.NodeHandler.Rows.{stop_sources-store}
use pair_db.NodeHandler.Unrecorded.{check_all-store}
use pair_db.NodeHandler.States.{
  state_in, state_of, status-state, clear_ranges-state, finish_change-state, update_state,
  rollback-state,
}

-- From the call `from` on, the stream from the source to the target was reported as completed.
abbrev pub Reported : Environment → ℕ → String → String → Type 0
Reported env from source target =
    (n : ℕ) × (from ≤ n) × (is_completed (env.stream_state n source target) ≡ true)

module _ (env : Environment) (node : StorageNode) where
  stop_source-IsCalm :
      (source : String) (found : Option StorageNode) → IsCalm (stop_source env node source found)
  stop_source-IsCalm source none c = still c
  stop_source-IsCalm source (some at) c = send_stop-IsCalm env source node.node_id c

  stop_sources-IsCalm : (sources : List String) → IsCalm (stop_sources env node sources)
  unfolding stop_sources
  stop_sources-IsCalm [] c = still c
  stop_sources-IsCalm (source ∷ sources) c =
      get_storage_node-IsCalm env source c
      ⨾ stop_source-IsCalm source (get_storage_node env source c).1 _
      ⨾ stop_sources-IsCalm sources _

  pub rollback-IsCalm :
      (sources : List String) (change_id : String)
      → IsCalm (rollback_node_addition env node sources change_id)
  unfolding rollback_node_addition
  rollback-IsCalm sources change_id c =
      stop_sources-IsCalm sources c
      ⨾ update_store-IsCalm env _ (status-KeepsRows node.node_id NodeStatus.failed) _
      ⨾ update_store-IsCalm env _ (state-KeepsRows node.node_id NodeState.down) _
      ⨾ clear_ranges-IsCalm env node.node_id _
      ⨾ finish_change-IsCalm env _ change_id _

  module _ (from : ℕ) where
    abbrev Complete : String → Type 0
    Complete source = Reported env from source node.node_id

    ask-reports :
        (source : String) (found : Option StorageNode) (c : Cluster)
        → from ≤ c.calls
        → Calm c (ask_source env node source found c).0
          × ((ask_source env node source found c).1 ≡ true → Reported env from source node.node_id)
    unfolding stream_completed
    ask-reports source none c past = (still c, λ e. absurd (ground arith))
    ask-reports source (some at) c past =
        (stream_completed-IsCalm env source node.node_id c, λ e. (c.calls, past, e))

    check_source-reports :
        (done : List String) (source : String) (c : Cluster)
        → Sound Complete done
        → from ≤ c.calls
        → Calm c (check_source env node done source c).0
          × ((check_source env node done source c).1 ≡ true → Reported env from source node.node_id)
    unfolding check_source
    check_source-reports done source c sound past = elim (Bool-cases (is_done done source)) [
      | inl known ↦ rw known (still c, λ _. sound source known)
      | inr unknown ↦
          let (c', found) = get_storage_node env source c in
          let listed = get_storage_node-IsCalm env source c in
          let (asked, reports) = ask-reports source found c' (omega (arith, past, listed.later)) in
          rw unknown (listed ⨾ asked, reports)
    ]

    module _ (encode : String → Bytes) (hash : Bytes → ℕ) where
      -- The node was put on the ring that there was, after every source had reported that its stream is
      -- complete, and the hints had been replayed.
      abbrev pub Ready : List String → Cluster → Type 0
      Ready sources c' =
          ((ring : ConsistentHasher) × (c'.ring ≡ route_add encode hash node ring))
          × All (λ s. Reported env from s node.node_id) sources
          × ((n : ℕ) × (from ≤ n) × (env.hints_replayed n ≡ true))

      abbrev pub IsNormal : Cluster → Type 0
      IsNormal c' = state_of node.node_id c' ≡ some NodeState.normal

      -- What holds for each way in which the monitor ends.
      abbrev pub Ends : List String → Joining → Cluster → Type 0
      Ends sources joined c' = Ready sources c' × IsNormal c'
      Ends sources state_not_updated c' = Ready sources c' × (¬ IsNormal c')
      Ends sources hints_failed c' =
          All (λ s. Reported env from s node.node_id) sources × (¬ IsNormal c')
      Ends sources timed_out c' = ¬ IsNormal c'

      after_state-Ends :
          (sources : List String) (change_id : String) (normal : Bool) (c : Cluster)
          → Ready sources c
          → (normal ≡ true → IsNormal c)
          → (normal ≡ false → ¬ IsNormal c)
          → let r = after_state env node encode hash sources change_id normal c in
            Ends sources r.1 r.0
      unfolding after_state
      after_state-Ends sources change_id false c ready now not_yet = (ready, not_yet refl)
      after_state-Ends sources change_id true c ready now not_yet =
          let id = node.node_id in
          let activate = MetadataStore.update_storage_node_status id NodeStatus.active in
          let c1 = (update_store env activate c).0 in
          let c2 = (clear_ranges env id c1).0 in
          let c3 = (finish_change env completed_at change_id c2).0 in
          let calm =
            update_store-IsCalm env activate (status-KeepsRows id NodeStatus.active) c
            ⨾ clear_ranges-IsCalm env id c1
            ⨾ finish_change-IsCalm env completed_at change_id c2
            ⨾ stop_sources-IsCalm sources c3 in
          (
            ((ready.0.0, calm.same_ring ∙ ready.0.1), ready.1, ready.2),
            ap (λ (s : Database). state_in (find_row id s.storage_nodes))
                  (stop_sources-store env node sources c3)
                ∙ finish_change-state env id completed_at change_id c2
                ∙ clear_ranges-state env id c1
                ∙ status-state env id NodeStatus.active c
                ∙ now refl,
          )

      after_hints-Ends :
          (sources : List String) (change_id : String) (replayed : Bool) (c : Cluster)
          → ¬ IsNormal c
          → All (λ s. Reported env from s node.node_id) sources
          → (replayed ≡ true → (n : ℕ) × (from ≤ n) × (env.hints_replayed n ≡ true))
          → let r = after_hints env node encode hash sources change_id replayed c in
            Ends sources r.1 r.0
      unfolding after_hints add_to_ring
      after_hints-Ends sources change_id false c before all replay =
          (all, rollback-state env node sources change_id c before)
      after_hints-Ends sources change_id true c before all replay =
          let c1 = (add_to_ring env node encode hash c).0 in
          let update = MetadataStore.update_node_state node.node_id NodeState.normal in
          let (c2, normal) = update_store env update c1 in
          let calm =
            update_store-IsCalm env update (state-KeepsRows node.node_id NodeState.normal) c1 in
          let (marked, same) = update_state env node.node_id NodeState.normal c1 in
          after_state-Ends sources change_id normal c2 ((c.ring, calm.same_ring), all, replay refl)
            marked (λ refused e. before (sym (same refused) ∙ e))

      monitor-Ends :
          (todo : ℕ) (sources : List String) (change_id : String) (done : List String) (c : Cluster)
          → Sound Complete done
          → from ≤ c.calls
          → ¬ IsNormal c
          → let r = monitor_streaming env node encode hash todo sources change_id done c in
            Ends sources r.1 r.0
      unfolding monitor_streaming replay_hints wait_tick
      monitor-Ends zero sources change_id done c sound past before =
          rollback-state env node sources change_id c before
      monitor-Ends (suc todo) sources change_id done c sound past before =
          let c0 = (wait_tick env encode hash c).0 in
          let (c', (all_completed, done')) = check_all (check_source env node) done sources c0 in
          let (calm, sound', all) =
            check_all-reports Complete from (check_source env node) check_source-reports sources
              done c0 sound (omega (arith, past)) in
          let past' : from ≤ c'.calls = omega (arith, past, calm.later) in
          let same =
            ap (λ (s : Database). state_in (find_row node.node_id s.storage_nodes))
              (check_all-store env node sources done c0) in
          let still_not : ¬ IsNormal c' = λ e. before (sym same ∙ e) in
          elim (Bool-cases all_completed) [
            | inr waiting ↦
                rw waiting (monitor-Ends todo sources change_id done' c' sound' past' still_not)
            | inl ready ↦ rw ready (
                after_hints-Ends sources change_id (env.hints_replayed c'.calls)
                  (record c' { calls = suc c'.calls }) still_not (all ready)
                  (λ e. (c'.calls, past', e)))
          ]

-- Take a node whose state in the metadata store is not NORMAL, as that of a node that is added. While the
-- hash ring is rebuilt from the store in any of the monitor's waits, the state becomes NORMAL only if the
-- monitor ends with the node joined; every source has then reported, in a call of the monitor, that its
-- stream to the node is complete, the hints for the node have been replayed, and the node is put on the
-- ring. The same is done if only the update of the state fails. Otherwise the state is not NORMAL.
pub monitor_streaming_progress-Ends :
    (env : Environment) (node : StorageNode) (encode : String → Bytes) (hash : Bytes → ℕ)
    (sources : List String) (change_id : String) (c : Cluster)
    → state_of node.node_id c ≢ some NodeState.normal
    → let r = monitor_streaming_progress env node encode hash sources change_id c in
      Ends env node c.calls encode hash sources r.1 r.0
unfolding monitor_streaming_progress is_done
monitor_streaming_progress-Ends env node encode hash sources change_id c before =
    monitor-Ends env node c.calls encode hash 360 sources change_id [] c
      (λ source known. absurd (ground arith)) (omega arith) before
