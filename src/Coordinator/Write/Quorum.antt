-- ===== src/Coordinator/Write/Quorum.antt =====
-- When a write succeeds.
use native.Mathlib.Nat.{zero-add}
use pair_db.Prelude.{
  ℕ, ◌+◌, ◌≤◌, ◌<◌, String, List, [], ◌∷◌, Bool, true, false, Option, none, some, count_if,
  count_if-append, length, if◌then◌else◌, arith, ◌≡◌, ◌↔◌, ap, ◌∙◌,
}
use pair_db.VectorClock.{VectorClock}
use pair_db.Topology.{StorageNode}
use pair_db.Consistency.{is_quorum_reached, get_required_replicas_for_write_set, calculate_quorum}
use pair_db.HintedHandoff.{HintedHandoffService}
use pair_db.StorageClient.{Network, StorageResponse, write}
use pair_db.Coordinator.{Arrival, ok, err, Error, quorum_not_reached, WriteResult, failed_response}
use pair_db.Coordinator.Write.{
  Fanout, write_node, write_nodes, collect, success_count, conclude, write_to_replicas_with_hints,
}

quorum_missed : (s n : ℕ) → s < calculate_quorum n → is_quorum_reached s n "quorum" ≡ false
unfolding is_quorum_reached
quorum_missed s n h = ground arith

-- The call returns a response that reports success.
abbrev pub accepted : Option StorageResponse → Bool
accepted none = false
accepted (some resp) = resp.success

module _ (net : Network) (now : ℕ) (tenant_id key : String) (value : List ℕ)
    (vc : VectorClock) where
  -- The replica acknowledges the write.
  abbrev pub takes : StorageNode → Bool
  takes node = accepted (write net node tenant_id key value vc)

  successes-collect :
      (f : Fanout) (node : StorageNode) (o : Option StorageResponse)
      → success_count (collect net now tenant_id key value vc f node o).responses
        ≡ success_count f.responses + (if accepted o then 1 else 0)
  unfolding collect success_count
  successes-collect f node none = ground (
    arith,
    count_if-append (λ (r : StorageResponse). r.success) f.responses (failed_response node ∷ []),
  )
  successes-collect f node (some resp) =
      ground (arith, count_if-append (λ (r : StorageResponse). r.success) f.responses (resp ∷ []))

  successes-write_nodes :
      (nodes : List StorageNode) (f : Fanout)
      → success_count (write_nodes net now tenant_id key value vc f nodes).responses
        ≡ success_count f.responses + count_if takes nodes
  unfolding write_nodes write_node
  successes-write_nodes [] f = omega arith
  successes-write_nodes (node ∷ nodes) f =
      let o = write net node tenant_id key value vc in
      ground (
        arith,
        successes-write_nodes nodes (collect net now tenant_id key value vc f node o),
        successes-collect f node o,
      )

  module _ (arrival : Arrival) (hints : HintedHandoffService) (replicas : List StorageNode) where
    -- The reply depends on how many replicas acknowledge, in whatever order they do.
    pub write-conclude :
        (level : String)
        → (write_to_replicas_with_hints net now tenant_id key value vc arrival hints replicas
            level).1
          ≡ conclude net now tenant_id key value vc replicas level (count_if takes replicas)
    unfolding write_to_replicas_with_hints success_count
    write-conclude level =
        let sent = arrival.order replicas in
        let total = successes-write_nodes sent (record { hints = hints; responses = [] }) in
        let permuted = arrival.count_if-order takes replicas in
        ap (conclude net now tenant_id key value vc replicas level)
          (unfold success_count in total ∙ zero-add (count_if takes sent) ∙ permuted)

    -- A write succeeds exactly if the replicas that acknowledge it reach the quorum of all replicas that
    -- it was sent to, and then reports how many they are and the clock that was written.
    pub write-succeeds_iff :
        (level : String) (result : WriteResult)
        → ((write_to_replicas_with_hints net now tenant_id key value vc arrival hints replicas
              level).1
            ≡ ok result)
          ↔ ((is_quorum_reached (count_if takes replicas) (length replicas) level ≡ true)
              × (result ≡ record {
                success = true;
                key = key;
                vector_clock = vc;
                replica_count = count_if takes replicas;
                consistency = level;
                is_duplicate = false;
              }))
    unfolding conclude
    write-succeeds_iff level result =
        rw (write-conclude level) (λ h. ground arith, λ h. ground arith)

    pub write-fresh :
        (level : String) (result : WriteResult)
        → (write_to_replicas_with_hints net now tenant_id key value vc arrival hints replicas
            level).1
          ≡ ok result
        → (result.is_duplicate ≡ false)
          × (result.vector_clock ≡ vc)
          × (result.consistency ≡ level)
          × (result.success ≡ true)
    write-fresh level result h =
        let same = ((write-succeeds_iff level result).0 h).1 in
        (
          ap (λ (r : WriteResult). r.is_duplicate) same,
          ap (λ (r : WriteResult). r.vector_clock) same,
          ap (λ (r : WriteResult). r.consistency) same,
          ap (λ (r : WriteResult). r.success) same,
        )

    pub write-missed :
        (level : String) (e : Error)
        → (write_to_replicas_with_hints net now tenant_id key value vc arrival hints replicas
            level).1
          ≡ err e
        → e
          ≡ quorum_not_reached
              (count_if takes replicas)
              (get_required_replicas_for_write_set level replicas)
    unfolding conclude
    write-missed level e = rw (write-conclude level) (λ h. ground arith)

    -- The number that the reply names as required counts NORMAL replicas only, and the check does not
    -- use it: at level "quorum" a write fails though as many replicas acknowledge as it requires.
    write-ignores_required :
        get_required_replicas_for_write_set "quorum" replicas ≤ count_if takes replicas
        → count_if takes replicas < calculate_quorum (length replicas)
        → (write_to_replicas_with_hints net now tenant_id key value vc arrival hints replicas
            "quorum").1
          ≡ err (
              quorum_not_reached
                (count_if takes replicas)
                (get_required_replicas_for_write_set "quorum" replicas))
    unfolding conclude
    write-ignores_required enough few =
        rw (write-conclude "quorum")
          (ground (arith, quorum_missed (count_if takes replicas) (length replicas) few))
