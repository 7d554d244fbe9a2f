-- ===== src/Cleanup.antt =====
-- `CleanupService` of coordinator/internal/service/cleanup_service.go: when a topology change may be
-- forgotten. Of the metadata store it is given the list of nodes (`none` where the store returns an
-- error) and whether the deletion of a change succeeds.
pub mod Safe
use pair_db.Prelude.{
  ℕ, ◌+◌, ◌-◌, ◌*◌, ◌/◌, String, List, [], ◌∷◌, Bool, true, false, ltb, ◌==◌, if◌then◌else◌, not,
  Option, none, some, length, take, select, count_if,
}
use pair_db.GoMap.{GoMap, Iteration}
use pair_db.Topology.{
  StorageNode, TokenRange, PendingChange, PendingChangeStatus, StreamingProgress, is_normal,
  is_completed, is_streamed,
}

pub data Refusal : Type 0 where
  not_completed : PendingChangeStatus → Refusal
  streaming_active : String → Refusal
  grace_period_not_elapsed : ℕ → Refusal
  quorum_failed : Refusal

pub data Verdict : Type 0 where
  safe : Verdict
  refused : Refusal → Verdict

pub data CleanupReply : Type 0 where
  cleaned delete_failed : CleanupReply
  cleanup_refused : Refusal → CleanupReply
  change_not_found : CleanupReply

-- the grace period of a new service: 24 hours for 0
pub grace_period_of : ℕ → ℕ
grace_period_of grace_period = if grace_period == 0 then 24 * 3600 * 1000000000 else grace_period

-- the loop over `change.Progress`: the first source that still streams
pub streaming_source : GoMap StreamingProgress → Option String
streaming_source [] = none
streaming_source ((source_node, progress) ∷ rest) =
    let more = streaming_source rest in
    if not (is_streamed progress.state) then some source_node else more

abbrev pub completed_time : PendingChange → ℕ
completed_time change =
    if change.completed_at == 0 then change.last_updated else change.completed_at

pub get_replicas_for_range : Option (List StorageNode) → ℕ → List StorageNode
get_replicas_for_range none rf = []
get_replicas_for_range (some nodes) rf =
    let normal_nodes = select (λ node. is_normal node.state) nodes in
    if ltb (length normal_nodes) rf then normal_nodes else take rf normal_nodes

-- `verifyReplicaHasRange`: only the node's state is looked at
abbrev pub verify_replica_has_range : StorageNode → Bool
verify_replica_has_range replica = is_normal replica.state

-- one round of the loop of `verifyQuorum`
pub verify_range : Option (List StorageNode) → Bool
unfolding get_replicas_for_range
verify_range nodes =
    let replicas = get_replicas_for_range nodes 3 in
    if ltb (length replicas) 3
    then false
    else not (ltb (count_if verify_replica_has_range replicas) (3 / 2 + 1))

pub verify_quorum : Option (List StorageNode) → List TokenRange → Bool
verify_quorum nodes [] = true
verify_quorum nodes (range ∷ ranges) =
    let rest = verify_quorum nodes ranges in if verify_range nodes then rest else false

-- The time since completion is below the grace period; both are `int64` differences in the source.
module _ (range : Iteration) (grace_period now : ℕ) (nodes : Option (List StorageNode)) where
  unfoldable pub verify_cleanup_safe : PendingChange → Verdict
  unfolding streaming_source verify_quorum verify_range get_replicas_for_range
  verify_cleanup_safe change =
      if not (is_completed change.status)
      then refused (not_completed change.status)
      else elim (streaming_source (range.order StreamingProgress change.progress)) [
        | some source_node ↦ refused (streaming_active source_node)
        | none ↦
            if ltb now (completed_time change + grace_period)
            then refused (grace_period_not_elapsed (completed_time change + grace_period - now))
            else if not (verify_quorum nodes change.ranges)
            then refused quorum_failed
            else safe
      ]

  -- the deletion of the change, with whether the store's delete succeeds
  unfoldable pub execute_cleanup : (String → Bool) → PendingChange → CleanupReply
  execute_cleanup delete_pending_change change = elim (verify_cleanup_safe change) [
    | refused r ↦ cleanup_refused r
    | safe ↦ if delete_pending_change change.change_id then cleaned else delete_failed
  ]

-- `ForceCleanup`, with what the store finds under the id
unfoldable pub force_cleanup :
    (String → Option PendingChange) → (String → Bool) → String → CleanupReply
force_cleanup get_pending_change delete_pending_change change_id =
    elim (get_pending_change change_id) [
      | none ↦ change_not_found
      | some change ↦ if delete_pending_change change_id then cleaned else delete_failed
    ]
