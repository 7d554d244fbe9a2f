-- ===== src/Consistency.antt =====
-- Quorums and consistency levels: coordinator/internal/algorithm/quorum.go and
-- coordinator/internal/service/consistency_service.go. Counts of replicas are lengths of lists or
-- configured factors, so they are natural numbers.
pub mod Overlap
use pair_db.Prelude.{
  ℕ, ◌+◌, ◌/◌, String, List, Bool, true, false, ltb, leb, str_eq, if◌then◌else◌, count_if, ◌||◌,
  not,
}
use pair_db.Topology.{StorageNode, is_normal}

pub data Result {ℓ} (A : Type ℓ) : Type ℓ where
  ok : A → Result A
  err : String → Result A

unfoldable pub calculate_quorum : ℕ → ℕ
calculate_quorum total_replicas = total_replicas / 2 + 1

unfoldable pub get_required_replicas : String → ℕ → ℕ → ℕ
unfolding calculate_quorum
get_required_replicas consistency total_replicas active_replicas =
    if str_eq consistency "one"
    then 1
    else if str_eq consistency "all"
    then total_replicas
    else if ltb 0 active_replicas
    then calculate_quorum active_replicas
    else calculate_quorum total_replicas

unfoldable pub get_required_replicas_simple : String → ℕ → ℕ
unfolding get_required_replicas
get_required_replicas_simple consistency total_replicas =
    get_required_replicas consistency total_replicas total_replicas

-- `IsQuorumReached` of the consistency service
unfoldable pub is_quorum_reached : ℕ → ℕ → String → Bool
unfolding get_required_replicas_simple
is_quorum_reached success_count total_replicas consistency =
    leb (get_required_replicas_simple consistency total_replicas) success_count

unfoldable pub validate_consistency_level : String → Bool
validate_consistency_level level =
    str_eq level "one" || (str_eq level "quorum" || str_eq level "all")

unfoldable pub normalize_consistency_level : String → String → Result String
unfolding validate_consistency_level
normalize_consistency_level default_level level =
    if str_eq level ""
    then ok default_level
    else if not (validate_consistency_level level)
    then err "invalid consistency level: must be one of: one, quorum, all"
    else ok level

-- `GetRequiredReplicasForWriteSet`: quorum over the replicas in state NORMAL
unfoldable pub count_authoritative : List StorageNode → ℕ
count_authoritative = count_if (λ node. is_normal node.state)

unfoldable pub get_required_replicas_for_write_set : String → List StorageNode → ℕ
unfolding calculate_quorum count_authoritative
get_required_replicas_for_write_set consistency write_replicas =
    let authoritative_count = count_authoritative write_replicas in
    if str_eq consistency "one"
    then 1
    else if str_eq consistency "all"
    then authoritative_count
    else if ltb 0 authoritative_count
    then calculate_quorum authoritative_count
    else 1
