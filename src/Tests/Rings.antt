-- ===== src/Tests/Rings.antt =====
-- The ring, quorums and cleanup.
use pair_db.Prelude.{
  ℕ, ◌+◌, ◌≤◌, ◌↔◌, String, [], ◌∷◌, Bool, true, false, some, ◌≡◌, ◌⊎◌, refl, All, arith, length,
  count_if, str_eq, if◌then◌else◌,
}
use pair_db.GoMap.{in_order}
use pair_db.Bytes.{Bytes, decimal}
use pair_db.Ring.{
  ConsistentHasher, new_hasher, vnode_id_of, extract_node_id, add_node, remove_node, get_nodes,
  get_node_for_hash, contains, node_at, virtual_node,
}
use pair_db.Ring.Nodes.{IsValid, add_node-IsValid}
use pair_db.Ring.Owner.{get_node_for_hash-IsOwner, IsOwner}
use pair_db.Ring.Walk.{get_nodes-replicas, NoRepeat, HasNode}
use pair_db.Topology.{
  StorageNode, PendingChange, PendingChangeStatus, StreamingState, is_completed, is_normal,
}
use pair_db.Cleanup.{verify_cleanup_safe, execute_cleanup, cleaned, completed_time}
use pair_db.Cleanup.Safe.{execute_cleanup-cleans, AllStreamed, known}
use pair_db.Consistency.{
  calculate_quorum, is_quorum_reached, normalize_consistency_level, count_authoritative,
  get_required_replicas_for_write_set,
}
use pair_db.Tests.Data.{three}

program : Unit {0}
unfolding decimal extract_node_id add_node remove_node get_nodes get_node_for_hash
    verify_cleanup_safe execute_cleanup calculate_quorum is_quorum_reached
    normalize_consistency_level get_required_replicas_for_write_set count_authoritative
program = tt

-- A hash that adds the bytes up.
abbrev sum : Bytes → ℕ
sum [] = 0
sum (b ∷ bs) = b + sum bs

-- nodes "A" and "B" with two virtual nodes each
abbrev one : ConsistentHasher
one = add_node sum (65 ∷ []) 2 new_hasher

abbrev two : ConsistentHasher
two = add_node sum (66 ∷ []) 2 one

ring_run :
    (two.ring ≡ 743 ∷ 744 ∷ 744 ∷ 745 ∷ []) × (extract_node_id (vnode_id_of (65 ∷ []) 12) ≡ 65 ∷ [])
unfolding program
ring_run = (refl, refl)

new_hasher-IsValid : IsValid sum new_hasher
new_hasher-IsValid = record { sorted = tt; mapped = tt }

one_IsValid :
    IsValid sum one × (length one.ring ≡ 2) × All (λ h. contains one.ring h ≡ true) new_hasher.ring
one_IsValid = add_node-IsValid sum (65 ∷ []) new_hasher 2 new_hasher-IsValid refl

get_node_for_hash-IsOwner_example :
    (h : ℕ) × IsOwner one.ring 744 h × (get_node_for_hash one 744 ≡ node_at one h)
unfolding program
get_node_for_hash-IsOwner_example =
    get_node_for_hash-IsOwner one 744 one_IsValid.0.sorted (omega (arith, one_IsValid.1))

get_nodes-replicas_example :
    (length (get_nodes two 744 2) ≤ 2)
    × NoRepeat (get_nodes two 744 2)
    × All
        (λ v. (contains two.ring v.hash ≡ true) × (v ≡ virtual_node two v.hash))
        (get_nodes two 744 2)
    × ((length (get_nodes two 744 2) ≡ 2)
        ⊎ All (λ h. HasNode (node_at two h) (get_nodes two 744 2)) two.ring)
unfolding program
get_nodes-replicas_example = get_nodes-replicas two 744 2 (omega arith)

-- A bootstrap that ended at time 5, with one stream.
abbrev change : PendingChange
change = record {
  change_id = "c1";
  type = "bootstrap";
  node_id = "a";
  ranges = record { start = 0; end = 9 } ∷ [];
  status = PendingChangeStatus.completed;
  affected_nodes = [];
  start_time = 0;
  error_message = "";
  last_updated = 5;
  completed_at = 0;
  progress =
      (
        "b",
        record {
          source_node_id = "b";
          target_node_id = "a";
          keys_copied = 3;
          keys_streamed = 3;
          state = StreamingState.completed;
        },
      )
      ∷ [];
}

cleanup_run : execute_cleanup in_order 100 105 (some three) (λ _. true) change ≡ cleaned
unfolding program
cleanup_run = refl

execute_cleanup-cleans_example :
    (execute_cleanup in_order 100 105 (some three) (λ _. true) change ≡ cleaned) ↔ (
      (is_completed change.status ≡ true)
      × AllStreamed change.progress
      × (completed_time change + 100 ≤ 105)
      × ((change.ranges ≡ []) ⊎ (3 ≤ count_if (λ node. is_normal node.state) (known (some three))))
      × (true ≡ true))
execute_cleanup-cleans_example =
    execute_cleanup-cleans in_order 100 105 (some three) change (λ _. true)

abbrev is_not : String → StorageNode → Bool
is_not id n = if str_eq n.node_id id then false else true
