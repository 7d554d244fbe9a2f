-- ===== src/Tests/Requests.antt =====
-- Requests to the cluster.
use pair_db.Prelude.{
  String, ◌<◌, ◌↔◌, List, [], ◌∷◌, true, false, some, ◌≡◌, refl, All, Any, arith, count_if,
}
use pair_db.GoMap.{in_order, lookup, insert}
use pair_db.GoMap.Keys.{add_keys}
use pair_db.Int64.{int64}
use pair_db.VectorClock.{before, to_map}
use pair_db.VectorClock.Compare.{compare}
use pair_db.VectorClock.Merge.{from_map}
use pair_db.VectorClock.Service.{increment, increment_from}
use pair_db.Topology.{StorageNode, NodeState}
use pair_db.Consistency.{
  is_quorum_reached, normalize_consistency_level, get_required_replicas_for_write_set,
  calculate_quorum,
}
use pair_db.HintedHandoff.{new_service, store_hint}
use pair_db.StorageClient.{StorageResponse, read, write}
use pair_db.Conflict.{is_hit, detect_conflicts}
use pair_db.Conflict.Latest.{Covers, NotAfter}
use pair_db.Coordinator.{Reply, ok, WriteResult, ReadResult, sequential}
use pair_db.Coordinator.Write.{write_to_replicas_with_hints}
use pair_db.Coordinator.Write.Quorum.{takes, write-succeeds_iff}
use pair_db.Coordinator.Write.Hints.{write-leaves_hint, HasHint}
use pair_db.Coordinator.Read.{read_from_replicas_with_repair, read_existing_value}
use pair_db.Coordinator.Read.Freshness.{read-maximal, read-Covers, responses}
use pair_db.Coordinator.Requests.{
  Services, State, stored_key, write_replicas, resolve_replicas, write_key_value,
}
use pair_db.Coordinator.Requests.Writes.{fresh_write-after}
use pair_db.Coordinator.Requests.Retry.{write-never_duplicate}
use pair_db.Tests.Data.{entry, node, three, net, hit}

program : Unit {0}
unfolding compare to_map add_keys from_map lookup insert increment increment_from is_quorum_reached
    normalize_consistency_level get_required_replicas_for_write_set calculate_quorum new_service
    store_hint read write detect_conflicts write_to_replicas_with_hints
    read_from_replicas_with_repair read_existing_value write_key_value
program = tt

abbrev services : Services
services = record {
  default_level = "quorum";
  generate = λ _ _. "g";
  has_key = λ _ _ _ _. false;
  get_tenant = λ _. some 3;
  get_write_replicas = λ _ _ _. some three;
  get_read_replicas = λ _ _ _. some three;
}

abbrev start : State
start = record {
  vc_service = record { node_id = "x"; local_timestamp = int64 1 };
  hints = new_service 2 100;
  stored = [];
}

-- a write at level "quorum", which "c" misses
abbrev reply : State × Reply WriteResult
reply = write_key_value services net in_order 0 sequential sequential start "t" "k" (8 ∷ []) "" ""

abbrev result : WriteResult
result = record {
  success = true;
  key = "k";
  vector_clock = entry "x" 6;
  replica_count = 2;
  consistency = "quorum";
  is_duplicate = false;
}

write_run : reply.1 ≡ ok result
unfolding program
write_run = refl

read_run :
    read_from_replicas_with_repair net "t" "k" in_order sequential three "quorum"
    ≡ (ok (record { key = "k"; value = 7 ∷ []; vector_clock = entry "x" 5 }), false)
unfolding program
read_run = refl

existing_run : read_existing_value net "t" "k" sequential three ≡ some (hit "a" (entry "x" 5))
unfolding program
existing_run = refl

abbrev found : ReadResult
found = record { key = "k"; value = 7 ∷ []; vector_clock = entry "x" 5 }

abbrev answers : List StorageResponse
answers = responses net "t" "k" in_order sequential three "quorum"

read-maximal_example :
    (hit : StorageResponse) × Any (λ r. r ≡ hit) answers
    × (is_hit hit ≡ true)
    × (found ≡ record { key = "k"; value = hit.value; vector_clock = hit.vector_clock })
    × (is_quorum_reached (count_if is_hit answers) 3 "quorum" ≡ true)
    × All (NotAfter hit) answers
read-maximal_example =
    read-maximal net "t" "k" in_order sequential three "quorum" found false read_run

read-Covers_example :
    (hit : StorageResponse) × Any (λ r. r ≡ hit) answers
    × (is_hit hit ≡ true)
    × (found ≡ record { key = "k"; value = hit.value; vector_clock = hit.vector_clock })
    × All (Covers hit) answers
read-Covers_example = read-Covers net "t" "k" in_order sequential three "quorum" found read_run

write-succeeds_iff_example :
    ((write_to_replicas_with_hints net 0 "t" "k"
        (8 ∷ [])
        (entry "x" 6)
        sequential
        start.hints
        three
        "quorum").1
      ≡ ok result)
    ↔ ((is_quorum_reached (count_if (takes net 0 "t" "k" (8 ∷ []) (entry "x" 6)) three) 3 "quorum"
          ≡ true)
        × (result ≡ record result {
          replica_count = count_if (takes net 0 "t" "k" (8 ∷ []) (entry "x" 6)) three;
        }))
write-succeeds_iff_example =
    write-succeeds_iff net 0 "t" "k" (8 ∷ []) (entry "x" 6) sequential start.hints three "quorum"
      result

-- one owner, and two nodes that join and do not answer
abbrev joining : List StorageNode
joining =
    node "a"
    ∷ record (node "c") { state = NodeState.bootstrapping }
    ∷ record (node "c") { state = NodeState.bootstrapping }
    ∷ []

write-leaves_hint_example :
    HasHint net 0 "t" "k"
      (8 ∷ [])
      (entry "x" 6)
      (write_to_replicas_with_hints net 0 "t" "k"
        (8 ∷ [])
        (entry "x" 6)
        sequential
        start.hints
        three
        "quorum").0
      "c"
unfolding program
write-leaves_hint_example =
    write-leaves_hint net 0 "t" "k" (8 ∷ []) (entry "x" 6) sequential start.hints three "quorum" "c"
      (omega arith)

fresh_write-after_example :
    (compare in_order (entry "x" 5) (entry "x" 6) ≡ before)
    × (int64 1 < reply.0.vc_service.local_timestamp)
unfolding program
fresh_write-after_example =
    fresh_write-after services net in_order 0 sequential sequential start "t" "k" (8 ∷ []) "" ""
      result three (hit "a" (entry "x" 5)) refl refl refl refl (omega arith) (omega arith)
      (omega arith)

-- A store that has every key.
abbrev remembering : Services
remembering = record services { has_key = λ _ _ _ _. true }

-- the same write twice, with the idempotency key "i"
abbrev kept : State × Reply WriteResult
kept =
    write_key_value remembering net in_order 0 sequential sequential start "t" "k" (8 ∷ []) "" "i"

abbrev again : State × Reply WriteResult
again =
    write_key_value remembering net in_order 1 sequential sequential kept.0 "t" "k" (8 ∷ []) "" "i"

abbrev again_result : WriteResult
again_result = record result { vector_clock = entry "x" 7 }

again_run : again.1 ≡ ok again_result
unfolding program
again_run = refl

write-never_duplicate_example :
    (again_result.is_duplicate ≡ false)
    × (level : String) × (replicas : List StorageNode) × (resolve_replicas remembering net in_order
          "t" "k" remembering.get_write_replicas
        ≡ ok replicas)
    × (again
        ≡ write_replicas remembering net in_order 1 sequential sequential kept.0 "t" "k"
            (8 ∷ [])
            (stored_key remembering "t" "k" "i")
            level
            replicas)
write-never_duplicate_example =
    write-never_duplicate remembering net in_order 1 sequential sequential kept.0 "t" "k" (8 ∷ [])
      "" "i" again_result again_run
