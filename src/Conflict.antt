-- ===== src/Conflict.antt =====
-- `DetectConflicts` and the repair of coordinator/internal/service/conflict_service.go.
pub mod Latest
use pair_db.Prelude.{
  ℕ, String, List, [], ◌∷◌, Bool, true, false, Option, none, some, ◌&&◌, ltb, if◌then◌else◌, select,
  not, str_eq, ◌==◌, length, count_if,
}
use pair_db.GoMap.{Iteration}
use pair_db.VectorClock.{VectorClock, VectorClockComparison, identical, before, after, concurrent}
use pair_db.VectorClock.Compare.{compare}
use pair_db.StorageClient.{StorageResponse}
use pair_db.Topology.{StorageNode}

-- resp.Success && resp.Found
abbrev pub is_hit : StorageResponse → Bool
is_hit resp = resp.success && resp.found

pub record Scan : Type 0 where
  pub latest : StorageResponse
  pub has_conflict : Bool

-- the `switch` on the comparison
resolve : StorageResponse → Scan → VectorClockComparison → Scan
resolve resp s after = record s { latest = resp }
resolve resp s before = s
resolve resp s concurrent = record s {
  has_conflict = true;
  latest = if ltb s.latest.timestamp resp.timestamp then resp else s.latest;
}
resolve resp s identical = s

module _ (range : Iteration) where
  -- One round of the loop once there is a `latest`.
  visit : Scan → StorageResponse → Scan
  visit s resp =
      if is_hit resp
      then resolve resp s (compare range resp.vector_clock s.latest.vector_clock)
      else s

  scan_rest : Scan → List StorageResponse → Scan
  scan_rest s [] = s
  scan_rest s (resp ∷ rest) = scan_rest (visit s resp) rest

  -- The loop up to the first hit.
  scan_first : List StorageResponse → Option Scan
  scan_first [] = none
  scan_first (resp ∷ rest) =
      let more = scan_first rest in
      if is_hit resp
      then some (scan_rest (record { latest = resp; has_conflict = false }) rest)
      else more

  unfoldable pub detect_conflicts : List StorageResponse → Option Scan
  unfolding scan_first scan_rest visit resolve
  detect_conflicts responses = scan_first responses

-- `TriggerRepair`: the replicas that are not the one which returned the latest version
unfoldable pub needs_repair : StorageResponse → List StorageNode → List StorageNode
needs_repair latest = select (λ replica. not (str_eq latest.node_id replica.node_id))
