-- ===== src/VectorClock/Merge.antt =====
-- `Merge`, `Increment` and `GetMaxTimestamp` of coordinator/internal/algorithm/vectorclock_ops.go.
pub mod Bound
pub mod FromMap
pub mod Join
use pair_db.Prelude.{
  ℕ, ◌≤◌, String, List, [], ◌∷◌, none, some, Bool, true, false, ltb, if◌then◌else◌, Option,
}
use pair_db.GoMap.{GoMap, Iteration, lookup, insert}
use pair_db.Int64.{Int64, zero64, incr64}
use pair_db.VectorClock.{VectorClock, VectorClockEntry, to_map, at_node}

-- the loop of `for nodeID, ts := range m { entries = append(…) }`
pub entries_of : GoMap Int64 → List VectorClockEntry
entries_of [] = []
entries_of ((k, t) ∷ m) = record { coordinator_node_id = k; logical_timestamp = t } ∷ entries_of m

-- !exists || t > existing
pub exceeds : Int64 → Option Int64 → Bool
exceeds t none = true
exceeds t (some existing) = ltb existing t

-- one round of the inner loop of `Merge`
pub merge_entry : GoMap Int64 → VectorClockEntry → GoMap Int64
unfolding exceeds
merge_entry merged e =
    if exceeds e.logical_timestamp (lookup e.coordinator_node_id merged)
    then insert e.coordinator_node_id e.logical_timestamp merged
    else merged

pub merge_entries : GoMap Int64 → List VectorClockEntry → GoMap Int64
unfolding merge_entry
merge_entries merged [] = merged
merge_entries merged (e ∷ es) = merge_entries (merge_entry merged e) es

pub merge_clocks : GoMap Int64 → List VectorClock → GoMap Int64
merge_clocks merged [] = merged
merge_clocks merged (vc ∷ clocks) = merge_clocks (merge_entries merged vc.entries) clocks

max_entry : Int64 → List VectorClockEntry → Int64
max_entry m [] = m
max_entry m (e ∷ es) = max_entry (if ltb m e.logical_timestamp then e.logical_timestamp else m) es

unfoldable pub get_max_timestamp : VectorClock → Int64
unfolding max_entry
get_max_timestamp vc = max_entry zero64 vc.entries

module _ (range : Iteration) where
  -- a map back to entries, in the order of `range`
  unfoldable pub from_map : GoMap Int64 → VectorClock
  unfolding entries_of
  from_map m = record { entries = entries_of (range.order Int64 m) }

  unfoldable pub merge : List VectorClock → VectorClock
  unfolding merge_clocks merge_entries merge_entry exceeds from_map
  merge clocks = from_map (merge_clocks [] clocks)

  unfoldable pub increment : VectorClock → String → VectorClock
  unfolding from_map
  increment vc node_id =
      let vc_map = to_map vc in from_map (insert node_id (incr64 (at_node vc_map node_id)) vc_map)
