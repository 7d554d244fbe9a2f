-- ===== src/VectorClock.antt =====
-- The vector clock of both services: coordinator/internal/model/vectorclock.go and
-- storage-node/internal/model/entry.go, with the order that the comparisons are judged by.
pub mod Compare
pub mod Merge
pub mod Service
pub mod Storage
pub mod WellFormed
use pair_db.Prelude.{
  ℕ, ◌≤◌, String, ◌≡◌, refl, Option, none, some, List, [], ◌∷◌, Bool, true, false, ◌==◌, length,
  if◌then◌else◌, not, ◌||◌, ◌&&◌,
}
use pair_db.GoMap.{GoMap, lookup, insert, or_zero}
use pair_db.Int64.{Int64, zero64}

pub record VectorClockEntry : Type 0 where
  pub coordinator_node_id : String
  pub logical_timestamp : Int64

pub record VectorClock : Type 0 where
  pub entries : List VectorClockEntry

pub data VectorClockComparison : Type 0 where
  identical before after concurrent : VectorClockComparison

-- the loop of `toMap`, into the map built so far
pub fill : GoMap Int64 → List VectorClockEntry → GoMap Int64
fill m [] = m
fill m (e ∷ es) = fill (insert e.coordinator_node_id e.logical_timestamp m) es

unfoldable pub to_map : VectorClock → GoMap Int64
unfolding fill
to_map vc = fill [] vc.entries

-- The timestamp that a map gives a node: `m[node]`, 0 if it is absent.
abbrev pub at_node : GoMap Int64 → String → Int64
at_node m k = or_zero zero64 (lookup k m)

abbrev pub timestamp : VectorClock → String → Int64
timestamp vc = at_node (to_map vc)

-- The causal order: no node is ahead in the left clock.
abbrev pub ◌≼◌ : VectorClock → VectorClock → Type 0
◌≼◌ a b = (k : String) → timestamp a k ≤ timestamp b k

infix 50 ◌≼◌
-- the second loop of `Equals`
all_match : GoMap Int64 → List VectorClockEntry → Bool
all_match m [] = true
all_match m (e ∷ es) = elim (lookup e.coordinator_node_id m) [
  | none ↦ false
  | some t ↦ if not (t == e.logical_timestamp) then false else all_match m es
]

unfoldable pub equals : VectorClock → VectorClock → Bool
unfolding all_match
equals vc other =
    if not (length vc.entries == length other.entries)
    then false
    else all_match (to_map vc) other.entries
