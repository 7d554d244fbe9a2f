-- ===== src/VectorClock/Compare.antt =====
-- `Compare` of coordinator/internal/algorithm/vectorclock_ops.go.
pub mod Causality
use pair_db.Prelude.{
  ℕ, ◌≤◌, String, ◌≡◌, refl, Option, none, some, List, [], ◌∷◌, Bool, true, false, ltb,
  if◌then◌else◌,
}
use pair_db.GoMap.{GoMap, Iteration}
use pair_db.GoMap.Keys.{add_keys}
use pair_db.Int64.{Int64}
use pair_db.VectorClock.{
  VectorClock, VectorClockComparison, identical, before, after, concurrent, to_map, at_node,
}

-- `allBefore` and `allAfter`
pub record Flags : Type 0 where
  pub all_before : Bool
  pub all_after : Bool

module _ (map1 map2 : GoMap Int64) where
  -- one round of the loop over `allNodes`
  compare_node : Flags → String → Flags
  compare_node f k =
      let ts1 = at_node map1 k in
      let ts2 = at_node map2 k in
      if ltb ts1 ts2
      then record f { all_after = false }
      else if ltb ts2 ts1
      then record f { all_before = false }
      else f

  compare_nodes : Flags → GoMap Bool → Flags
  compare_nodes f [] = f
  compare_nodes f ((k, _) ∷ nodes) = compare_nodes (compare_node f k) nodes

relationship : Flags → VectorClockComparison
relationship f =
    if f.all_before
    then (if f.all_after then identical else before)
    else if f.all_after
    then after
    else concurrent

module _ (range : Iteration) where
  all_nodes : GoMap Int64 → GoMap Int64 → GoMap Bool
  all_nodes map1 map2 = add_keys (range.order Int64 map2) (add_keys (range.order Int64 map1) [])

  unfoldable pub compare : VectorClock → VectorClock → VectorClockComparison
  unfolding compare_node compare_nodes relationship all_nodes
  compare vc1 vc2 =
      let map1 = to_map vc1 in
      let map2 = to_map vc2 in
      let nodes = range.order Bool (all_nodes map1 map2) in
      relationship (compare_nodes map1 map2 (record { all_before = true; all_after = true }) nodes)
