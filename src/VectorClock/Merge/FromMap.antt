-- ===== src/VectorClock/Merge/FromMap.antt =====
-- A map written out as entries reads back as the same timestamps, in whatever order `range` visits it.
use pair_db.Prelude.{String, [], ◌∷◌, none, some, ◌≡◌, refl, arith, eq_iff, Option-cases, ap}
use pair_db.GoMap.{GoMap, Iteration, lookup, insert, IsDistinct, lookup-insert, lookup-nil, or_zero}
use pair_db.Int64.{Int64, zero64}
use pair_db.VectorClock.{to_map, at_node, fill, timestamp}
use pair_db.VectorClock.Merge.{entries_of, from_map}

-- Filling from the entries of a map with distinct keys.
lookup-fill-entries_of :
    (k : String) (m acc : GoMap Int64)
    → IsDistinct m
    → lookup k (fill acc (entries_of m))
      ≡ (elim (lookup k m) [ none ↦ lookup k acc | some t ↦ some t ])
unfolding fill entries_of lookup
lookup-fill-entries_of k [] acc d = refl
lookup-fill-entries_of k ((j, t) ∷ m) acc d = ground (
  arith,
  lookup-fill-entries_of k m (insert j t acc) d.1,
  lookup-insert j k t acc,
  eq_iff j k,
  d.0,
)

pub lookup-from_map :
    (range : Iteration) (k : String) (m : GoMap Int64)
    → IsDistinct m
    → lookup k (to_map (from_map range m)) ≡ lookup k m
unfolding to_map from_map
lookup-from_map range k m d = ground (
  arith,
  Option-cases (lookup k m),
  lookup-fill-entries_of k (range.order Int64 m) [] (range.order-IsDistinct Int64 m d),
  range.lookup-order Int64 k m,
  lookup-nil {V = Int64} k,
)

pub timestamp-from_map :
    (range : Iteration) (k : String) (m : GoMap Int64)
    → IsDistinct m
    → timestamp (from_map range m) k ≡ at_node m k
timestamp-from_map range k m d = ap (or_zero zero64) (lookup-from_map range k m d)
