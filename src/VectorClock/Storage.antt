-- ===== src/VectorClock/Storage.antt =====
-- The storage node's comparisons: `Compare` of storage-node/internal/service/vectorclock_service.go and
-- `compareVectorClocks` of storage-node/internal/service/compaction_service.go.
pub mod Loops
pub mod Causality
use pair_db.Prelude.{
  String, List, [], ◌∷◌, none, some, Option, Bool, true, false, ltb, if◌then◌else◌,
}
use pair_db.GoMap.{GoMap, Iteration, lookup}
use pair_db.Int64.{Int64, zero64}
use pair_db.VectorClock.{VectorClock, to_map, at_node}

-- The results -1, 0 and 1.
pub data Verdict : Type 0 where
  less concurrent greater : Verdict

-- `aGreater` and `bGreater`
pub record Greater : Type 0 where
  pub a_greater : Bool
  pub b_greater : Bool

-- What one entry of `a` says against the timestamp of its node in `b`.
pub weigh : Greater → Int64 → Option Int64 → Greater
weigh g a_ts none = record g { a_greater = true }
weigh g a_ts (some b_ts) =
    if ltb b_ts a_ts
    then record g { a_greater = true }
    else if ltb a_ts b_ts
    then record g { b_greater = true }
    else g

-- The same in compaction, where a node that is absent in `b` counts as 0.
pub weigh_default : Greater → Int64 → Int64 → Greater
weigh_default g ts1 ts2 =
    if ltb ts2 ts1
    then record g { a_greater = true }
    else if ltb ts1 ts2
    then record g { b_greater = true }
    else g

-- What one entry of `b` says if its node is absent in `a`.
pub weigh_only : Greater → Int64 → Option Int64 → Greater
weigh_only g b_ts none = if ltb zero64 b_ts then record g { b_greater = true } else g
weigh_only g b_ts (some _) = g

-- the loop over the entries of `a`
pub scan_all : GoMap Int64 → Greater → GoMap Int64 → Greater
scan_all b_map g [] = g
scan_all b_map g ((k, t) ∷ m) = scan_all b_map (weigh g t (lookup k b_map)) m

pub scan_default : GoMap Int64 → Greater → GoMap Int64 → Greater
scan_default b_map g [] = g
scan_default b_map g ((k, t) ∷ m) = scan_default b_map (weigh_default g t (at_node b_map k)) m

-- the loop over the entries of `b`
pub scan_only : GoMap Int64 → Greater → GoMap Int64 → Greater
scan_only a_map g [] = g
scan_only a_map g ((k, t) ∷ m) = scan_only a_map (weigh_only g t (lookup k a_map)) m

pub verdict : Greater → Verdict
verdict g =
    if g.a_greater
    then (if g.b_greater then concurrent else greater)
    else if g.b_greater
    then less
    else concurrent

abbrev pub neither : Greater
neither = record { a_greater = false; b_greater = false }

module _ (range : Iteration) where
  pub scan_both : VectorClock → VectorClock → Greater
  scan_both a b =
      let a_map = to_map a in
      let b_map = to_map b in
      scan_only a_map (scan_all b_map neither (range.order Int64 a_map)) (range.order Int64 b_map)

  unfoldable pub compare : VectorClock → VectorClock → Verdict
  unfolding scan_both scan_all scan_only weigh weigh_only verdict
  compare a b = verdict (scan_both a b)

  pub scan_both_default : VectorClock → VectorClock → Greater
  scan_both_default a b =
      let a_map = to_map a in
      let b_map = to_map b in
      scan_only a_map (scan_default b_map neither (range.order Int64 a_map))
        (range.order Int64 b_map)

  unfoldable pub compare_vector_clocks : VectorClock → VectorClock → Verdict
  unfolding scan_both_default scan_default scan_only weigh_default weigh_only verdict
  compare_vector_clocks vc1 vc2 = verdict (scan_both_default vc1 vc2)
