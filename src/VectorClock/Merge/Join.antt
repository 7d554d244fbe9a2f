-- ===== src/VectorClock/Merge/Join.antt =====
-- The clock that `Merge` returns, in the causal order.
use pair_db.Prelude.{
  ◌≤◌, String, List, [], ◌∷◌, ◌≡◌, arith, All, ◌↔◌, All-map, All-zip, All-swap, Option-cases, inl,
  inr,
}
use pair_db.GoMap.{GoMap, Iteration, lookup, IsDistinct, lookup-nil, insert-IsDistinct}
use pair_db.Int64.{Int64, zero64}
use pair_db.VectorClock.{VectorClock, VectorClockEntry, to_map, at_node, timestamp, ◌≼◌}
use pair_db.VectorClock.WellFormed.{IsValid, to_map-Recorded, timestamp-non_negative}
use pair_db.VectorClock.Merge.{merge_entry, merge_entries, merge_clocks, merge}
use pair_db.VectorClock.Merge.FromMap.{timestamp-from_map}
use pair_db.VectorClock.Merge.Bound.{merge_clocks-covers, EntryWithin, merge_clocks-Within}

merge_entry-IsDistinct :
    (m : GoMap Int64) (e : VectorClockEntry) → IsDistinct m → IsDistinct (merge_entry m e)
unfolding merge_entry
merge_entry-IsDistinct m e d =
    ground (arith, insert-IsDistinct e.coordinator_node_id e.logical_timestamp m d)

merge_entries-IsDistinct :
    (es : List VectorClockEntry) (m : GoMap Int64) → IsDistinct m → IsDistinct (merge_entries m es)
unfolding merge_entries
merge_entries-IsDistinct [] m d = d
merge_entries-IsDistinct (e ∷ es) m d =
    merge_entries-IsDistinct es (merge_entry m e) (merge_entry-IsDistinct m e d)

merge_clocks-IsDistinct :
    (clocks : List VectorClock) (m : GoMap Int64)
    → IsDistinct m
    → IsDistinct (merge_clocks m clocks)
unfolding merge_clocks
merge_clocks-IsDistinct [] m d = d
merge_clocks-IsDistinct (vc ∷ clocks) m d =
    merge_clocks-IsDistinct clocks (merge_entries m vc.entries)
      (merge_entries-IsDistinct vc.entries m d)

pub merge_map-IsDistinct : (clocks : List VectorClock) → IsDistinct (merge_clocks [] clocks)
merge_map-IsDistinct clocks = merge_clocks-IsDistinct clocks [] tt

module _ (range : Iteration) where
  timestamp-merge :
      (clocks : List VectorClock) (k : String)
      → timestamp (merge range clocks) k ≡ at_node (merge_clocks [] clocks) k
  unfolding merge
  timestamp-merge clocks k =
      timestamp-from_map range k (merge_clocks [] clocks) (merge_map-IsDistinct clocks)

-- The entries of a valid clock below `c` are within the timestamps of `c`.
entries-Within :
    (c : VectorClock) (k : String) (vc : VectorClock)
    → IsValid vc × (vc ≼ c)
    → All (EntryWithin k (λ t. t ≤ timestamp c k)) vc.entries
entries-Within c k vc (v, h) =
    let at_k : timestamp vc k ≤ timestamp c k = h k in
    All-map (λ e recorded same. ground (arith, recorded same)) vc.entries
      (to_map-Recorded k vc v.no_repeat)

merge_below :
    (clocks : List VectorClock) (c : VectorClock) (k : String)
    → IsValid c
    → All (λ vc. IsValid vc × (vc ≼ c)) clocks
    → at_node (merge_clocks [] clocks) k ≤ timestamp c k
merge_below clocks c k v h =
    let below =
      merge_clocks-Within k (λ t. t ≤ timestamp c k) clocks []
        (All-map (entries-Within c k) clocks h) (rw lookup-nil tt) in
    elim (Option-cases (lookup k (merge_clocks [] clocks))) [
      | inl e ↦ ground (arith, timestamp-non_negative c k v)
      | inr (t, e) ↦ ground arith
    ]

merge_non_negative :
    (clocks : List VectorClock) (k : String)
    → All IsValid clocks
    → zero64 ≤ at_node (merge_clocks [] clocks) k
merge_non_negative clocks k v =
    let positive =
      merge_clocks-Within k (λ t. zero64 ≤ t) clocks []
        (All-map (λ vc valid. All-map (λ e n same. n) vc.entries valid.non_negative) clocks v)
        (rw lookup-nil tt) in
    ground (arith, Option-cases (lookup k (merge_clocks [] clocks)))

merge_above :
    (clocks : List VectorClock) (k : String)
    → All IsValid clocks
    → All (λ vc. timestamp vc k ≤ at_node (merge_clocks [] clocks) k) clocks
merge_above clocks k v =
    let positive = merge_non_negative clocks k v in
    All-map
      (λ vc h. ground (
        arith,
        Option-cases (lookup k (to_map vc)),
        Option-cases (lookup k (merge_clocks [] clocks)),
      ))
      clocks (merge_clocks-covers k clocks [])

-- For valid clocks, a valid clock is above the merge exactly if it is above each of them.
pub merge_least_upper :
    (range : Iteration) (clocks : List VectorClock) (c : VectorClock)
    → All IsValid clocks
    → IsValid c
    → (merge range clocks ≼ c) ↔ All (λ vc. vc ≼ c) clocks
merge_least_upper range clocks c v vc = (
  λ h.
      All-swap (λ k vc. timestamp vc k ≤ timestamp c k) clocks
        (λ k.
          let total : timestamp (merge range clocks) k ≤ timestamp c k = h k in
          let sum = timestamp-merge range clocks k in
          All-map (λ x le. omega arith) clocks (merge_above clocks k v)),
  λ h k. rw timestamp-merge (merge_below clocks c k vc (All-zip (λ x a b. (a, b)) clocks v h)),
)
