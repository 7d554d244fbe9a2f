-- ===== src/VectorClock/Merge/Bound.antt =====
-- `Merge` is the least upper bound in the causal order.
use pair_db.Prelude.{
  ◌≤◌, String, List, [], ◌∷◌, none, some, true, false, if◌then◌else◌, Option, ◌≡◌, ◌⊎◌, arith,
  eq_iff, str_eq, Bool-cases, inl, inr, All,
}
use pair_db.GoMap.{GoMap, lookup, insert, lookup-insert}
use pair_db.Int64.{Int64}
use pair_db.VectorClock.{VectorClock, VectorClockEntry, to_map, fill}
use pair_db.VectorClock.Merge.{merge_entry, merge_entries, merge_clocks, exceeds}

-- An absent timestamp is below every other.
abbrev pub AtMost : Option Int64 → Option Int64 → Type 0
AtMost none o = Unit
AtMost (some a) none = ⊥
AtMost (some a) (some b) = a ≤ b

pub AtMost-refl : (o : Option Int64) → AtMost o o
AtMost-refl none = tt
AtMost-refl (some a) = omega arith

pub AtMost-trans : (a b c : Option Int64) → AtMost a b → AtMost b c → AtMost a c
AtMost-trans none b c h k = tt
AtMost-trans (some a) none c h k = absurd h
AtMost-trans (some a) (some b) none h k = absurd k
AtMost-trans (some a) (some b) (some c) h k = omega arith

module _ (k : String) where
  -- one entry: a plain write on the left, a merge on the right
  AtMost-merge_entry :
      (acc m : GoMap Int64) (e : VectorClockEntry)
      → AtMost (lookup k acc) (lookup k m)
      → AtMost
          (lookup k (insert e.coordinator_node_id e.logical_timestamp acc))
          (lookup k (merge_entry m e))
  unfolding merge_entry
  AtMost-merge_entry acc m e h =
      let j = e.coordinator_node_id in
      let t = e.logical_timestamp in
      ground (arith, lookup-insert j k t acc, lookup-insert j k t m, eq_iff j k)

  AtMost-fill :
      (es : List VectorClockEntry) (acc m : GoMap Int64)
      → AtMost (lookup k acc) (lookup k m)
      → AtMost (lookup k (fill acc es)) (lookup k (merge_entries m es))
  unfolding fill merge_entries
  AtMost-fill [] acc m h = h
  AtMost-fill (e ∷ es) acc m h =
      AtMost-fill es (insert e.coordinator_node_id e.logical_timestamp acc) (merge_entry m e)
        (AtMost-merge_entry acc m e h)

  -- Merging only raises a timestamp.
  merge_entry-grows :
      (m : GoMap Int64) (e : VectorClockEntry) → AtMost (lookup k m) (lookup k (merge_entry m e))
  unfolding merge_entry
  merge_entry-grows m e = ground (
    arith,
    lookup-insert e.coordinator_node_id k e.logical_timestamp m,
    eq_iff e.coordinator_node_id k,
  )

  merge_entries-grows :
      (es : List VectorClockEntry) (m : GoMap Int64)
      → AtMost (lookup k m) (lookup k (merge_entries m es))
  unfolding merge_entries
  merge_entries-grows [] m = AtMost-refl (lookup k m)
  merge_entries-grows (e ∷ es) m =
      AtMost-trans (lookup k m) (lookup k (merge_entry m e))
        (lookup k (merge_entries (merge_entry m e) es)) (merge_entry-grows m e)
        (merge_entries-grows es (merge_entry m e))

  merge_clocks-grows :
      (clocks : List VectorClock) (m : GoMap Int64)
      → AtMost (lookup k m) (lookup k (merge_clocks m clocks))
  unfolding merge_clocks
  merge_clocks-grows [] m = AtMost-refl (lookup k m)
  merge_clocks-grows (vc ∷ clocks) m =
      let next = merge_entries m vc.entries in
      AtMost-trans (lookup k m) (lookup k next) (lookup k (merge_clocks next clocks))
        (merge_entries-grows vc.entries m) (merge_clocks-grows clocks next)

  -- Every clock that is merged lies below the result.
  pub merge_clocks-covers :
      (clocks : List VectorClock) (m : GoMap Int64)
      → All (λ vc. AtMost (lookup k (to_map vc)) (lookup k (merge_clocks m clocks))) clocks
  unfolding merge_clocks to_map
  merge_clocks-covers [] m = tt
  merge_clocks-covers (vc ∷ clocks) m =
      let next = merge_entries m vc.entries in
      (
        AtMost-trans (lookup k (to_map vc)) (lookup k next) (lookup k (merge_clocks next clocks))
            (AtMost-fill vc.entries [] m (unfold lookup in tt)) (merge_clocks-grows clocks next),
        merge_clocks-covers clocks next,
      )

  module _ (P : Int64 → Type 0) where
    -- What is merged has a property that every entry of the node has.
    abbrev pub Within : Option Int64 → Type 0
    Within none = Unit
    Within (some t) = P t

    abbrev pub EntryWithin : VectorClockEntry → Type 0
    EntryWithin e = e.coordinator_node_id ≡ k → P e.logical_timestamp

    merge_entry-Within :
        (m : GoMap Int64) (e : VectorClockEntry)
        → EntryWithin e
        → Within (lookup k m)
        → Within (lookup k (merge_entry m e))
    unfolding merge_entry
    merge_entry-Within m e w h =
        elim (Bool-cases (exceeds e.logical_timestamp (lookup e.coordinator_node_id m))) [
          | inr kept ↦ rw kept h
          | inl raised ↦
              rw (raised, lookup-insert) (written (Bool-cases (str_eq e.coordinator_node_id k)))
        ]
      where
        written :
            (str_eq e.coordinator_node_id k ≡ true) ⊎ (str_eq e.coordinator_node_id k ≡ false)
            → Within
                (if str_eq e.coordinator_node_id k then some e.logical_timestamp else lookup k m)
        written (inl same) = rw same (w ((eq_iff e.coordinator_node_id k).0 same))
        written (inr other) = rw other h

    merge_entries-Within :
        (es : List VectorClockEntry) (m : GoMap Int64)
        → All EntryWithin es
        → Within (lookup k m)
        → Within (lookup k (merge_entries m es))
    unfolding merge_entries
    merge_entries-Within [] m w h = h
    merge_entries-Within (e ∷ es) m w h =
        merge_entries-Within es (merge_entry m e) w.1 (merge_entry-Within m e w.0 h)

    pub merge_clocks-Within :
        (clocks : List VectorClock) (m : GoMap Int64)
        → All (λ vc. All EntryWithin vc.entries) clocks
        → Within (lookup k m)
        → Within (lookup k (merge_clocks m clocks))
    unfolding merge_clocks
    merge_clocks-Within [] m w h = h
    merge_clocks-Within (vc ∷ clocks) m w h =
        merge_clocks-Within clocks (merge_entries m vc.entries) w.1
          (merge_entries-Within vc.entries m w.0 h)
