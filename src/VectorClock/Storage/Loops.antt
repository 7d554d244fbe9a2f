-- ===== src/VectorClock/Storage/Loops.antt =====
-- What the loops of the storage node's comparisons establish, entry by entry.
use pair_db.Prelude.{
  ◌≤◌, String, [], ◌∷◌, none, some, Option, false, ◌≡◌, ◌↔◌, sym, ◌∙◌, refl, arith, Option-cases,
}
use pair_db.GoMap.{GoMap, Iteration, lookup}
use pair_db.GoMap.Entries.{OnEntries, OnEntries-at, OnEntries-all}
use pair_db.Int64.{Int64, zero64}
use pair_db.VectorClock.{VectorClock, to_map, at_node}
use pair_db.VectorClock.WellFormed.{to_map-IsDistinct}
use pair_db.VectorClock.Storage.{
  Greater, weigh, weigh_default, weigh_only, scan_all, scan_default, scan_only,
}

-- What an entry with timestamp `t` must meet in the other map to leave a flag alone.
abbrev pub NotAhead : Option Int64 → Int64 → Type 0
NotAhead none t = ⊥
NotAhead (some bt) t = t ≤ bt

abbrev pub NotBehind : Option Int64 → Int64 → Type 0
NotBehind none t = Unit
NotBehind (some bt) t = bt ≤ t

abbrev pub NotExtra : Option Int64 → Int64 → Type 0
NotExtra none t = t ≤ zero64
NotExtra (some at) t = Unit

module _ (map : GoMap Int64) where
  pub scan_all-ahead :
      (m : GoMap Int64) (g : Greater)
      → ((scan_all map g m).a_greater ≡ false)
        ↔ ((g.a_greater ≡ false) × OnEntries (λ k. NotAhead (lookup k map)) m)
  unfolding scan_all weigh
  scan_all-ahead [] g = ground arith
  scan_all-ahead ((k, t) ∷ m) g =
      ground (arith, Option-cases (lookup k map), scan_all-ahead m (weigh g t (lookup k map)))

  pub scan_all-behind :
      (m : GoMap Int64) (g : Greater)
      → ((scan_all map g m).b_greater ≡ false)
        ↔ ((g.b_greater ≡ false) × OnEntries (λ k. NotBehind (lookup k map)) m)
  unfolding scan_all weigh
  scan_all-behind [] g = ground arith
  scan_all-behind ((k, t) ∷ m) g =
      ground (arith, Option-cases (lookup k map), scan_all-behind m (weigh g t (lookup k map)))

  pub scan_default-ahead :
      (m : GoMap Int64) (g : Greater)
      → ((scan_default map g m).a_greater ≡ false)
        ↔ ((g.a_greater ≡ false) × OnEntries (λ k t. t ≤ at_node map k) m)
  unfolding scan_default weigh_default
  scan_default-ahead [] g = ground arith
  scan_default-ahead ((k, t) ∷ m) g =
      ground (arith, scan_default-ahead m (weigh_default g t (at_node map k)))

  pub scan_default-behind :
      (m : GoMap Int64) (g : Greater)
      → ((scan_default map g m).b_greater ≡ false)
        ↔ ((g.b_greater ≡ false) × OnEntries (λ k t. at_node map k ≤ t) m)
  unfolding scan_default weigh_default
  scan_default-behind [] g = ground arith
  scan_default-behind ((k, t) ∷ m) g =
      ground (arith, scan_default-behind m (weigh_default g t (at_node map k)))

  pub scan_only-a : (m : GoMap Int64) (g : Greater) → (scan_only map g m).a_greater ≡ g.a_greater
  unfolding scan_only weigh_only
  scan_only-a [] g = refl
  scan_only-a ((k, t) ∷ m) g =
      ground (arith, Option-cases (lookup k map), scan_only-a m (weigh_only g t (lookup k map)))

  pub scan_only-b :
      (m : GoMap Int64) (g : Greater)
      → ((scan_only map g m).b_greater ≡ false)
        ↔ ((g.b_greater ≡ false) × OnEntries (λ k. NotExtra (lookup k map)) m)
  unfolding scan_only weigh_only
  scan_only-b [] g = ground arith
  scan_only-b ((k, t) ∷ m) g =
      ground (arith, Option-cases (lookup k map), scan_only-b m (weigh_only g t (lookup k map)))

-- A condition on the entries that `range` visits is one on what a lookup finds.
pub OnEntries-range :
    (range : Iteration) (vc : VectorClock) (P : String → Int64 → Type 0)
    → OnEntries P (range.order Int64 (to_map vc))
      ↔ ((k : String) (t : Int64) → lookup k (to_map vc) ≡ some t → P k t)
OnEntries-range range vc P =
    let m = range.order Int64 (to_map vc) in
    (
      λ h k t e. OnEntries-at P m k t h (range.lookup-order Int64 k (to_map vc) ∙ e),
      λ h.
          OnEntries-all P m (range.order-IsDistinct Int64 (to_map vc) (to_map-IsDistinct vc))
            (λ k t e. h k t (sym (range.lookup-order Int64 k (to_map vc)) ∙ e)),
    )
