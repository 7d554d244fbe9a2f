-- ===== src/Streaming/Gathered.antt =====
-- Whether the ranges that MergeRanges makes stream the same keys, as keyInRanges decides it.
use pair_db.Prelude.{
  ℕ, ◌≤◌, Bool, true, false, leb, ltb, ◌&&◌, List, [], ◌∷◌, length, ◌≡◌, refl, arith, ◌↔◌, All, Any,
  Bool-cases, inl, inr,
}
use pair_db.KeyRanges.{KeyRange, sort_ranges, extend, merge_loop, merge_sorted, merge_ranges}
use pair_db.KeyRanges.Merged.{Holds, IsSeparated, sort-All, merge_ranges-Holds}
use pair_db.Streaming.{key_in_ranges}

-- The range does not wrap around.
abbrev pub IsStraight : KeyRange → Type 0
IsStraight r = r.start_hash ≤ r.end_hash

straight_iff :
    (h : ℕ) (ranges : List KeyRange)
    → All IsStraight ranges
    → (key_in_ranges h ranges ≡ true) ↔ Any (Holds h) ranges
unfolding key_in_ranges
straight_iff h [] all = (λ e. absurd (ground arith), λ a. absurd a)
straight_iff h (r ∷ ranges) (straight, all) =
    let (there, back) = straight_iff h ranges all in
    elim (Bool-cases (leb r.start_hash h && ltb h r.end_hash)) [
      | inl e ↦ (λ _. inl (ground (arith, e)), λ _. ground (arith, e))
      | inr e ↦ (
        λ k. inr (there (ground (arith, e, straight, k))),
        elim [
          | inl a ↦ absurd (ground (arith, e, a))
          | inr a ↦ ground (arith, e, straight, back a)
        ],
      )
    ]

extend-IsStraight : (last current : KeyRange) → IsStraight last → IsStraight (extend last current)
extend-IsStraight last current s = ground (arith, s)

merge-IsStraight :
    (last : KeyRange) (rest : List KeyRange)
    → IsStraight last
    → All IsStraight rest
    → All IsStraight (merge_loop last rest)
unfolding merge_loop
merge-IsStraight last [] s all = (s, tt)
merge-IsStraight last (current ∷ rest) s (c, all) =
    elim (Bool-cases (leb current.start_hash last.end_hash)) [
      | inr apart ↦ rw apart (s, merge-IsStraight current rest c all)
      | inl adjacent ↦
          rw adjacent
            (merge-IsStraight (extend last current) rest (extend-IsStraight last current s) all)
    ]

merged-IsStraight :
    (ranges : List KeyRange) → All IsStraight ranges → All IsStraight (merge_sorted ranges)
unfolding merge_sorted
merged-IsStraight [] all = tt
merged-IsStraight (r ∷ ranges) all = merge-IsStraight r ranges all.0 all.1

same_test : (a b : Bool) → (a ≡ true) ↔ (b ≡ true) → a ≡ b
same_test false false h = refl
same_test true true h = refl
same_test false true h = h.1 refl
same_test true false h = absurd (ground (arith, h.0 refl))

-- For ranges of which none wraps around, the merged ranges hold exactly the key hashes that the given ones
-- hold, as keyInRanges decides it, and each of them ends before the later ones start.
pub merge_ranges-keeps :
    (ranges : List KeyRange) (h : ℕ)
    → All IsStraight ranges
    → (key_in_ranges h (merge_ranges ranges) ≡ key_in_ranges h ranges)
      × IsSeparated (merge_ranges ranges)
unfolding merge_ranges
merge_ranges-keeps ranges h straight =
    let merged =
      merged-IsStraight (sort_ranges (length ranges) ranges)
        (sort-All IsStraight (length ranges) ranges straight) in
    let (there, back) = straight_iff h (merge_ranges ranges) merged in
    let (there', back') = straight_iff h ranges straight in
    let ((f, g), apart) = merge_ranges-Holds ranges h in
    (
      same_test (key_in_ranges h (merge_ranges ranges)) (key_in_ranges h ranges)
          (λ e. back' (f (there e)), λ e. back (g (there' e))),
      apart,
    )
