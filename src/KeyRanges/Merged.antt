-- ===== src/KeyRanges/Merged.antt =====
-- What MergeRanges makes of a list of ranges.
use pair_db.Prelude.{
  ℕ, zero, suc, ◌≤◌, ◌<◌, ltb, leb, if◌then◌else◌, List, [], ◌∷◌, length, ◌≡◌, refl, ap, sym, subst,
  arith, ◌⊎◌, ◌↔◌, inl, inr, All, Any, Bool-cases,
}
use pair_db.KeyRanges.{KeyRange, sweep, sort_ranges, extend, merge_loop, merge_sorted, merge_ranges}

-- The range [start, end), which does not wrap around, holds the hash.
abbrev pub Holds : ℕ → KeyRange → Type 0
Holds h r = (r.start_hash ≤ h) × (h < r.end_hash)

abbrev IsSorted : List KeyRange → Type 0
IsSorted [] = Unit
IsSorted (r ∷ rs) = All (λ s. r.start_hash ≤ s.start_hash) rs × IsSorted rs

-- Each range ends before the later ones start.
abbrev pub IsSeparated : List KeyRange → Type 0
IsSeparated [] = Unit
IsSeparated (r ∷ rs) = All (λ s. r.end_hash < s.start_hash) rs × IsSeparated rs

sweep-length : (x : KeyRange) (ys : List KeyRange) → length (sweep x ys).1 ≡ length ys
unfolding sweep
sweep-length x [] = refl
sweep-length x (y ∷ ys) = ap suc (sweep-length (if ltb y.start_hash x.start_hash then y else x) ys)

sweep-All :
    (P : KeyRange → Type 0) (x : KeyRange) (ys : List KeyRange)
    → P x
    → All P ys
    → P (sweep x ys).0 × All P (sweep x ys).1
unfolding sweep
sweep-All P x [] p all = (p, tt)
sweep-All P x (y ∷ ys) p all = elim (Bool-cases (ltb y.start_hash x.start_hash)) [
  | inl e ↦ let (q, rest) = sweep-All P y ys all.0 all.1 in rw e (q, (p, rest))
  | inr e ↦ let (q, rest) = sweep-All P x ys p all.1 in rw e (q, (all.0, rest))
]

sweep-least :
    (x : KeyRange) (ys : List KeyRange)
    → let (least, rest) = sweep x ys in
      (least.start_hash ≤ x.start_hash) × All (λ s. least.start_hash ≤ s.start_hash) rest
unfolding sweep
sweep-least x [] = (omega arith, tt)
sweep-least x (y ∷ ys) =
    let Least = λ (p : KeyRange × List KeyRange).
      (p.0.start_hash ≤ x.start_hash) × All (λ s. p.0.start_hash ≤ s.start_hash) p.1 in
    elim (Bool-cases (ltb y.start_hash x.start_hash)) [
      | inl e ↦
          let (below, rest) = sweep-least y ys in
          let step : sweep x (y ∷ ys) ≡ ((sweep y ys).0, x ∷ (sweep y ys).1) = rw e refl in
          let first : (sweep y ys).0.start_hash ≤ x.start_hash = ground (arith, e, below) in
          subst Least (sym step) (first, (first, rest))
      | inr e ↦
          let (below, rest) = sweep-least x ys in
          let step : sweep x (y ∷ ys) ≡ ((sweep x ys).0, y ∷ (sweep x ys).1) = rw e refl in
          subst Least (sym step) (below, (ground (arith, e, below), rest))
    ]

second : {A B C : Type 0} → (B → C) → A ⊎ B → A ⊎ C
second f (inl a) = inl a
second f (inr b) = inr (f b)

split_left : {A B C D : Type 0} → (A → B ⊎ C) → A ⊎ D → B ⊎ (C ⊎ D)
split_left f (inr d) = inr (inr d)
split_left f (inl a) = elim (f a) [ inl b ↦ inl b | inr c ↦ inr (inl c) ]

join_left : {A B C D : Type 0} → (B ⊎ C → A) → B ⊎ (C ⊎ D) → A ⊎ D
join_left f (inl b) = inl (f (inl b))
join_left f (inr (inl c)) = inl (f (inr c))
join_left f (inr (inr d)) = inr d

-- one of three, in another order
rotate : {A B C D E : Type 0} → (A ⊎ B) ↔ (C ⊎ D) → (A ⊎ (E ⊎ B)) ↔ (E ⊎ (C ⊎ D))
rotate {A} {B} {C} {D} {E} (f, g) = (there, back)
  where
    there : A ⊎ (E ⊎ B) → E ⊎ (C ⊎ D)
    there (inl a) = inr (f (inl a))
    there (inr (inl e)) = inl e
    there (inr (inr b)) = inr (f (inr b))

    under : A ⊎ B → A ⊎ (E ⊎ B)
    under (inl a) = inl a
    under (inr b) = inr (inr b)

    back : E ⊎ (C ⊎ D) → A ⊎ (E ⊎ B)
    back (inl e) = inr (inl e)
    back (inr x) = under (g x)

swap : {C D E : Type 0} → E ⊎ (C ⊎ D) → C ⊎ (E ⊎ D)
swap (inl e) = inr (inl e)
swap (inr (inl c)) = inl c
swap (inr (inr d)) = inr (inr d)

-- The sweep only moves the ranges.
sweep-Any :
    (P : KeyRange → Type 0) (x : KeyRange) (ys : List KeyRange)
    → (P (sweep x ys).0 ⊎ Any P (sweep x ys).1) ↔ (P x ⊎ Any P ys)
unfolding sweep
sweep-Any P x [] = (λ h. h, λ h. h)
sweep-Any P x (y ∷ ys) = elim (Bool-cases (ltb y.start_hash x.start_hash)) [
  | inl e ↦ rw e (rotate (sweep-Any P y ys))
  | inr e ↦
      let (there, back) = rotate {E = P y} (sweep-Any P x ys) in
      rw e (λ h. swap (there h), λ h. back (swap h))
]

pub sort-All :
    (P : KeyRange → Type 0) (n : ℕ) (xs : List KeyRange) → All P xs → All P (sort_ranges n xs)
unfolding sort_ranges
sort-All P zero xs all = all
sort-All P (suc n) [] all = tt
sort-All P (suc n) (x ∷ xs) all =
    let (p, rest) = sweep-All P x xs all.0 all.1 in (p, sort-All P n (sweep x xs).1 rest)

sort-Any :
    (P : KeyRange → Type 0) (n : ℕ) (xs : List KeyRange) → Any P (sort_ranges n xs) ↔ Any P xs
unfolding sort_ranges
sort-Any P zero xs = (λ h. h, λ h. h)
sort-Any P (suc n) [] = (λ h. h, λ h. h)
sort-Any P (suc n) (x ∷ xs) =
    let (f, g) = sort-Any P n (sweep x xs).1 in
    let (there, back) = sweep-Any P x xs in (λ h. there (second f h), λ h. second g (back h))

sort-IsSorted : (n : ℕ) (xs : List KeyRange) → length xs ≤ n → IsSorted (sort_ranges n xs)
unfolding sort_ranges
sort-IsSorted zero [] enough = tt
sort-IsSorted zero (x ∷ xs) enough = absurd (omega (arith, enough))
sort-IsSorted (suc n) [] enough = tt
sort-IsSorted (suc n) (x ∷ xs) enough =
    let (least, rest) = sweep x xs in
    (
      sort-All (λ s. least.start_hash ≤ s.start_hash) n rest (sweep-least x xs).1,
      sort-IsSorted n rest (omega (arith, enough, sweep-length x xs)),
    )

extend-Holds :
    (h : ℕ) (last current : KeyRange)
    → last.start_hash ≤ current.start_hash
    → current.start_hash ≤ last.end_hash
    → Holds h (extend last current) ↔ (Holds h last ⊎ Holds h current)
extend-Holds h last current sorted adjacent =
    elim (Bool-cases (ltb last.end_hash current.end_hash)) [
      | inl e ↦ rw e (λ x. ground (arith, x), λ x. ground (arith, x, e))
      | inr e ↦ rw e (λ x. ground (arith, x), λ x. ground (arith, x, e))
    ]

extend_start : (last current : KeyRange) → (extend last current).start_hash ≡ last.start_hash
extend_start last current = ground arith

extend-IsSorted :
    (last current : KeyRange) (rest : List KeyRange)
    → IsSorted (last ∷ current ∷ rest)
    → IsSorted (extend last current ∷ rest)
extend-IsSorted last current rest ((le, les), (later, sorted)) =
    (subst (λ k. All (λ s. k ≤ s.start_hash) rest) (sym (extend_start last current)) les, sorted)

-- From the last merged range on, the merged ranges hold what the sorted ranges hold.
merge-Any :
    (h : ℕ) (last : KeyRange) (rest : List KeyRange)
    → IsSorted (last ∷ rest)
    → Any (Holds h) (merge_loop last rest) ↔ (Holds h last ⊎ Any (Holds h) rest)
unfolding merge_loop
merge-Any h last [] sorted = (λ x. x, λ x. x)
merge-Any h last (current ∷ rest) ((le, les), (later, sorted)) =
    elim (Bool-cases (leb current.start_hash last.end_hash)) [
      | inr apart ↦
          let (f, g) = merge-Any h current rest (later, sorted) in rw apart (second f, second g)
      | inl adjacent ↦
          let reach : current.start_hash ≤ last.end_hash = ground arith in
          let starts = extend-IsSorted last current rest ((le, les), (later, sorted)) in
          let (f, g) = merge-Any h (extend last current) rest starts in
          let (split, join) = extend-Holds h last current le reach in
          rw adjacent (λ x. split_left split (f x), λ x. g (join_left join x))
    ]

-- They start where the last range starts, or later.
merge-All :
    (k : ℕ) (last : KeyRange) (rest : List KeyRange)
    → k < last.start_hash
    → IsSorted (last ∷ rest)
    → All (λ s. k < s.start_hash) (merge_loop last rest)
unfolding merge_loop
merge-All k last [] lt sorted = (lt, tt)
merge-All k last (current ∷ rest) lt ((le, les), (later, sorted)) =
    elim (Bool-cases (leb current.start_hash last.end_hash)) [
      | inr apart ↦ rw apart (lt, merge-All k current rest (omega (arith, lt, le)) (later, sorted))
      | inl adjacent ↦ rw adjacent (
          merge-All k (extend last current) rest (omega (arith, lt, extend_start last current))
            (extend-IsSorted last current rest ((le, les), (later, sorted))))
    ]

merge-IsSeparated :
    (last : KeyRange) (rest : List KeyRange)
    → IsSorted (last ∷ rest)
    → IsSeparated (merge_loop last rest)
unfolding merge_loop
merge-IsSeparated last [] sorted = (tt, tt)
merge-IsSeparated last (current ∷ rest) ((le, les), (later, sorted)) =
    elim (Bool-cases (leb current.start_hash last.end_hash)) [
      | inr apart ↦ rw apart (
        merge-All last.end_hash current rest (ground arith) (later, sorted),
        merge-IsSeparated current rest (later, sorted),
      )
      | inl adjacent ↦ rw adjacent (
          merge-IsSeparated (extend last current) rest
            (extend-IsSorted last current rest ((le, les), (later, sorted))))
    ]

merged-Any :
    (h : ℕ) (ranges : List KeyRange)
    → IsSorted ranges
    → (Any (Holds h) (merge_sorted ranges) ↔ Any (Holds h) ranges)
      × IsSeparated (merge_sorted ranges)
unfolding merge_sorted
merged-Any h [] sorted = ((λ x. x, λ x. x), tt)
merged-Any h (r ∷ rs) sorted = (merge-Any h r rs sorted, merge-IsSeparated r rs sorted)

-- The merged ranges hold the same hashes as the ranges given, where a range holds the hashes from its
-- start up to, but without, its end; and each of them ends before the later ones start.
pub merge_ranges-Holds :
    (ranges : List KeyRange) (h : ℕ)
    → (Any (Holds h) (merge_ranges ranges) ↔ Any (Holds h) ranges)
      × IsSeparated (merge_ranges ranges)
unfolding merge_ranges
merge_ranges-Holds ranges h =
    let sorted = sort_ranges (length ranges) ranges in
    let (same, apart) = merged-Any h sorted (sort-IsSorted (length ranges) ranges (omega arith)) in
    let moved = sort-Any (Holds h) (length ranges) ranges in
    ((λ x. moved.0 (same.0 x), λ x. same.1 (moved.1 x)), apart)
