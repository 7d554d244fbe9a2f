-- ===== src/SkipList/Descend.antt =====
-- The walks down the levels.
use pair_db.Prelude.{
  ℕ, zero, suc, ◌<◌, Option, some, leb, if◌then◌else◌, List, ◌∷◌, ◌++◌, length, ◌≡◌, refl, arith,
}
use pair_db.Bytes.{Bytes}
use pair_db.SkipList.{SkipListNode, descend, seek, update}
use pair_db.SkipList.Walk.{
  Linked, Below, AtLeast, OneOf, last_at, advance-from, last_at-wide, last_at-OneOf,
}

module _ {V : Type 0} (h : ℕ → SkipListNode V) (key : Bytes) where
  module _ (fuel a : ℕ) (pre post : List ℕ) (enough : length pre < fuel)
      (linked : (i : ℕ) → Linked h i (a ∷ (pre ++ post))) (below : Below h key pre)
      (at_least : AtLeast h key post) where
    -- Both walks down from level i end at the last node below the key, and `path` notes the last one
    -- of each level.
    pub seek-last :
        (i c : ℕ)
        → i < (h a).width
        → OneOf c a pre
        → i < (h c).width
        → seek fuel h key i c ≡ some (last_at h 0 a pre)
    unfolding seek
    seek-last zero c w one wc =
        advance-from h key fuel 0 c a pre post one enough wc (linked 0) below at_least
    seek-last (suc i) c w one wc =
        let here =
          advance-from h key fuel (suc i) c a pre post one enough wc (linked (suc i)) below
            at_least in
        let wide = last_at-wide h (suc i) a pre w in
        rw here (
          seek-last i (last_at h (suc i) a pre) (omega arith) (last_at-OneOf h (suc i) a pre)
            (omega (arith, wide)))

    pub descend-last :
        (i c : ℕ) (path : ℕ → Option ℕ)
        → i < (h a).width
        → OneOf c a pre
        → i < (h c).width
        → (path' : ℕ → Option ℕ) × (descend fuel h key i c path ≡ some (last_at h 0 a pre, path'))
          × ((j : ℕ) → path' j ≡ (if leb j i then some (last_at h j a pre) else path j))
    unfolding descend
    descend-last zero c path w one wc =
        let here = advance-from h key fuel 0 c a pre post one enough wc (linked 0) below at_least in
        (update path 0 (some (last_at h 0 a pre)), rw here refl, λ j. ground arith)
    descend-last (suc i) c path w one wc =
        let here =
          advance-from h key fuel (suc i) c a pre post one enough wc (linked (suc i)) below
            at_least in
        let wide = last_at-wide h (suc i) a pre w in
        let rest =
          descend-last i (last_at h (suc i) a pre)
            (update path (suc i) (some (last_at h (suc i) a pre))) (omega arith)
            (last_at-OneOf h (suc i) a pre) (omega (arith, wide)) in
        (rest.0, rw here rest.1, λ j. ground (arith, rest.2 j))
