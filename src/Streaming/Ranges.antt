-- ===== src/Streaming/Ranges.antt =====
-- Which hashes the ranges of the key range service cover on the ring.
use pair_db.Prelude.{ℕ, ◌≤◌, ◌<◌, List, true, ◌≡◌, ◌⊎◌, All}
use pair_db.Ring.{get_previous_hash, contains}
use pair_db.KeyRanges.{KeyRange}

-- The range that a virtual node at the hash `h` moves.
abbrev pub range_before : List ℕ → ℕ → KeyRange
range_before ring h = record { start_hash = get_previous_hash ring h; end_hash = h }

-- What stands before a hash on a sorted ring: the greatest hash below it, or the greatest of all if it is
-- the least.
abbrev Before : List ℕ → ℕ → ℕ → Type 0
Before ring h previous =
    (contains ring previous ≡ true)
    × (((previous < h) × All (λ g. (g ≤ previous) ⊎ (h ≤ g)) ring)
        ⊎ (All (λ g. h ≤ g) ring × All (λ g. g ≤ previous) ring))

-- The hash lies in [previous, h), which may wrap around.
abbrev Inside : ℕ → ℕ → ℕ → Type 0
Inside previous h k = ((previous ≤ k) × (k < h)) ⊎ ((h < previous) × ((previous ≤ k) ⊎ (k < h)))
