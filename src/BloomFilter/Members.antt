-- ===== src/BloomFilter/Members.antt =====
-- A key that was added is found.
use native.Mathlib.Nat.{mod-lt}
use pair_db.Prelude.{
  ℕ, suc, zero, ◌%◌, ◌<◌, List, [], ◌∷◌, Bool, true, false, get_or, set, length, length-set, ◌≡◌,
  refl, ◌∙◌, arith, All,
}
use pair_db.Bytes.{Bytes}
use pair_db.BloomFilter.{BloomFilter, get_hashes, set_bits, add, all_set, may_contain}

pub record IsValid (bf : BloomFilter) : Type 0 where
  pub bits_fit : length bf.bits ≡ bf.size
  pub positive : 0 < bf.size

abbrev bit : List Bool → ℕ → Bool
bit bits i = get_or bits i false

bit-set : (bits : List Bool) (i : ℕ) → i < length bits → bit (set bits i true) i ≡ true
bit-set [] i lt = absurd (omega (arith, lt))
bit-set (b ∷ bits) zero lt = refl
bit-set (b ∷ bits) (suc i) lt = bit-set bits i (omega (arith, lt))

bit-set_other : (bits : List Bool) (i j : ℕ) → bit bits i ≡ true → bit (set bits j true) i ≡ true
bit-set_other [] i j h = h
bit-set_other (b ∷ bits) zero zero h = refl
bit-set_other (b ∷ bits) zero (suc j) h = h
bit-set_other (b ∷ bits) (suc i) zero h = h
bit-set_other (b ∷ bits) (suc i) (suc j) h = bit-set_other bits i j h

module _ (size : ℕ) where
  length-set_bits :
      (bits : List Bool) (hashes : List ℕ) → length (set_bits size bits hashes) ≡ length bits
  unfolding set_bits
  length-set_bits bits [] = refl
  length-set_bits bits (h ∷ hashes) =
      length-set_bits (set bits (h % size) true) hashes ∙ length-set bits (h % size) true

  bit-set_bits :
      (bits : List Bool) (hashes : List ℕ) (i : ℕ)
      → bit bits i ≡ true
      → bit (set_bits size bits hashes) i ≡ true
  unfolding set_bits
  bit-set_bits bits [] i h = h
  bit-set_bits bits (g ∷ hashes) i h =
      bit-set_bits (set bits (g % size) true) hashes i (bit-set_other bits i (g % size) h)

  all_set-more :
      (bits : List Bool) (added hashes : List ℕ)
      → all_set size bits hashes ≡ true
      → all_set size (set_bits size bits added) hashes ≡ true
  unfolding all_set
  all_set-more bits added [] h = refl
  all_set-more bits added (g ∷ hashes) h =
      ground (arith, bit-set_bits bits added (g % size), all_set-more bits added hashes)

  all_set-set_bits :
      (bits : List Bool) (hashes : List ℕ)
      → length bits ≡ size
      → 0 < size
      → all_set size (set_bits size bits hashes) hashes ≡ true
  unfolding all_set set_bits
  all_set-set_bits bits [] e pos = refl
  all_set-set_bits bits (g ∷ hashes) e pos =
      let bits' = set bits (g % size) true in
      let at_g = bit-set bits (g % size) (omega (arith, mod-lt g pos, e)) in
      let kept = bit-set_bits bits' hashes (g % size) at_g in
      let rest = all_set-set_bits bits' hashes (length-set bits (g % size) true ∙ e) pos in
      rw (kept, rest) refl

module _ (fnv : Bytes → ℕ) where
  -- Every key in turn.
  abbrev pub add_all : BloomFilter → List Bytes → BloomFilter
  add_all bf [] = bf
  add_all bf (key ∷ keys) = add_all (add fnv bf key) keys

  add-IsValid : (bf : BloomFilter) (key : Bytes) → IsValid bf → IsValid (add fnv bf key)
  unfolding add
  add-IsValid bf key v = record {
    bits_fit = length-set_bits bf.size bf.bits (get_hashes fnv bf key) ∙ v.bits_fit;
    positive = v.positive;
  }

  added :
      (bf : BloomFilter) (key : Bytes) → IsValid bf → may_contain fnv (add fnv bf key) key ≡ true
  unfolding add may_contain get_hashes
  added bf key v = all_set-set_bits bf.size bf.bits (get_hashes fnv bf key) v.bits_fit v.positive

  kept :
      (bf : BloomFilter) (key other : Bytes)
      → may_contain fnv bf key ≡ true
      → may_contain fnv (add fnv bf other) key ≡ true
  unfolding add may_contain get_hashes
  kept bf key other h =
      all_set-more bf.size bf.bits (get_hashes fnv bf other) (get_hashes fnv bf key) h

  kept_all :
      (bf : BloomFilter) (key : Bytes) (keys : List Bytes)
      → may_contain fnv bf key ≡ true
      → may_contain fnv (add_all bf keys) key ≡ true
  kept_all bf key [] h = h
  kept_all bf key (other ∷ keys) h = kept_all (add fnv bf other) key keys (kept bf key other h)

  -- No false negatives: after keys are added to a valid filter, `MayContain` is true of each of them.
  pub may_contain-add_all :
      (bf : BloomFilter) (keys : List Bytes)
      → IsValid bf
      → All (λ key. may_contain fnv (add_all bf keys) key ≡ true) keys
  may_contain-add_all bf [] v = tt
  may_contain-add_all bf (key ∷ keys) v = (
    kept_all (add fnv bf key) key keys (added bf key v),
    may_contain-add_all (add fnv bf key) keys (add-IsValid bf key v),
  )
