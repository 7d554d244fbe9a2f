-- ===== src/BloomFilter.antt =====
-- `BloomFilter` of storage-node/internal/storage/sstable/bloom_filter.go. FNV is a parameter `fnv`; the
-- size and the number of hashes, which the source computes in floating point, are parameters too.
pub mod Members
use pair_db.Prelude.{
  ℕ, suc, zero, ◌+◌, ◌*◌, ◌%◌, ◌^◌, List, [], ◌∷◌, ◌++◌, Bool, true, false, not, if◌then◌else◌,
  get_or, set, replicate,
}
use pair_db.Bytes.{Bytes}

pub record BloomFilter : Type 0 where
  pub bits : List Bool
  pub size : ℕ
  pub hash_count : ℕ

-- make([]bool, size), and at least one hash
pub new_bloom_filter : ℕ → ℕ → BloomFilter
new_bloom_filter size hash_count = record {
  bits = replicate size false;
  size = size;
  hash_count = elim hash_count [ zero ↦ 1 | suc n ↦ suc n ];
}

-- "salt"
abbrev salt : Bytes
salt = 115 ∷ 97 ∷ 108 ∷ 116 ∷ []

-- bf.bits[hash%bf.size] = true
pub set_bits : ℕ → List Bool → List ℕ → List Bool
set_bits size bits [] = bits
set_bits size bits (hash ∷ hashes) = set_bits size (set bits (hash % size) true) hashes

pub all_set : ℕ → List Bool → List ℕ → Bool
all_set size bits [] = true
all_set size bits (hash ∷ hashes) =
    let rest = all_set size bits hashes in
    if not (get_or bits (hash % size) false) then false else rest

module _ (fnv : Bytes → ℕ) where
  -- The loop of `getHashes`, with `todo` rounds to go from round `i` on, in `uint64`.
  hashes_from : Bytes → ℕ → ℕ → List ℕ
  hashes_from key zero i = []
  hashes_from key (suc todo) i =
      ((fnv key + i * fnv (key ++ salt)) % 2 ^ 64) ∷ hashes_from key todo (i + 1)

  pub get_hashes : BloomFilter → Bytes → List ℕ
  unfolding hashes_from
  get_hashes bf key = hashes_from key bf.hash_count 0

  unfoldable pub add : BloomFilter → Bytes → BloomFilter
  unfolding set_bits get_hashes
  add bf key = record bf { bits = set_bits bf.size bf.bits (get_hashes bf key) }

  unfoldable pub may_contain : BloomFilter → Bytes → Bool
  unfolding all_set get_hashes
  may_contain bf key = all_set bf.size bf.bits (get_hashes bf key)
