-- ===== src/Tests/Files.antt =====
-- Checksums and Bloom filters.
use pair_db.Prelude.{ℕ, ◌%◌, List, [], ◌∷◌, true, false, ◌≡◌, ◌↔◌, refl, All, arith}
use pair_db.Bytes.{Bytes}
use pair_db.Checksum.{append_checksum, validate_and_strip_checksum}
use pair_db.Checksum.Framing.{strip-append_iff}
use pair_db.BloomFilter.{BloomFilter, add, may_contain}
use pair_db.BloomFilter.Members.{add_all, may_contain-add_all}

program : Unit {0}
unfolding append_checksum validate_and_strip_checksum add may_contain
program = tt

-- a checksum of four bytes that depends on the first byte
abbrev first_byte : Bytes → ℕ
first_byte [] = 0
first_byte (b ∷ bs) = b % 256

abbrev framed : Bytes
framed = 7 ∷ 9 ∷ 7 ∷ 0 ∷ 0 ∷ 0 ∷ []

frame_run :
    (append_checksum first_byte (7 ∷ 9 ∷ []) ≡ framed)
    × (validate_and_strip_checksum first_byte framed ≡ (7 ∷ 9 ∷ [], true))
    × (validate_and_strip_checksum first_byte (8 ∷ 9 ∷ 7 ∷ 0 ∷ 0 ∷ 0 ∷ []) ≡ (8 ∷ 9 ∷ [], false))
unfolding program
frame_run = (refl, refl, refl)

strip-append_iff_example :
    (validate_and_strip_checksum first_byte framed ≡ (7 ∷ 9 ∷ [], true))
    ↔ (framed ≡ append_checksum first_byte (7 ∷ 9 ∷ []))
strip-append_iff_example =
    strip-append_iff first_byte framed (7 ∷ 9 ∷ [])
      (omega arith, (omega arith, (omega arith, (omega arith, (omega arith, (omega arith, tt))))))
      (omega arith)

abbrev filter : BloomFilter
filter = record { bits = false ∷ false ∷ false ∷ false ∷ []; size = 4; hash_count = 2 }

abbrev keys : List Bytes
keys = (1 ∷ []) ∷ (2 ∷ []) ∷ []

may_contain-add_all_example :
    All (λ key. may_contain first_byte (add_all first_byte filter keys) key ≡ true) keys
may_contain-add_all_example =
    may_contain-add_all first_byte filter keys (record { bits_fit = refl; positive = omega arith })

-- a key that was not added may be found to be absent
absent_run : may_contain first_byte (add first_byte filter (2 ∷ [])) (1 ∷ []) ≡ false
unfolding program
absent_run = refl
