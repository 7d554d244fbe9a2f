-- ===== src/Checksum.antt =====
-- Checksums of storage-node/internal/util/checksum.go. CRC32 is a parameter `crc`; a `uint32` is a
-- number below 2 ^ 32, and the `|` of shifted bytes, which do not overlap, is their sum.
pub mod Framing
use pair_db.Prelude.{
  ℕ, ◌+◌, ◌-◌, ◌*◌, ◌/◌, ◌%◌, ◌^◌, List, [], ◌∷◌, ◌++◌, Bool, true, false, ltb, ◌==◌, if◌then◌else◌,
  length, take, get_or,
}
use pair_db.Bytes.{Bytes}

module _ (crc : Bytes → ℕ) where
  pub validate_checksum : Bytes → ℕ → Bool
  validate_checksum body expected = crc body == expected

  unfoldable pub append_checksum : Bytes → Bytes
  append_checksum body =
      let checksum = crc body in
      body
      ++ (checksum % 256)
        ∷ (checksum / 256 % 256)
        ∷ (checksum / 65536 % 256)
        ∷ (checksum / 16777216 % 256)
        ∷ []

  unfoldable pub validate_and_strip_checksum : Bytes → Bytes × Bool
  unfolding validate_checksum
  validate_and_strip_checksum data_with_checksum =
      let data_len = length data_with_checksum - 4 in
      let body = take data_len data_with_checksum in
      let byte = λ (i : ℕ). get_or data_with_checksum (data_len + i) 0 in
      let expected_checksum = byte 0 + byte 1 * 256 + byte 2 * 65536 + byte 3 * 16777216 in
      if ltb (length data_with_checksum) 4
      then ([], false)
      else (body, validate_checksum body expected_checksum)
