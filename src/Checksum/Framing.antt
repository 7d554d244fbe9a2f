-- ===== src/Checksum/Framing.antt =====
-- What `AppendChecksum` adds, `ValidateAndStripChecksum` takes off and checks.
use pair_db.Prelude.{
  ℕ, suc, zero, ◌+◌, ◌-◌, ◌*◌, ◌/◌, ◌%◌, ◌^◌, ◌≤◌, ◌<◌, [], ◌∷◌, ◌++◌, Bool, true, false, ltb, ◌==◌,
  ◌≡◌, ◌↔◌, Bool-cases, inl, inr, subst, refl, ap, sym, ◌∙◌, arith, length, length-append,
  take-append_length, get_or, All,
}
use pair_db.Bytes.{Bytes}
use pair_db.Checksum.{append_checksum, validate_and_strip_checksum}

get_or-append :
    (xs ys : Bytes) (i j : ℕ) → i ≡ length xs + j → get_or (xs ++ ys) i 0 ≡ get_or ys j 0
get_or-append [] ys i j e = ground arith
get_or-append (x ∷ xs) ys zero j e = absurd (omega (arith, e))
get_or-append (x ∷ xs) ys (suc i) j e = get_or-append xs ys i j (omega (arith, e))

bytes_sum :
    (c : ℕ)
    → c < 2 ^ 32
    → c % 256 + c / 256 % 256 * 256 + c / 65536 % 256 * 65536 + c / 16777216 % 256 * 16777216 ≡ c
bytes_sum c h = omega (arith, h)

abbrev number : ℕ → ℕ → ℕ → ℕ → ℕ
number a b c e = a + b * 256 + c * 65536 + e * 16777216

number-bytes :
    (a b c e n : ℕ)
    → a < 256
    → b < 256
    → c < 256
    → e < 256
    → n ≡ number a b c e
    → (n % 256 ≡ a) × (n / 256 % 256 ≡ b) × (n / 65536 % 256 ≡ c) × (n / 16777216 % 256 ≡ e)
number-bytes a b c e n la lb lc le h = (
  omega (arith, h, la),
  omega (arith, h, la, lb),
  omega (arith, h, la, lb, lc),
  omega (arith, h, la, lb, lc, le),
)

-- A list that ends in the four bytes.
abbrev EndsIn : Bytes → Bytes → ℕ → ℕ → ℕ → ℕ → Type 0
EndsIn d x a b c e = d ≡ x ++ a ∷ b ∷ c ∷ e ∷ []

split_last :
    (d : Bytes)
    → 4 ≤ length d
    → (x : Bytes) × (a : ℕ) × (b : ℕ) × (c : ℕ) × (e : ℕ) × EndsIn d x a b c e
split_last [] h = absurd (omega (arith, h))
split_last (a ∷ []) h = absurd (omega (arith, h))
split_last (a ∷ b ∷ []) h = absurd (omega (arith, h))
split_last (a ∷ b ∷ c ∷ []) h = absurd (omega (arith, h))
split_last (a ∷ b ∷ c ∷ e ∷ []) h = ([], a, b, c, e, refl)
split_last (y ∷ z ∷ v ∷ w ∷ u ∷ d) h =
    let (x, a, b, c, e, same) = split_last (z ∷ v ∷ w ∷ u ∷ d) (omega arith) in
    (y ∷ x, a, b, c, e, ap (◌∷◌ y) same)

All-append_right : (P : ℕ → Type 0) (xs ys : Bytes) → All P (xs ++ ys) → All P ys
All-append_right P [] ys h = h
All-append_right P (x ∷ xs) ys h = All-append_right P xs ys h.1

module _ (crc : Bytes → ℕ) where
  strip-append_bytes :
      (x : Bytes) (a b c e : ℕ)
      → validate_and_strip_checksum crc (x ++ a ∷ b ∷ c ∷ e ∷ []) ≡ (x, crc x == number a b c e)
  unfolding validate_and_strip_checksum
  strip-append_bytes x a b c e =
      let tail : Bytes = a ∷ b ∷ c ∷ e ∷ [] in
      let total = length-append x tail in
      let len : length (x ++ tail) - 4 ≡ length x = omega (arith, total) in
      let long : ltb (length (x ++ tail)) 4 ≡ false = ground (arith, total) in
      rw
        (
          long,
          len,
          take-append_length x tail,
          get_or-append x tail (length x + 0) 0 refl,
          get_or-append x tail (length x + 1) 1 refl,
          get_or-append x tail (length x + 2) 2 refl,
          get_or-append x tail (length x + 3) 3 refl,
        )
        refl

  strip-append :
      (x : Bytes)
      → crc x < 2 ^ 32
      → validate_and_strip_checksum crc (append_checksum crc x) ≡ (x, true)
  unfolding append_checksum
  strip-append x h =
      let n = crc x in
      let same : (n == number (n % 256) (n / 256 % 256) (n / 65536 % 256) (n / 16777216 % 256))
          ≡ true =
        ground (arith, bytes_sum n h) in
      strip-append_bytes x (n % 256) (n / 256 % 256) (n / 65536 % 256) (n / 16777216 % 256)
      ∙ ap (λ v. (x, v)) same

  too_short :
      (d x : Bytes) → ltb (length d) 4 ≡ true → ¬ (validate_and_strip_checksum crc d ≡ (x, true))
  unfolding validate_and_strip_checksum
  too_short d x short h = cc (ap (λ (r : Bytes × Bool). r.1) (rw short at h))

  -- The four bytes are those of the checksum, if they have its value.
  framed_by :
      (y : Bytes) (a b c e : ℕ)
      → All (λ v. v < 256) (a ∷ b ∷ c ∷ e ∷ [])
      → crc y ≡ number a b c e
      → y ++ a ∷ b ∷ c ∷ e ∷ [] ≡ append_checksum crc y
  unfolding append_checksum
  framed_by y a b c e (la, (lb, (lc, (le, _)))) is =
      let (ea, eb, ec, ee) = number-bytes a b c e (crc y) la lb lc le is in rw (ea, eb, ec, ee) refl

  accepted :
      (d x : Bytes)
      → All (λ b. b < 256) d
      → validate_and_strip_checksum crc d ≡ (x, true)
      → d ≡ append_checksum crc x
  accepted d x bytes h = elim (Bool-cases (ltb (length d) 4)) [
    | inl short ↦ absurd (too_short d x short h)
    | inr long ↦
        let (y, a, b, c, e, same) = split_last d (ground arith) in
        let tail =
          All-append_right (λ v. v < 256) y (a ∷ b ∷ c ∷ e ∷ [])
            (subst (All (λ v. v < 256)) same bytes) in
        let result =
          sym (strip-append_bytes y a b c e)
          ∙ sym (ap (validate_and_strip_checksum crc) same)
          ∙ h in
        let is_x = ap (λ (r : Bytes × Bool). r.0) result in
        let equal = ap (λ (r : Bytes × Bool). r.1) result in
        same ∙ framed_by y a b c e tail (ground (arith, equal)) ∙ ap (append_checksum crc) is_x
  ]

  -- For checksums of 32 bits: exactly the data with its checksum appended passes the check and gives the
  -- data back.
  pub strip-append_iff :
      (framed x : Bytes)
      → All (λ b. b < 256) framed
      → crc x < 2 ^ 32
      → (validate_and_strip_checksum crc framed ≡ (x, true)) ↔ (framed ≡ append_checksum crc x)
  strip-append_iff framed x bytes h =
      (accepted framed x bytes, λ e. ap (validate_and_strip_checksum crc) e ∙ strip-append x h)
