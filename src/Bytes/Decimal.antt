-- ===== src/Bytes/Decimal.antt =====
-- `%d` prints a number that can be read back.
use pair_db.Prelude.{
  ℕ, suc, zero, ◌+◌, ◌*◌, ◌-◌, ◌/◌, ◌%◌, ◌≤◌, ◌<◌, [], ◌∷◌, ◌++◌, ◌≡◌, refl, arith, All,
}
use pair_db.Bytes.{Bytes, decimal, decimal_from}

abbrev pub IsDigit : ℕ → Type 0
IsDigit b = (48 ≤ b) × (b < 58)

All-snoc : (xs : Bytes) (b : ℕ) → All IsDigit xs → IsDigit b → All IsDigit (xs ++ b ∷ [])
All-snoc [] b h d = (d, tt)
All-snoc (x ∷ xs) b h d = (h.0, All-snoc xs b h.1 d)

decimal_from-IsDigit : (fuel n : ℕ) → All IsDigit (decimal_from fuel n)
unfolding decimal_from
decimal_from-IsDigit zero n = tt
decimal_from-IsDigit (suc fuel) n =
    let more =
      All-snoc (decimal_from fuel (n / 10)) (48 + n % 10) (decimal_from-IsDigit fuel (n / 10)) in
    ground arith

pub decimal-IsDigit : (n : ℕ) → All IsDigit (decimal n)
unfolding decimal
decimal-IsDigit n = decimal_from-IsDigit (suc n) n

-- the number that a list of digits stands for, after `acc`
abbrev value_from : ℕ → Bytes → ℕ
value_from acc [] = acc
value_from acc (b ∷ bs) = value_from (10 * acc + (b - 48)) bs

value_from-snoc :
    (acc : ℕ) (xs : Bytes) (b : ℕ)
    → value_from acc (xs ++ b ∷ []) ≡ 10 * value_from acc xs + (b - 48)
value_from-snoc acc [] b = refl
value_from-snoc acc (x ∷ xs) b = value_from-snoc (10 * acc + (x - 48)) xs b

value-decimal_from : (fuel n : ℕ) → n < fuel → value_from 0 (decimal_from fuel n) ≡ n
unfolding decimal_from
value-decimal_from zero n h = ground arith
value-decimal_from (suc fuel) n h = ground (
  arith,
  value-decimal_from fuel (n / 10),
  value_from-snoc 0 (decimal_from fuel (n / 10)) (48 + n % 10),
)

abbrev pub value : Bytes → ℕ
value = value_from 0

pub value-decimal : (n : ℕ) → value (decimal n) ≡ n
unfolding decimal
value-decimal n = value-decimal_from (suc n) n (omega arith)
