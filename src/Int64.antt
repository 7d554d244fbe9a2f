-- ===== src/Int64.antt =====
-- Go's `int64` in offset binary: the integer i stands as the number i + 2^63, below 2^64. The order of
-- `int64` is then the order of ℕ, and an increment wraps around at 2^64.
use pair_db.Prelude.{ℕ, ◌+◌, ◌-◌, ◌%◌, ◌^◌}

abbrev pub Int64 : Type 0
Int64 = ℕ

abbrev pub zero64 : Int64
zero64 = 2 ^ 63

-- a literal that is not negative
abbrev pub int64 : ℕ → Int64
int64 n = n + 2 ^ 63

-- x + 1
abbrev pub incr64 : Int64 → Int64
incr64 x = (x + 1) % 2 ^ 64

abbrev pub max64 : Int64
max64 = 2 ^ 64 - 1
