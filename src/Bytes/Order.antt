-- ===== src/Bytes/Order.antt =====
-- Go's order of strings: byte by byte, a prefix first.
use pair_db.Prelude.{[], ◌∷◌, Bool, true, false, ◌==◌, ltb, if◌then◌else◌, ◌≡◌, refl, arith}
use pair_db.Bytes.{Bytes, bytes_eq}

-- a < b
unfoldable pub bytes_lt : Bytes → Bytes → Bool
bytes_lt [] [] = false
bytes_lt [] (y ∷ ys) = true
bytes_lt (x ∷ xs) [] = false
bytes_lt (x ∷ xs) (y ∷ ys) =
    let rest = bytes_lt xs ys in if ltb x y then true else if x == y then rest else false

pub bytes_lt_irrefl : (a : Bytes) → bytes_lt a a ≡ false
unfolding bytes_lt
bytes_lt_irrefl [] = refl
bytes_lt_irrefl (x ∷ xs) = ground (arith, bytes_lt_irrefl xs)

pub bytes_lt_trans :
    (a b c : Bytes) → bytes_lt a b ≡ true → bytes_lt b c ≡ true → bytes_lt a c ≡ true
unfolding bytes_lt
bytes_lt_trans [] [] c p q = ground arith
bytes_lt_trans [] (y ∷ ys) [] p q = ground arith
bytes_lt_trans [] (y ∷ ys) (z ∷ zs) p q = refl
bytes_lt_trans (x ∷ xs) [] c p q = ground arith
bytes_lt_trans (x ∷ xs) (y ∷ ys) [] p q = ground arith
bytes_lt_trans (x ∷ xs) (y ∷ ys) (z ∷ zs) p q = ground (arith, bytes_lt_trans xs ys zs)

-- Of two different strings one is less.
pub bytes_lt-total :
    (a b : Bytes) → bytes_lt a b ≡ false → bytes_eq a b ≡ false → bytes_lt b a ≡ true
unfolding bytes_lt
bytes_lt-total [] [] p q = ground arith
bytes_lt-total [] (y ∷ ys) p q = ground arith
bytes_lt-total (x ∷ xs) [] p q = refl
bytes_lt-total (x ∷ xs) (y ∷ ys) p q = ground (arith, bytes_lt-total xs ys)
