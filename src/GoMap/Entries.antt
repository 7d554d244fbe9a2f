-- ===== src/GoMap/Entries.antt =====
-- Predicates on the entries of a map, and distinct keys.
use mathlib.Core.Path.{subst₂}
use mathlib.Core.Option.{some-injective}
use pair_db.Prelude.{
  String, ◌≡◌, some, [], ◌∷◌, arith, str_eq, eq_iff, eq_refl, Bool-cases, inl, inr,
}
use pair_db.GoMap.{GoMap, lookup, IsDistinct}

-- `P` holds of every entry.
abbrev pub OnEntries {ℓ κ} : {V : Type ℓ} → (String → V → Type κ) → GoMap V → Type κ
OnEntries P [] = Unit
OnEntries P ((k, v) ∷ m) = P k v × OnEntries P m

module _ {ℓ κ} {V : Type ℓ} (P : String → V → Type κ) where
  pub OnEntries-at :
      (m : GoMap V) (k : String) (v : V) → OnEntries P m → lookup k m ≡ some v → P k v
  unfolding lookup
  OnEntries-at [] k v h e = cc
  OnEntries-at ((j, w) ∷ m) k v h e = elim (Bool-cases (str_eq j k)) [
    | inl same ↦ subst₂ P ((eq_iff j k).0 same) (some-injective w v (ground arith)) h.0
    | inr other ↦ OnEntries-at m k v h.1 (rw other at e)
  ]

  pub OnEntries-all :
      (m : GoMap V)
      → IsDistinct m
      → ((k : String) (v : V) → lookup k m ≡ some v → P k v)
      → OnEntries P m
  unfolding lookup
  OnEntries-all [] d h = tt
  OnEntries-all ((j, w) ∷ m) d h =
      (h j w (rw eq_refl), OnEntries-all m d.1 (λ k v e. h k v (ground (arith, eq_iff j k, d.0))))
