-- ===== src/GoMap/Keys.antt =====
-- Predicates on the keys of a map, and the loops that collect keys into a `map[string]bool`.
use pair_db.Prelude.{
  String, ◌≡◌, Option, none, some, [], ◌∷◌, arith, str_eq, eq_iff, eq_refl, Bool, true, false, ◌||◌,
  Bool-cases, inl, inr,
}
use pair_db.GoMap.{GoMap, lookup, insert, lookup-insert}

-- _, ok := m[k]
abbrev pub is_some {ℓ} : {V : Type ℓ} → Option V → Bool
is_some none = false
is_some (some v) = true

-- `P` holds of every key that has an entry.
abbrev pub OnKeys {ℓ κ} : {V : Type ℓ} → (String → Type κ) → GoMap V → Type κ
OnKeys P [] = Unit
OnKeys P ((k, v) ∷ m) = P k × OnKeys P m

module _ {ℓ κ} {V : Type ℓ} (P : String → Type κ) where
  pub OnKeys-at : (m : GoMap V) (k : String) → OnKeys P m → is_some (lookup k m) ≡ true → P k
  unfolding lookup
  OnKeys-at [] k h e = cc
  OnKeys-at ((j, v) ∷ m) k h e = elim (Bool-cases (str_eq j k)) [
    | inl same ↦ rw ((eq_iff j k).0 same) at (h.0)
    | inr other ↦ OnKeys-at m k h.1 (rw other at e)
  ]

  pub OnKeys-all : (m : GoMap V) → ((k : String) → is_some (lookup k m) ≡ true → P k) → OnKeys P m
  unfolding lookup
  OnKeys-all [] h = tt
  OnKeys-all ((j, v) ∷ m) h =
      (h j (rw eq_refl), OnKeys-all m (λ k e. h k (ground (arith, eq_iff j k))))

module _ {ℓ} {V : Type ℓ} where
  -- for k := range m { nodes[k] = true }
  unfoldable pub add_keys : GoMap V → GoMap Bool → GoMap Bool
  add_keys [] nodes = nodes
  add_keys ((k, v) ∷ m) nodes = add_keys m (insert k true nodes)

  pub lookup-add_keys :
      (k : String) (m : GoMap V) (nodes : GoMap Bool)
      → is_some (lookup k (add_keys m nodes)) ≡ (is_some (lookup k m) || is_some (lookup k nodes))
  unfolding add_keys lookup
  lookup-add_keys k [] nodes = ground arith
  lookup-add_keys k ((j, v) ∷ m) nodes =
      ground (arith, lookup-add_keys k m (insert j true nodes), lookup-insert j k true nodes)
