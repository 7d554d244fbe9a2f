-- ===== src/GoMap.antt =====
-- Go's `map[string]V`, which every component uses: an association list from keys to values. A read
-- finds the first entry of a key, and a write replaces it. Go leaves the order of `range` open, so
-- code that ranges over a map takes the order as a parameter, an `Iteration`.
pub mod Keys
pub mod Entries
use pair_db.Prelude.{
  String, ◌≡◌, refl, Option, none, some, List, [], ◌∷◌, arith, str_eq, eq_iff, eq_refl,
  if◌then◌else◌,
}

abbrev pub GoMap {ℓ} : Type ℓ → Type ℓ
GoMap V = List (String × V)

module _ {ℓ} {V : Type ℓ} where
  -- v, ok := m[k]
  unfoldable pub lookup : String → GoMap V → Option V
  lookup k [] = none
  lookup k ((j, v) ∷ m) = if str_eq j k then some v else lookup k m

  -- m[k] = v
  unfoldable pub insert : String → V → GoMap V → GoMap V
  insert k v [] = (k, v) ∷ []
  insert k v ((j, w) ∷ m) = if str_eq j k then (k, v) ∷ m else (j, w) ∷ insert k v m

  -- delete(m, k)
  unfoldable pub delete : String → GoMap V → GoMap V
  delete k [] = []
  delete k ((j, w) ∷ m) = let rest = delete k m in if str_eq j k then rest else (j, w) ∷ rest

  -- m[k], where the zero value `d` stands for an absent key
  abbrev pub or_zero : V → Option V → V
  or_zero d none = d
  or_zero d (some v) = v

  pub lookup-nil : (k : String) → lookup k [] ≡ none
  unfolding lookup
  lookup-nil k = refl

  -- A map gives each key the value that was put there last.
  pub lookup-insert :
      (k j : String) (v : V) (entries : GoMap V)
      → lookup j (insert k v entries) ≡ (if str_eq k j then some v else lookup j entries)
  unfolding lookup insert
  lookup-insert k j v [] = refl
  lookup-insert k j v ((at, old) ∷ entries) =
      let rest = lookup-insert k j v entries in
      ground (arith, rest, eq_iff at k, eq_iff at j, eq_iff k j)

  pub lookup-delete :
      (k j : String) (m : GoMap V)
      → lookup j (delete k m) ≡ (if str_eq k j then none else lookup j m)
  unfolding lookup delete
  lookup-delete k j [] = ground arith
  lookup-delete k j ((i, w) ∷ m) =
      ground (arith, eq_iff k j, eq_iff i k, eq_iff i j, lookup-delete k j m)

  pub lookup-insert_self : (k : String) (v : V) (m : GoMap V) → lookup k (insert k v m) ≡ some v
  lookup-insert_self k v m = simp (lookup-insert, eq_refl)

  -- No key has two entries.
  abbrev pub IsDistinct : GoMap V → Type ℓ
  IsDistinct [] = Unit
  IsDistinct ((k, v) ∷ m) = (lookup k m ≡ none) × IsDistinct m

  pub insert-IsDistinct :
      (k : String) (v : V) (m : GoMap V) → IsDistinct m → IsDistinct (insert k v m)
  unfolding insert
  insert-IsDistinct k v [] d = (unfold lookup in refl, tt)
  insert-IsDistinct k v ((j, w) ∷ m) d =
      ground (arith, eq_iff j k, eq_iff k j, lookup-insert k j v m, insert-IsDistinct k v m d.1)

pub ruleset map_laws = (lookup-insert, lookup-delete, eq_refl)

-- The order in which `range` visits a map: each entry once, so it keeps what is read of the map.
pub record Iteration : Type 1 where
  pub order : (V : Type 0) → GoMap V → GoMap V
  pub lookup-order : (V : Type 0) (k : String) (m : GoMap V) → lookup k (order V m) ≡ lookup k m
  pub order-IsDistinct : (V : Type 0) (m : GoMap V) → IsDistinct m → IsDistinct (order V m)

-- The order of insertion, an instance.
abbrev pub in_order : Iteration
in_order = record { order = λ V m. m; lookup-order = λ V k m. refl; order-IsDistinct = λ V m d. d }
