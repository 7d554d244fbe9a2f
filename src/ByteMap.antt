-- ===== src/ByteMap.antt =====
-- A Go map whose keys are strings that the program builds, as bytes: an association list, with a
-- weight of its entries.
use pair_db.Prelude.{
  ℕ, ◌+◌, ◌≡◌, refl, Option, none, some, List, [], ◌∷◌, arith, if◌then◌else◌, Bool-cases, All,
  All-map, subst, inl, inr,
}
use pair_db.Bytes.{Bytes, bytes_eq, bytes_eq_iff}

abbrev pub ByteMap : Type 0 → Type 0
ByteMap V = List (Bytes × V)

module _ {V : Type 0} where
  unfoldable pub find : Bytes → ByteMap V → Option V
  find k [] = none
  find k ((j, v) ∷ m) = let rest = find k m in if bytes_eq j k then some v else rest

  unfoldable pub insert : Bytes → V → ByteMap V → ByteMap V
  insert k v [] = (k, v) ∷ []
  insert k v ((j, w) ∷ m) =
      let rest = insert k v m in if bytes_eq j k then (k, v) ∷ m else (j, w) ∷ rest

  unfoldable pub delete : Bytes → ByteMap V → ByteMap V
  delete k [] = []
  delete k ((j, w) ∷ m) = let rest = delete k m in if bytes_eq j k then rest else (j, w) ∷ rest

  pub find-insert :
      (k j : Bytes) (v : V) (m : ByteMap V)
      → find j (insert k v m) ≡ (if bytes_eq k j then some v else find j m)
  unfolding find insert
  find-insert k j v [] = refl
  find-insert k j v ((at, old) ∷ m) =
      ground (arith, find-insert k j v m, bytes_eq_iff at k, bytes_eq_iff at j, bytes_eq_iff k j)

  pub find-delete :
      (k j : Bytes) (m : ByteMap V)
      → find j (delete k m) ≡ (if bytes_eq k j then none else find j m)
  unfolding find delete
  find-delete k j [] = ground arith
  find-delete k j ((at, old) ∷ m) =
      ground (arith, find-delete k j m, bytes_eq_iff at k, bytes_eq_iff at j, bytes_eq_iff k j)

  -- No key has two entries.
  abbrev pub IsDistinct : ByteMap V → Type 0
  IsDistinct [] = Unit
  IsDistinct ((k, v) ∷ m) = (find k m ≡ none) × IsDistinct m

  pub insert-IsDistinct :
      (k : Bytes) (v : V) (m : ByteMap V) → IsDistinct m → IsDistinct (insert k v m)
  unfolding insert
  insert-IsDistinct k v [] d = (unfold find in refl, tt)
  insert-IsDistinct k v ((j, w) ∷ m) d =
      ground (
        arith,
        bytes_eq_iff j k,
        bytes_eq_iff k j,
        find-insert k j v m,
        insert-IsDistinct k v m d.1,
      )

  pub delete-IsDistinct : (k : Bytes) (m : ByteMap V) → IsDistinct m → IsDistinct (delete k m)
  unfolding delete
  delete-IsDistinct k [] d = tt
  delete-IsDistinct k ((j, w) ∷ m) d = ground (arith, find-delete k j m, delete-IsDistinct k m d.1)

  find-later :
      (k : Bytes) (v : V) (j : Bytes) (w : V) (m : ByteMap V)
      → find k m ≡ none
      → find j m ≡ some w
      → find j ((k, v) ∷ m) ≡ some w
  unfolding find
  find-later k v j w m absent found = elim (Bool-cases (bytes_eq k j)) [
    | inl e ↦
        let there = subst (λ x. find x m ≡ none) ((bytes_eq_iff k j).0 e) absent in
        absurd (ground (arith, there, found))
    | inr n ↦ rw n found
  ]

  -- Where no key has two entries, each is the one that is found.
  pub find-entries : (m : ByteMap V) → IsDistinct m → All (λ p. find p.0 m ≡ some p.1) m
  find-entries [] d = tt
  find-entries ((k, v) ∷ m) d = (
    unfold find in ground (arith, bytes_eq_iff k k),
    All-map (λ p found. find-later k v p.0 p.1 m d.0 found) m (find-entries m d.1),
  )

  module _ (weight : V → ℕ) where
    unfoldable pub total : ByteMap V → ℕ
    total [] = 0
    total ((k, v) ∷ m) = weight v + total m

    pub total-insert_new :
        (k : Bytes) (v : V) (m : ByteMap V)
        → find k m ≡ none
        → total (insert k v m) ≡ total m + weight v
    unfolding find insert total
    total-insert_new k v [] e = omega arith
    total-insert_new k v ((j, w) ∷ m) e = ground (arith, total-insert_new k v m)

    pub total-insert_old :
        (k : Bytes) (v old : V) (m : ByteMap V)
        → find k m ≡ some old
        → total (insert k v m) + weight old ≡ total m + weight v
    unfolding find insert total
    total-insert_old k v old [] e = ground arith
    total-insert_old k v old ((j, w) ∷ m) e = ground (arith, total-insert_old k v old m)

    total-delete_absent :
        (k : Bytes) (m : ByteMap V) → find k m ≡ none → total (delete k m) ≡ total m
    unfolding find delete total
    total-delete_absent k [] e = refl
    total-delete_absent k ((j, w) ∷ m) e = ground (arith, total-delete_absent k m)

    pub total-delete :
        (k : Bytes) (old : V) (m : ByteMap V)
        → IsDistinct m
        → find k m ≡ some old
        → total (delete k m) + weight old ≡ total m
    unfolding find delete total
    total-delete k old [] d e = ground arith
    total-delete k old ((j, w) ∷ m) d e =
        ground (arith, total-delete k old m d.1, total-delete_absent k m, bytes_eq_iff j k)
