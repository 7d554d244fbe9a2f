-- ===== src/SkipList/DeleteKey.antt =====
-- Delete as a whole: it never panics, keeps the invariant, and takes the key out of the table.
use pair_db.Prelude.{
  ℕ, ◌<◌, Option, none, some, Bool, true, false, leb, if◌then◌else◌, List, [], ◌∷◌, ◌++◌, length,
  ◌≡◌, inl, inr, refl, Bool-cases, ◌∙◌, sym, subst,
}
use pair_db.Bytes.{Bytes, bytes_eq, bytes_eq_iff}
use pair_db.SkipList.{SkipList, delete_at, delete_within}
use pair_db.SkipList.Walk.{last_at, Below, AtLeast}
use pair_db.SkipList.View.{Sorted-right, view, view-Below, view-Above, split, Above-AtLeast}
use pair_db.SkipList.Valid.{IsOrder, first_of, forward_at-first, descend-found}
use pair_db.SkipList.Delete.{removed, remove_node-removed, removed-IsOrder, view-removed}

module _ {V : Type 0} where
  abbrev pub Deleted : SkipList V → List ℕ → Bytes → SkipList V → List ℕ → Type 0
  Deleted s order key s' order' =
      IsOrder s' order'
      × ((j : Bytes)
          → view s'.nodes order' j ≡ (if bytes_eq key j then none else view s.nodes order j))

  absent-Deleted :
      (s : SkipList V) (order : List ℕ) (key : Bytes)
      → IsOrder s order
      → view s.nodes order key ≡ none
      → Deleted s order key s order
  absent-Deleted s order key v absent = (
    v,
    λ j. elim (Bool-cases (bytes_eq key j)) [
      | inl e ↦ rw e (subst (λ k. view s.nodes order k ≡ none) ((bytes_eq_iff key j).0 e) absent)
      | inr n ↦ rw n refl
    ],
  )

  delete-at :
      (s : SkipList V) (key : Bytes) (pre post : List ℕ)
      → IsOrder s (pre ++ post)
      → (path : ℕ → Option ℕ)
      → ((j : ℕ) → path j ≡ (if leb j s.level then some (last_at s.nodes j s.head pre) else none))
      → Below s.nodes key pre
      → AtLeast s.nodes key post
      → (s' : SkipList V) × (found : Bool) × (order' : List ℕ) × (delete_at key s path
            (first_of post)
          ≡ some (s', found))
        × Deleted s (pre ++ post) key s' order'
  unfolding delete_at view
  delete-at s key pre [] v path noted below at_least = (
    s,
    false,
    pre ++ [],
    refl,
    absent-Deleted s (pre ++ []) key v (view-Below s.nodes key pre [] below),
  )
  delete-at s key pre (p ∷ ps) v path noted below at_least =
      elim (Bool-cases (bytes_eq (s.nodes p).key key)) [
        | inl e ↦
            let same = (bytes_eq_iff (s.nodes p).key key).0 e in
            let below' = subst (λ k. Below s.nodes k pre) (sym same) below in
            let table =
              subst
                (λ k.
                  (j : Bytes)
                  → view (removed s pre p ps v path noted below').nodes (pre ++ ps) j
                    ≡ (if bytes_eq k j then none else view s.nodes (pre ++ p ∷ ps) j))
                same (view-removed s pre p ps v path noted below') in
            (
              removed s pre p ps v path noted below',
              true,
              pre ++ ps,
              rw e (remove_node-removed s pre p ps v path noted below'),
              (removed-IsOrder s pre p ps v path noted below', table),
            )
        | inr n ↦
            let right = Sorted-right s.nodes pre (p ∷ ps) v.sorted in
            let above = Above-AtLeast s.nodes key p ps at_least n right in
            (
              s,
              false,
              pre ++ p ∷ ps,
              rw n refl,
              absent-Deleted s (pre ++ p ∷ ps) key v (
                  view-Below s.nodes key pre (p ∷ ps) below
                  ∙ view-Above s.nodes key (p ∷ ps) above),
            )
      ]

  pub delete-Deleted :
      (fuel : ℕ) (key : Bytes) (s : SkipList V) (order : List ℕ)
      → IsOrder s order
      → length order < fuel
      → (s' : SkipList V) × (found : Bool) × (order' : List ℕ) × (delete_within fuel key s
          ≡ some (s', found))
        × Deleted s order key s' order'
  unfolding delete_within
  delete-Deleted fuel key s order v f =
      let parts = split s.nodes key order v.sorted in
      let v' = subst (IsOrder s) parts.2 v in
      let f' = subst (λ l. length l < fuel) parts.2 f in
      let path = descend-found s key parts.0 parts.1 v' fuel f' parts.3 parts.4 in
      let first = forward_at-first s key parts.0 parts.1 v' in
      let done = delete-at s key parts.0 parts.1 v' path.0 path.2 parts.3 parts.4 in
      let result = done.4 in
      (
        done.0,
        done.1,
        done.2,
        rw (path.1, first) done.3,
        subst (λ l. Deleted s l key done.0 done.2) (sym parts.2) result,
      )
