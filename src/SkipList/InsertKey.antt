-- ===== src/SkipList/InsertKey.antt =====
-- Insert as a whole: it never panics, keeps the invariant, and the table then has the key.
use pair_db.Prelude.{
  ap, ℕ, zero, suc, ◌+◌, ◌-◌, ◌≤◌, ◌<◌, Option, none, some, Bool, leb, ◌==◌, if◌then◌else◌, List,
  [], ◌∷◌, ◌++◌, length, All-of, All-map, ◌≡◌, inl, inr, refl, arith, Bool-cases, ◌∙◌, sym, subst,
}
use pair_db.Bytes.{Bytes, bytes_eq, bytes_eq_iff}
use pair_db.SkipList.{
  SkipList, max_level, insert_node, insert_at, insert_within, random_level, random_from, update,
}
use pair_db.SkipList.Walk.{last_at, Below, AtLeast}
use pair_db.SkipList.Order.{Linked-same, Distinct-others}
use pair_db.SkipList.View.{
  bytes_lt-cong, Sorted-same, Sorted-right, view, view-same, view-insert, split, Above,
  Above-AtLeast,
}
use pair_db.SkipList.Valid.{IsOrder, first_of, forward_at-first, descend-found}
use pair_db.SkipList.Insert.{added, insert_node-added, added-IsOrder, view-added}

random_from-le : (flips : ℕ → Bool) (left level : ℕ) → random_from flips left level ≤ left + level
unfolding random_from
random_from-le flips zero level = omega arith
random_from-le flips (suc left) level = ground (arith, random_from-le flips left (level + 1))

random_level-lt : (flips : ℕ → Bool) → random_level flips < max_level
unfolding random_level
random_level-lt flips = omega (arith, random_from-le flips (max_level - 1) 0)

-- The key has a node: it gets the value.
module _ {V : Type 0} (s : SkipList V) (n : ℕ) (value : V) where
  overwritten : SkipList V
  overwritten = record s { nodes = update s.nodes n (record (s.nodes n) { value = some value }) }

  overwritten-same :
      (a : ℕ)
      → ((overwritten.nodes a).key ≡ (s.nodes a).key)
        × ((overwritten.nodes a).width ≡ (s.nodes a).width)
        × ((overwritten.nodes a).forward ≡ (s.nodes a).forward)
        × ((overwritten.nodes a).value ≡ (if n == a then some value else (s.nodes a).value))
  unfolding overwritten
  overwritten-same a = ground arith

  overwritten-IsOrder : (order : List ℕ) → IsOrder s order → IsOrder overwritten order
  unfolding overwritten
  overwritten-IsOrder order v =
      let same = overwritten-same in
      let wide = All-of (λ c. (overwritten.nodes c).width ≡ (s.nodes c).width) (λ c. (same c).1) in
      record {
        head_width = (same s.head).1 ∙ v.head_width;
        level_bound = v.level_bound;
        linked = λ i.
            Linked-same s.nodes overwritten.nodes i (s.head ∷ order) (wide (s.head ∷ order))
              (All-of _ (λ c. ap (λ f. f i) (same c).2) (s.head ∷ order)) (v.linked i);
        distinct = v.distinct;
        sorted =
            Sorted-same s.nodes overwritten.nodes order (All-of _ (λ c. (same c).0) order) v.sorted;
        widths =
            All-map (λ b w. subst (λ n. (0 < n) × (n ≤ s.level + 1)) (sym (same b).1) w) order
              v.widths;
        old = v.old;
        counted = v.counted;
      }

  view-overwritten :
      (pre post : List ℕ) (j : Bytes)
      → IsOrder s (pre ++ n ∷ post)
      → Below s.nodes (s.nodes n).key pre
      → view overwritten.nodes (pre ++ n ∷ post) j
        ≡ (if bytes_eq (s.nodes n).key j then some value else view s.nodes (pre ++ n ∷ post) j)
  view-overwritten pre post j v below =
      let same = overwritten-same in
      let below' = All-map (λ c b. bytes_lt-cong _ _ _ _ (same c).0 (same n).0 b) pre below in
      let others = view-same s.nodes overwritten.nodes j (pre ++ post) (
        All-map (λ c ne. ((same c).0, ground (arith, (same c).3))) (pre ++ post)
          (Distinct-others n pre post v.distinct.1)) in
      ground (
        arith,
        view-insert overwritten.nodes n j pre post below',
        view-insert s.nodes n j pre post below,
        others,
        (same n).0,
        (same n).3,
      )

module _ {V : Type 0} where
  -- The table of `s'` is that of `s` with the value put at the key.
  abbrev pub Inserted : SkipList V → List ℕ → Bytes → V → SkipList V → List ℕ → Type 0
  Inserted s order key value s' order' =
      IsOrder s' order'
      × ((j : Bytes)
          → view s'.nodes order' j ≡ (if bytes_eq key j then some value else view s.nodes order j))

  insert-new :
      (s : SkipList V) (key : Bytes) (value : V) (level : ℕ) (pre post : List ℕ)
      → IsOrder s (pre ++ post)
      → level < max_level
      → (path : ℕ → Option ℕ)
      → ((j : ℕ) → path j ≡ (if leb j s.level then some (last_at s.nodes j s.head pre) else none))
      → Below s.nodes key pre
      → Above s.nodes key post
      → (s' : SkipList V) × (insert_node level key value s path ≡ some s')
        × Inserted s (pre ++ post) key value s' (pre ++ s.next ∷ post)
  insert-new s key value level pre post v room path noted below above =
      let valid = added-IsOrder s key value level pre post v room path noted below above in
      let table = view-added s key value level pre post v room path noted below above in
      (
        added s key value level pre post v room path noted below above,
        insert_node-added s key value level pre post v room path noted below above,
        (valid, table),
      )

  insert-at :
      (s : SkipList V) (key : Bytes) (value : V) (level : ℕ) (pre post : List ℕ)
      → IsOrder s (pre ++ post)
      → level < max_level
      → (path : ℕ → Option ℕ)
      → ((j : ℕ) → path j ≡ (if leb j s.level then some (last_at s.nodes j s.head pre) else none))
      → Below s.nodes key pre
      → AtLeast s.nodes key post
      → (s' : SkipList V) × (order' : List ℕ) × (insert_at level key value s path (first_of post)
          ≡ some s')
        × Inserted s (pre ++ post) key value s' order'
  unfolding insert_at overwritten
  insert-at s key value level pre [] v room path noted below at_least =
      let new = insert-new s key value level pre [] v room path noted below tt in
      (new.0, pre ++ s.next ∷ [], new.1, new.2)
  insert-at s key value level pre (p ∷ ps) v room path noted below at_least =
      elim (Bool-cases (bytes_eq (s.nodes p).key key)) [
        | inl found ↦
            let same = (bytes_eq_iff (s.nodes p).key key).0 found in
            let below' = subst (λ k. Below s.nodes k pre) (sym same) below in
            (
              overwritten s p value,
              pre ++ p ∷ ps,
              rw found refl,
              (
                overwritten-IsOrder s p value (pre ++ p ∷ ps) v,
                λ j.
                    subst
                      (λ k.
                        view (overwritten s p value).nodes (pre ++ p ∷ ps) j
                        ≡ (if bytes_eq k j then some value else view s.nodes (pre ++ p ∷ ps) j))
                      same (view-overwritten s p value pre ps j v below'),
              ),
            )
        | inr absent ↦
            let right = Sorted-right s.nodes pre (p ∷ ps) v.sorted in
            let above = Above-AtLeast s.nodes key p ps at_least absent right in
            let new = insert-new s key value level pre (p ∷ ps) v room path noted below above in
            (new.0, pre ++ s.next ∷ p ∷ ps, rw absent (new.1), new.2)
      ]

  -- Insert never panics, with fuel for the nodes that there are.
  pub insert-Inserted :
      (fuel : ℕ) (flips : ℕ → Bool) (key : Bytes) (value : V) (s : SkipList V) (order : List ℕ)
      → IsOrder s order
      → length order < fuel
      → (s' : SkipList V) × (order' : List ℕ) × (insert_within fuel flips key value s ≡ some s')
        × Inserted s order key value s' order'
  unfolding insert_within
  insert-Inserted fuel flips key value s order v f =
      let parts = split s.nodes key order v.sorted in
      let v' = subst (IsOrder s) parts.2 v in
      let f' = subst (λ l. length l < fuel) parts.2 f in
      let found = descend-found s key parts.0 parts.1 v' fuel f' parts.3 parts.4 in
      let first = forward_at-first s key parts.0 parts.1 v' in
      let done =
        insert-at s key value (random_level flips) parts.0 parts.1 v' (random_level-lt flips)
          found.0 found.2 parts.3 parts.4 in
      let result = done.3 in
      (
        done.0,
        done.1,
        rw (found.1, first) done.2,
        subst (λ l. Inserted s l key value done.0 done.1) (sym parts.2) result,
      )
