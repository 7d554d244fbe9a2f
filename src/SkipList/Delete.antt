-- ===== src/SkipList/Delete.antt =====
-- The node that Delete takes out of the list.
use pair_db.Prelude.{
  ℕ, zero, suc, ◌+◌, ◌-◌, ◌≤◌, ◌<◌, Option, none, some, true, false, ltb, leb, ◌==◌, ◌&&◌,
  if◌then◌else◌, List, [], ◌∷◌, ◌++◌, length-append, All, All-of, All-right, All-map, All-remove,
  All-zip, ◌≡◌, ◌≢◌, inl, inr, refl, arith, Bool-cases, Option-cases, ◌∙◌, sym, subst,
}
use pair_db.Bytes.{Bytes, bytes_eq, bytes_eq_iff}
use pair_db.SkipList.{SkipListNode, SkipList, forward_at, unlink, lower, points_to, remove_node}
use pair_db.SkipList.Walk.{
  first_at, last_at, Linked, Linked-right, Below, last_at-wide, last_at-forward, last_at-OneOf,
}
use pair_db.SkipList.Relink.{Frame, unlink_lem}
use pair_db.SkipList.Order.{
  Distinct-left, Distinct-remove, Distinct-apart, Distinct-others, first_at-same, Linked-same,
  relink,
}
use pair_db.SkipList.View.{
  Sorted-same, Sorted-right, Sorted-remove, view, view-same, view-insert, view-Below, view-Above,
}
use pair_db.SkipList.Valid.{IsOrder}

module _ {V : Type 0} (h : ℕ → SkipListNode V) where
  first_at-apart :
      (i p : ℕ) (l : List ℕ) → All (λ c. c ≢ p) l → points_to (first_at h i l) p ≡ false
  unfolding first_at
  first_at-apart i p [] n = refl
  first_at-apart i p (b ∷ bs) n = elim (Bool-cases (ltb i (h b).width)) [
    | inl wide ↦ rw wide (ground (arith, n.0))
    | inr narrow ↦ rw narrow (first_at-apart i p bs n.1)
  ]

  first_at-none : (i : ℕ) (l : List ℕ) → first_at h i l ≡ none → All (λ b. (h b).width ≤ i) l
  unfolding first_at
  first_at-none i [] e = tt
  first_at-none i (b ∷ bs) e = elim (Bool-cases (ltb i (h b).width)) [
    | inl wide ↦ absurd (ground (arith, wide))
    | inr narrow ↦ (ground (arith, narrow), first_at-none i bs (rw narrow at e))
  ]

  -- The lowered level is still enough for every node.
  lower_lem :
      (head level : ℕ) (order : List ℕ)
      → level < (h head).width
      → ((i : ℕ) → Linked h i (head ∷ order))
      → All (λ b. (0 < (h b).width) × ((h b).width ≤ level + 1)) order
      → (level' : ℕ) × (lower h head level ≡ some level')
        × (level' ≤ level)
        × All (λ b. (0 < (h b).width) × ((h b).width ≤ level' + 1)) order
  unfolding lower forward_at
  lower_lem head zero order w l a = (0, refl, omega arith, a)
  lower_lem head (suc level) order w l a = elim (Option-cases ((h head).forward (suc level))) [
    | inr (n, e) ↦ (suc level, ground (arith, e), omega arith, a)
    | inl e ↦
        let empty = first_at-none (suc level) order (sym ((l (suc level)).0 w) ∙ e) in
        let a' =
          All-zip
            (λ b (p : (0 < (h b).width) × ((h b).width ≤ suc level + 1)) q.
              let r : (0 < (h b).width) × ((h b).width ≤ level + 1) = (p.0, omega (arith, q)) in r)
            order a empty in
        let rest = lower_lem head level order (omega arith) l a' in
        (rest.0, ground (arith, e, rest.1), omega (arith, rest.2), rest.3)
  ]

module _ {V : Type 0} (s : SkipList V) (pre : List ℕ) (p : ℕ) (ps : List ℕ)
    (v : IsOrder s (pre ++ p ∷ ps)) (path : ℕ → Option ℕ)
    (noted : (j : ℕ)
      → path j ≡ (if leb j s.level then some (last_at s.nodes j s.head pre) else none))
    (below : Below s.nodes (s.nodes p).key pre) where
  last : ℕ → ℕ
  last j = last_at s.nodes j s.head pre

  p_width : (s.nodes p).width ≤ s.level + 1
  p_width = (All-right _ pre (p ∷ ps) v.widths).0.1

  last-others : (j : ℕ) → All (λ c. c ≢ last j) (p ∷ ps)
  unfolding last
  last-others j =
      Distinct-apart (last j) s.head pre (p ∷ ps) (last_at-OneOf s.nodes j s.head pre) v.distinct

  last-apart : (j : ℕ) → last j ≢ p
  last-apart j e = (last-others j).0 (sym e)

  last-wide : (j : ℕ) → j < s.level + 1 → j < (s.nodes (last j)).width
  unfolding last
  last-wide j lt = last_at-wide s.nodes j s.head pre (omega (arith, v.head_width, v.level_bound))

  last-points :
      (j : ℕ)
      → j < (s.nodes (last j)).width
      → (s.nodes (last j)).forward j ≡ first_at s.nodes j (p ∷ ps)
  unfolding last
  last-points j w = last_at-forward s.nodes j s.head pre (p ∷ ps) (v.linked j) w

  ps-others : All (λ c. c ≢ p) ps
  ps-others = All-right _ pre ps (Distinct-others p pre ps v.distinct.1)

  points-p :
      (j : ℕ)
      → j < s.level + 1
      → points_to ((s.nodes (last j)).forward j) p ≡ ltb j (s.nodes p).width
  unfolding first_at
  points-p j lt =
      ground (arith, last-points j (last-wide j lt), first_at-apart s.nodes j p ps ps-others)

  unlinking :
      (h' : ℕ → SkipListNode V) × (unlink path p (s.level + 1) 0 s.nodes ≡ some h')
      × Frame s.nodes h'
      × ((a j : ℕ)
          → (h' a).forward j ≡ (
              if leb 0 j && (ltb j (0 + (s.level + 1)) && ltb j (s.nodes p).width)
              then (if a == last j then (s.nodes p).forward j else (s.nodes a).forward j)
              else (s.nodes a).forward j))
  unfolding last
  unlinking =
      unlink_lem path last p last-apart s.nodes (s.level + 1) 0 (λ j q r. ground (arith, noted j))
        (λ j q r. last-wide j (omega arith)) (λ j q r. points-p j (omega arith))

  after : ℕ → SkipListNode V
  after = unlinking.0

  after-Frame : Frame s.nodes after
  unfolding after
  after-Frame = unlinking.2

  after-elsewhere : (a j : ℕ) → a ≢ last j → (after a).forward j ≡ (s.nodes a).forward j
  unfolding after
  after-elsewhere a j ne = ground (arith, unlinking.3 a j)

  after-last :
      (j : ℕ)
      → (after (last j)).forward j
        ≡ (if ltb j (s.nodes p).width then (s.nodes p).forward j else (s.nodes (last j)).forward j)
  unfolding after
  after-last j = ground (arith, unlinking.3 (last j) j, p_width)

  last-next :
      (i : ℕ) → i < (s.nodes (last i)).width → (after (last i)).forward i ≡ first_at after i ps
  unfolding first_at
  last-next i w =
      let same = first_at-same s.nodes after i ps (All-of _ (λ c. (after-Frame c).2) ps) in
      let next = (Linked-right s.nodes i (s.head ∷ pre) (p ∷ ps) (v.linked i)).0 in
      ground (arith, after-last i, last-points i w, same, next)

  after-Linked : (i : ℕ) → Linked after i (s.head ∷ (pre ++ ps))
  unfolding last
  after-Linked i =
      let wide = λ (l : List ℕ). All-of _ (λ c. (after-Frame c).2) l in
      let right = Linked-right s.nodes i (s.head ∷ pre) (p ∷ ps) (v.linked i) in
      let ps_linked =
        Linked-same s.nodes after i ps (wide ps)
          (All-map (λ c ne. after-elsewhere c i ne) ps (last-others i).1) right.1 in
      relink s.nodes after i s.head pre (p ∷ ps) ps (wide (s.head ∷ pre))
        (All-of _ (λ c. λ ne. after-elsewhere c i ne) (s.head ∷ pre))
        (Distinct-left (s.head ∷ pre) (p ∷ ps) v.distinct) (last-next i) (v.linked i) ps_linked

  after-widths : All (λ b. (0 < (after b).width) × ((after b).width ≤ s.level + 1)) (pre ++ ps)
  after-widths =
      All-map (λ b w. subst (λ n. (0 < n) × (n ≤ s.level + 1)) (sym (after-Frame b).2) w)
        (pre ++ ps) (All-remove _ p pre ps v.widths)

  lowering :
      (level' : ℕ) × (lower after s.head s.level ≡ some level')
      × (level' ≤ s.level)
      × All (λ b. (0 < (after b).width) × ((after b).width ≤ level' + 1)) (pre ++ ps)
  lowering =
      lower_lem after s.head s.level (pre ++ ps)
        (omega (arith, (after-Frame s.head).2, v.head_width, v.level_bound)) after-Linked
        after-widths

  -- The list without the node.
  pub removed : SkipList V
  removed = record s { nodes = after; level = lowering.0; size = s.size - 1 }

  pub remove_node-removed : remove_node s path p ≡ some (removed, true)
  unfolding remove_node removed after
  remove_node-removed = rw (unlinking.1, lowering.1) refl

  pub removed-IsOrder : IsOrder removed (pre ++ ps)
  unfolding removed
  removed-IsOrder = record {
    head_width = (after-Frame s.head).2 ∙ v.head_width;
    level_bound = omega (arith, lowering.2, v.level_bound);
    linked = after-Linked;
    distinct = Distinct-remove p (s.head ∷ pre) ps v.distinct;
    sorted =
        Sorted-same s.nodes after (pre ++ ps) (All-of _ (λ c. (after-Frame c).0) (pre ++ ps))
          (Sorted-remove s.nodes p pre ps v.sorted);
    widths = lowering.3;
    old = All-remove _ p (s.head ∷ pre) ps v.old;
    counted = omega (arith, v.counted, length-append pre ps, length-append pre (p ∷ ps));
  }

  without : (j : Bytes) → bytes_eq (s.nodes p).key j ≡ true → view s.nodes (pre ++ ps) j ≡ none
  without j e =
      let same = (bytes_eq_iff (s.nodes p).key j).0 e in
      let right = Sorted-right s.nodes pre (p ∷ ps) v.sorted in
      subst (λ k. view s.nodes (pre ++ ps) k ≡ none) same
        (view-Below s.nodes (s.nodes p).key pre ps below
          ∙ view-Above s.nodes (s.nodes p).key ps right.0)

  pub view-removed :
      (j : Bytes)
      → view removed.nodes (pre ++ ps) j
        ≡ (if bytes_eq (s.nodes p).key j then none else view s.nodes (pre ++ p ∷ ps) j)
  unfolding removed
  view-removed j =
      let same =
        view-same s.nodes after j (pre ++ ps)
          (All-of _ (λ c. ((after-Frame c).0, (after-Frame c).1)) (pre ++ ps)) in
      let table = view-insert s.nodes p j pre ps below in
      elim (Bool-cases (bytes_eq (s.nodes p).key j)) [
        | inl e ↦ rw e (same ∙ without j e)
        | inr n ↦ let t = rw n at table in rw n (same ∙ sym t)
      ]
