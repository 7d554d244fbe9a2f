-- ===== src/SkipList/Insert.antt =====
-- Insert keeps the invariant and puts the key into the table.
use pair_db.Prelude.{
  ap, ℕ, ◌+◌, ◌≤◌, ◌<◌, Option, none, some, true, ltb, leb, ◌==◌, ◌&&◌, if◌then◌else◌, List, ◌∷◌,
  ◌++◌, length-append, All, All-left, All-right, All-map, All-insert, All-zip, ◌≡◌, ◌≢◌, inl, inr,
  refl, arith, Bool-cases, ◌∙◌, sym, subst,
}
use pair_db.Bytes.{Bytes, bytes_eq}
use pair_db.Bytes.Order.{bytes_lt}
use pair_db.SkipList.{
  SkipListNode, SkipList, max_level, link, insert_node, fresh_node, grown, update,
}
use pair_db.SkipList.Walk.{
  first_at, last_at, Linked, Below, last_at-wide, last_at-forward, last_at-OneOf, Linked-right,
}
use pair_db.SkipList.Relink.{Frame, link_lem}
use pair_db.SkipList.Order.{
  Distinct-left, Distinct-insert, Distinct-apart, OneOf-All, last_at-narrow, first_at-same,
  Linked-same, relink,
}
use pair_db.SkipList.View.{
  bytes_lt-cong, Above, Sorted, Sorted-same, Sorted-insert, view, view-same, view-insert,
}
use pair_db.SkipList.Valid.{IsOrder}

-- A node above which nothing was, between `pre` and `post`.
module _ {V : Type 0} (s : SkipList V) (key : Bytes) (value : V) (new_level : ℕ) (pre post : List ℕ)
    (v : IsOrder s (pre ++ post)) (room : new_level < max_level) (path : ℕ → Option ℕ)
    (noted : (j : ℕ)
      → path j ≡ (if leb j s.level then some (last_at s.nodes j s.head pre) else none))
    (below : Below s.nodes key pre) (above : Above s.nodes key post) where
  last : ℕ → ℕ
  last j = last_at s.nodes j s.head pre

  start : ℕ → SkipListNode V
  start = update s.nodes s.next (fresh_node new_level key value)

  last-old : (j : ℕ) → last j < s.next
  unfolding last
  last-old j =
      OneOf-All (λ b. b < s.next) (last j) s.head pre (last_at-OneOf s.nodes j s.head pre)
        (All-left _ (s.head ∷ pre) post v.old)

  last-apart : (j : ℕ) → last j ≢ s.next
  last-apart j e = omega (arith, last-old j, e)

  grown-last : (j : ℕ) → j < new_level + 1 → grown new_level s path j ≡ some (last j)
  unfolding grown last
  grown-last j lt = elim (Bool-cases (ltb s.level j)) [
    | inl over ↦
        let narrow =
          last_at-narrow s.nodes j s.head pre
            (All-map (λ b p. ground (arith, over, p.1)) pre (All-left _ pre post v.widths)) in
        ground (arith, over, narrow)
    | inr under ↦ ground (arith, under, noted j)
  ]

  start-old : (a : ℕ) → a < s.next → start a ≡ s.nodes a
  unfolding start
  start-old a lt = ground arith

  start-next : start s.next ≡ fresh_node new_level key value
  unfolding start
  start-next = ground arith

  linking :
      (h' : ℕ → SkipListNode V) × (link (grown new_level s path) s.next (new_level + 1) 0 start
        ≡ some h')
      × Frame start h'
      × ((a j : ℕ)
          → (h' a).forward j ≡ (
              if leb 0 j && ltb j (0 + (new_level + 1))
              then (if a == s.next
                  then (start (last j)).forward j
                  else if a == last j
                  then some s.next
                  else (start a).forward j)
              else (start a).forward j))
  unfolding fresh_node last
  linking =
      link_lem (grown new_level s path) last s.next last-apart start (new_level + 1) 0
        (λ j p q. grown-last j (omega arith))
        (λ j p q.
          let w = last_at-wide s.nodes j s.head pre (omega (arith, v.head_width, room, q)) in
          let wide : j < (start (last j)).width =
            subst (λ n. j < n.width) (sym (start-old (last j) (last-old j))) w in
          (wide, ground (arith, start-next)))

  after : ℕ → SkipListNode V
  after = linking.0

  after-old : (a : ℕ) → a < s.next → (after a).key ≡ (s.nodes a).key
  unfolding after
  after-old a lt = (linking.2 a).0 ∙ ap (λ n. n.key) (start-old a lt)

  after-value : (a : ℕ) → a < s.next → (after a).value ≡ (s.nodes a).value
  unfolding after
  after-value a lt = (linking.2 a).1 ∙ ap (λ n. n.value) (start-old a lt)

  after-width : (a : ℕ) → a < s.next → (after a).width ≡ (s.nodes a).width
  unfolding after
  after-width a lt = (linking.2 a).2 ∙ ap (λ n. n.width) (start-old a lt)

  after-next :
      ((after s.next).key ≡ key)
      × ((after s.next).value ≡ some value)
      × ((after s.next).width ≡ new_level + 1)
  unfolding after fresh_node
  after-next =
      let f = linking.2 s.next in
      (
        f.0 ∙ ap (λ n. n.key) start-next,
        f.1 ∙ ap (λ n. n.value) start-next,
        f.2 ∙ ap (λ n. n.width) start-next,
      )

  after-elsewhere :
      (a j : ℕ) → a < s.next → a ≢ last j → (after a).forward j ≡ (s.nodes a).forward j
  unfolding after
  after-elsewhere a j lt ne = ground (arith, linking.3 a j, start-old a lt)

  after-last :
      (j : ℕ)
      → (after (last j)).forward j
        ≡ (if leb j new_level then some s.next else (s.nodes (last j)).forward j)
  unfolding after
  after-last j = ground (arith, linking.3 (last j) j, start-old (last j) (last-old j), last-apart j)

  after-new : (j : ℕ) → j < new_level + 1 → (after s.next).forward j ≡ (s.nodes (last j)).forward j
  unfolding after
  after-new j lt = ground (arith, linking.3 s.next j, start-old (last j) (last-old j))

  old-post : All (λ b. b < s.next) post
  old-post = All-right _ (s.head ∷ pre) post v.old

  first_at-after : (i : ℕ) → first_at after i post ≡ first_at s.nodes i post
  first_at-after i =
      first_at-same s.nodes after i post (All-map (λ c lt. after-width c lt) post old-post)

  first_at-next :
      (i : ℕ)
      → first_at after i (s.next ∷ post)
        ≡ (if leb i new_level then some s.next else first_at s.nodes i post)
  unfolding first_at
  first_at-next i = ground (arith, after-next.2, first_at-after i)

  last-points :
      (i : ℕ)
      → i < (s.nodes (last i)).width
      → (s.nodes (last i)).forward i ≡ first_at s.nodes i post
  unfolding last
  last-points i w = last_at-forward s.nodes i s.head pre post (v.linked i) w

  after-post : (i : ℕ) → All (λ c. (after c).forward i ≡ (s.nodes c).forward i) post
  unfolding last
  after-post i =
      All-zip (λ c lt ne. after-elsewhere c i lt ne) post old-post
        (Distinct-apart (last i) s.head pre post (last_at-OneOf s.nodes i s.head pre) v.distinct)

  last-next :
      (i : ℕ)
      → i < (s.nodes (last i)).width
      → (after (last i)).forward i ≡ first_at after i (s.next ∷ post)
  last-next i w = ground (arith, after-last i, first_at-next i, last-points i w)

  next-first : (i : ℕ) → i < (after s.next).width → (after s.next).forward i ≡ first_at after i post
  unfolding last
  next-first i w =
      let lt : i < new_level + 1 = omega (arith, after-next.2) in
      let wide : i < (s.nodes (last i)).width =
        last_at-wide s.nodes i s.head pre (omega (arith, v.head_width, room)) in
      after-new i lt ∙ last-points i wide ∙ sym (first_at-after i)

  after-Linked : (i : ℕ) → Linked after i (s.head ∷ (pre ++ s.next ∷ post))
  unfolding last
  after-Linked i =
      let old_pre = All-left _ (s.head ∷ pre) post v.old in
      let post_linked =
        Linked-same s.nodes after i post (All-map (λ c lt. after-width c lt) post old-post)
          (after-post i) (Linked-right s.nodes i (s.head ∷ pre) post (v.linked i)) in
      relink s.nodes after i s.head pre post (s.next ∷ post)
        (All-map (λ c lt. after-width c lt) (s.head ∷ pre) old_pre)
        (All-map (λ c lt. λ ne. after-elsewhere c i lt ne) (s.head ∷ pre) old_pre)
        (Distinct-left (s.head ∷ pre) post v.distinct) (last-next i) (v.linked i)
        (next-first i, post_linked)

  -- The list with the new node.
  pub added : SkipList V
  added = record {
    nodes = after;
    next = s.next + 1;
    head = s.head;
    level = if ltb s.level new_level then new_level else s.level;
    size = s.size + 1;
  }

  pub insert_node-added : insert_node new_level key value s path ≡ some added
  unfolding insert_node added after start
  insert_node-added = rw (linking.1) refl

  old_both : All (λ b. b < s.next) (pre ++ post)
  old_both = v.old.1

  after-Below : Below after (after s.next).key pre
  after-Below =
      All-zip
        (λ c lt (b : bytes_lt (s.nodes c).key key ≡ true).
          bytes_lt-cong _ _ _ _ (after-old c lt) after-next.0 b)
        pre (All-left _ pre post old_both) below

  after-Above : Above after (after s.next).key post
  after-Above =
      All-zip
        (λ c lt (b : bytes_lt key (s.nodes c).key ≡ true).
          bytes_lt-cong _ _ _ _ after-next.0 (after-old c lt) b)
        post old-post above

  after-Sorted : Sorted after (pre ++ s.next ∷ post)
  after-Sorted =
      Sorted-insert after s.next pre post
        (Sorted-same s.nodes after (pre ++ post) (All-map after-old (pre ++ post) old_both)
          v.sorted)
        after-Below after-Above

  after-widths :
      All
        (λ b.
          (0 < (after b).width)
          × ((after b).width ≤ (if ltb s.level new_level then new_level else s.level) + 1))
        (pre ++ s.next ∷ post)
  after-widths = All-insert _ s.next pre post (ground (arith, after-next.2)) (
      All-zip
        (λ b lt (w : (0 < (s.nodes b).width) × ((s.nodes b).width ≤ s.level + 1)).
          ground (arith, after-width b lt, w.0, w.1))
        (pre ++ post) old_both v.widths)

  pub added-IsOrder : IsOrder added (pre ++ s.next ∷ post)
  unfolding added
  added-IsOrder =
      let old =
        All-map (λ b (p : b < s.next). let q : b < s.next + 1 = omega arith in q) (pre ++ post)
          v.old.1 in
      record {
        head_width = after-width s.head v.old.0 ∙ v.head_width;
        level_bound = ground (arith, v.level_bound, room);
        linked = after-Linked;
        distinct = Distinct-insert s.next (s.head ∷ pre) post v.old v.distinct;
        sorted = after-Sorted;
        widths = after-widths;
        old = (omega (arith, v.old.0), All-insert _ s.next pre post (omega arith) old);
        counted =
            omega (arith, v.counted, length-append pre post, length-append pre (s.next ∷ post));
      }

  pub view-added :
      (j : Bytes)
      → view added.nodes (pre ++ s.next ∷ post) j
        ≡ (if bytes_eq key j then some value else view s.nodes (pre ++ post) j)
  unfolding added
  view-added j =
      let same =
        view-same s.nodes after j (pre ++ post)
          (All-map (λ c lt. (after-old c lt, after-value c lt)) (pre ++ post) old_both) in
      rw (view-insert after s.next j pre post after-Below, after-next.0, after-next.1, same) refl
