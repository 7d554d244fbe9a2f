-- ===== src/SkipList/Relink.antt =====
-- The loops of Insert and Delete that change the pointers, entry by entry, and the order that the
-- changed pointers link.
use pair_db.Prelude.{
  ℕ, zero, suc, ◌+◌, ◌≤◌, ◌<◌, Option, some, true, false, ltb, leb, ◌==◌, ◌&&◌, if◌then◌else◌, ◌≡◌,
  ◌≢◌, inl, inr, refl, arith, Bool-cases, ltb→lt, ◌∙◌,
}
use pair_db.SkipList.{SkipListNode, forward_at, set_forward, link, unlink, points_to, update}

module _ {V : Type 0} where
  -- Keys, values and widths are the same.
  abbrev pub Frame : (h h' : ℕ → SkipListNode V) → Type 0
  Frame h h' =
      (a : ℕ)
      → ((h' a).key ≡ (h a).key) × ((h' a).value ≡ (h a).value) × ((h' a).width ≡ (h a).width)

  -- One level of Insert: node takes the pointer of u, and u points to node.
  splice : (h : ℕ → SkipListNode V) (u node i : ℕ) → ℕ → SkipListNode V
  splice h u node i =
      let h1 =
        update h node (record (h node) { forward = update (h node).forward i ((h u).forward i) }) in
      update h1 u (record (h1 u) { forward = update (h1 u).forward i (some node) })

  splice-Frame : (h : ℕ → SkipListNode V) (u node i : ℕ) → Frame h (splice h u node i)
  unfolding splice
  splice-Frame h u node i a = ground arith

  splice-forward :
      (h : ℕ → SkipListNode V) (u node i a j : ℕ)
      → u ≢ node
      → (splice h u node i a).forward j ≡ (
          if i == j
          then (if a == node
              then (h u).forward j
              else if a == u
              then some node
              else (h a).forward j)
          else (h a).forward j)
  unfolding splice
  splice-forward h u node i a j n = ground arith

  link-step :
      (path : ℕ → Option ℕ) (h : ℕ → SkipListNode V) (u node count i : ℕ)
      → path i ≡ some u
      → u ≢ node
      → i < (h u).width
      → i < (h node).width
      → link path node (suc count) i h ≡ link path node count (i + 1) (splice h u node i)
  unfolding link forward_at set_forward splice
  link-step path h u node count i p n w wn = ground arith

  module _ (path : ℕ → Option ℕ) (u : ℕ → ℕ) (node : ℕ) (apart : (j : ℕ) → u j ≢ node) where
    -- After Insert's last loop.
    pub link_lem :
        (h : ℕ → SkipListNode V) (count i : ℕ)
        → ((j : ℕ) → i ≤ j → j < i + count → path j ≡ some (u j))
        → ((j : ℕ) → i ≤ j → j < i + count → (j < (h (u j)).width) × (j < (h node).width))
        → (h' : ℕ → SkipListNode V) × (link path node count i h ≡ some h')
          × Frame h h'
          × ((a j : ℕ)
              → (h' a).forward j ≡ (
                  if leb i j && ltb j (i + count)
                  then (if a == node
                      then (h (u j)).forward j
                      else if a == u j
                      then some node
                      else (h a).forward j)
                  else (h a).forward j))
    unfolding link
    link_lem h zero i paths wide = (h, refl, λ a. (refl, refl, refl), λ a j. ground arith)
    link_lem h (suc count) i paths wide =
        let now = wide i (omega arith) (omega arith) in
        let step =
          link-step path h (u i) node count i (paths i (omega arith) (omega arith)) (apart i) now.0
            now.1 in
        let h1 = splice h (u i) node i in
        let same = splice-Frame h (u i) node i in
        let rest =
          link_lem h1 count (i + 1) (λ j p q. paths j (omega arith) (omega arith))
            (λ j p q.
              let w = wide j (omega arith) (omega arith) in
              (omega (arith, (same (u j)).2, w.0), omega (arith, (same node).2, w.1))) in
        (
          rest.0,
          step ∙ rest.1,
          λ a. ((rest.2 a).0 ∙ (same a).0, (rest.2 a).1 ∙ (same a).1, (rest.2 a).2 ∙ (same a).2),
          λ a j. ground (
            arith,
            rest.3 a j,
            splice-forward h (u i) node i a j (apart i),
            splice-forward h (u i) node i (u j) j (apart i),
            apart j,
          ),
        )

  -- One level of Delete: u takes the pointer of node.
  cut : (h : ℕ → SkipListNode V) (u node i : ℕ) → ℕ → SkipListNode V
  cut h u node i =
      update h u (record (h u) { forward = update (h u).forward i ((h node).forward i) })

  cut-Frame : (h : ℕ → SkipListNode V) (u node i : ℕ) → Frame h (cut h u node i)
  unfolding cut
  cut-Frame h u node i a = ground arith

  cut-forward :
      (h : ℕ → SkipListNode V) (u node i a j : ℕ)
      → (cut h u node i a).forward j ≡ (
          if i == j
          then (if a == u then (h node).forward j else (h a).forward j)
          else (h a).forward j)
  unfolding cut
  cut-forward h u node i a j = ground arith

  unlink-step :
      (path : ℕ → Option ℕ) (h : ℕ → SkipListNode V) (u node count i : ℕ)
      → path i ≡ some u
      → i < (h u).width
      → i < (h node).width
      → points_to ((h u).forward i) node ≡ true
      → unlink path node (suc count) i h ≡ unlink path node count (i + 1) (cut h u node i)
  unfolding unlink forward_at set_forward cut
  unlink-step path h u node count i p w wn t = ground arith

  unlink-stop :
      (path : ℕ → Option ℕ) (h : ℕ → SkipListNode V) (u node count i : ℕ)
      → path i ≡ some u
      → i < (h u).width
      → points_to ((h u).forward i) node ≡ false
      → unlink path node (suc count) i h ≡ some h
  unfolding unlink forward_at
  unlink-stop path h u node count i p w t = ground arith

  module _ (path : ℕ → Option ℕ) (u : ℕ → ℕ) (node : ℕ) (apart : (j : ℕ) → u j ≢ node) where
    -- After Delete's loop, where the pointers of `u` show exactly on which levels the node is.
    pub unlink_lem :
        (h : ℕ → SkipListNode V) (count i : ℕ)
        → ((j : ℕ) → i ≤ j → j < i + count → path j ≡ some (u j))
        → ((j : ℕ) → i ≤ j → j < i + count → j < (h (u j)).width)
        → ((j : ℕ)
            → i ≤ j
            → j < i + count
            → points_to ((h (u j)).forward j) node ≡ ltb j (h node).width)
        → (h' : ℕ → SkipListNode V) × (unlink path node count i h ≡ some h')
          × Frame h h'
          × ((a j : ℕ)
              → (h' a).forward j ≡ (
                  if leb i j && (ltb j (i + count) && ltb j (h node).width)
                  then (if a == u j then (h node).forward j else (h a).forward j)
                  else (h a).forward j))
    unfolding unlink
    unlink_lem h zero i paths wide points = (h, refl, λ a. (refl, refl, refl), λ a j. ground arith)
    unlink_lem h (suc count) i paths wide points =
        let here = points i (omega arith) (omega arith) in
        let p = paths i (omega arith) (omega arith) in
        let w = wide i (omega arith) (omega arith) in
        elim (Bool-cases (ltb i (h node).width)) [
          | inr over ↦ (
            h,
            unlink-stop path h (u i) node count i p w (here ∙ over),
            λ a. (refl, refl, refl),
            λ a j. ground (arith, over),
          )
          | inl on ↦
              let wn = ltb→lt _ _ on in
              let step = unlink-step path h (u i) node count i p w wn (here ∙ on) in
              let h1 = cut h (u i) node i in
              let same = cut-Frame h (u i) node i in
              let rest =
                unlink_lem h1 count (i + 1) (λ j p q. paths j (omega arith) (omega arith))
                  (λ j p q.
                    let wj = wide j (omega arith) (omega arith) in
                    omega (arith, (same (u j)).2, wj))
                  (λ j p q.
                    let pj = points j (omega arith) (omega arith) in
                    ground (arith, pj, (same node).2, cut-forward h (u i) node i (u j) j)) in
              (
                rest.0,
                step ∙ rest.1,
                λ a. (
                  (rest.2 a).0 ∙ (same a).0,
                  (rest.2 a).1 ∙ (same a).1,
                  (rest.2 a).2 ∙ (same a).2,
                ),
                λ a j. ground (
                  arith,
                  rest.3 a j,
                  (same node).2,
                  cut-forward h (u i) node i a j,
                  cut-forward h (u i) node i node j,
                  apart i,
                ),
              )
        ]
