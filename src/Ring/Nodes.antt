-- ===== src/Ring/Nodes.antt =====
-- Nodes that join and leave the ring.
use pair_db.Prelude.{
  ℕ, suc, zero, ◌+◌, ◌≤◌, ◌<◌, List, [], ◌∷◌, ◌++◌, true, ◌==◌, Option, none, some, ◌≡◌, refl, ap,
  sym, subst, ◌∙◌, arith, length, length-append, All, All-map, Bool-cases, inl, inr, if◌then◌else◌,
}
use pair_db.Bytes.{Bytes, bytes_eq, bytes_eq_iff}
use pair_db.Ring.{
  ConsistentHasher, vnode_id_of, contains, sort, insert_sorted, add_vnodes, add_node,
}
use pair_db.Ring.Sorted.{IsSorted, sort-IsSorted, sort-All, append-All, contains-append}

contains-insert_sorted :
    (x : ℕ) (xs : List ℕ) (h : ℕ) → contains (insert_sorted x xs) h ≡ contains (x ∷ xs) h
unfolding insert_sorted
contains-insert_sorted x [] h = refl
contains-insert_sorted x (y ∷ ys) h = ground (arith, contains-insert_sorted x ys h)

contains-sort : (xs : List ℕ) (h : ℕ) → contains (sort xs) h ≡ contains xs h
unfolding sort
contains-sort [] h = refl
contains-sort (x ∷ xs) h = ground (arith, contains-insert_sorted x (sort xs) h, contains-sort xs h)

length-insert_sorted : (x : ℕ) (xs : List ℕ) → length (insert_sorted x xs) ≡ suc (length xs)
unfolding insert_sorted
length-insert_sorted x [] = refl
length-insert_sorted x (y ∷ ys) = ground (arith, length-insert_sorted x ys)

length-sort : (xs : List ℕ) → length (sort xs) ≡ length xs
unfolding sort
length-sort [] = refl
length-sort (x ∷ xs) = ground (arith, length-insert_sorted x (sort xs), length-sort xs)

All-contained :
    (xs ys : List ℕ)
    → ((h : ℕ) → contains xs h ≡ true → contains ys h ≡ true)
    → All (λ h. contains ys h ≡ true) xs
All-contained [] ys f = tt
All-contained (x ∷ xs) ys f = (f x (ground arith), All-contained xs ys (λ h on. f h (ground arith)))

module _ (hash : Bytes → ℕ) where
  -- The hash is mapped to a virtual node that it is the hash of, and is listed for the node.
  abbrev pub Mapped : (ℕ → Option Bytes) → (Bytes → Option (List ℕ)) → ℕ → Type 0
  Mapped ring_map node_vnodes h =
      (m : Bytes) × (i : ℕ) × (l : List ℕ) × (ring_map h ≡ some (vnode_id_of m i))
      × (hash (vnode_id_of m i) ≡ h)
      × (node_vnodes m ≡ some l)
      × (contains l h ≡ true)

  pub record IsValid (ch : ConsistentHasher) : Type 0 where
    pub sorted : IsSorted ch.ring
    pub mapped : All (Mapped ch.ring_map ch.node_vnodes) ch.ring

  module _ (node_id : Bytes) (old : Bytes → Option (List ℕ)) where
    abbrev registered : List ℕ → Bytes → Option (List ℕ)
    registered hashes k = if bytes_eq k node_id then some hashes else old k

    abbrev mapping : (ℕ → Option Bytes) → ℕ → ℕ → Option Bytes
    mapping ring_map i k =
        if k == hash (vnode_id_of node_id i) then some (vnode_id_of node_id i) else ring_map k

    new-Mapped :
        (ring_map : ℕ → Option Bytes) (i : ℕ) (hashes : List ℕ)
        → Mapped
            (mapping ring_map i)
            (registered (hashes ++ hash (vnode_id_of node_id i) ∷ []))
            (hash (vnode_id_of node_id i))
    new-Mapped ring_map i hashes =
        let h = hash (vnode_id_of node_id i) in
        (
          node_id,
          i,
          hashes ++ h ∷ [],
          ground arith,
          refl,
          ground (arith, bytes_eq_iff node_id node_id),
          ground (arith, contains-append hashes h h),
        )

    step-Mapped :
        (ring_map : ℕ → Option Bytes) (i : ℕ) (hashes : List ℕ) (h : ℕ)
        → Mapped ring_map (registered hashes) h
        → Mapped (mapping ring_map i) (registered (hashes ++ hash (vnode_id_of node_id i) ∷ [])) h
    step-Mapped ring_map i hashes h (m, j, l, at, is, listed, on) =
        let g = hash (vnode_id_of node_id i) in
        elim (Bool-cases (h == g)) [
          | inl same ↦
              subst (Mapped (mapping ring_map i) (registered (hashes ++ g ∷ []))) (ground arith)
                (new-Mapped ring_map i hashes)
          | inr other ↦ elim (Bool-cases (bytes_eq m node_id)) [
            | inl mine ↦ (
              m,
              j,
              hashes ++ g ∷ [],
              ground arith,
              is,
              rw mine refl,
              ground (arith, contains-append hashes g h),
            )
            | inr its ↦ (m, j, l, ground arith, is, ground arith, on)
          ]
        ]

    add_vnodes-Mapped :
        (todo i : ℕ) (ring : List ℕ) (ring_map : ℕ → Option Bytes) (hashes : List ℕ)
        → All (Mapped ring_map (registered hashes)) ring
        → All
            (Mapped
              (add_vnodes hash node_id todo i (ring, ring_map) hashes).1
              (registered (add_vnodes hash node_id todo i (ring, ring_map) hashes).2))
            (add_vnodes hash node_id todo i (ring, ring_map) hashes).0
    unfolding add_vnodes
    add_vnodes-Mapped zero i ring ring_map hashes all = all
    add_vnodes-Mapped (suc todo) i ring ring_map hashes all =
        let g = hash (vnode_id_of node_id i) in
        add_vnodes-Mapped todo (i + 1) (ring ++ g ∷ []) (mapping ring_map i) (hashes ++ g ∷ []) (
          append-All (Mapped (mapping ring_map i) (registered (hashes ++ g ∷ []))) ring (g ∷ [])
            (All-map (step-Mapped ring_map i hashes) ring all) (new-Mapped ring_map i hashes, tt))

    add_vnodes-keeps :
        (todo i : ℕ) (ring : List ℕ) (ring_map : ℕ → Option Bytes) (hashes : List ℕ) (h : ℕ)
        → contains ring h ≡ true
        → contains (add_vnodes hash node_id todo i (ring, ring_map) hashes).0 h ≡ true
    unfolding add_vnodes
    add_vnodes-keeps zero i ring ring_map hashes h on = on
    add_vnodes-keeps (suc todo) i ring ring_map hashes h on =
        let g = hash (vnode_id_of node_id i) in
        add_vnodes-keeps todo (i + 1) (ring ++ g ∷ []) (mapping ring_map i) (hashes ++ g ∷ []) h
          (ground (arith, contains-append ring g h))

    add_vnodes-adds :
        (todo i : ℕ) (ring : List ℕ) (ring_map : ℕ → Option Bytes) (hashes : List ℕ) (j : ℕ)
        → i ≤ j
        → j < i + todo
        → contains
            (add_vnodes hash node_id todo i (ring, ring_map) hashes).0
            (hash (vnode_id_of node_id j))
          ≡ true
    unfolding add_vnodes
    add_vnodes-adds zero i ring ring_map hashes j ge lt = absurd (omega (arith, ge, lt))
    add_vnodes-adds (suc todo) i ring ring_map hashes j ge lt =
        let g = hash (vnode_id_of node_id i) in
        elim (Bool-cases (i == j)) [
          | inl same ↦
              add_vnodes-keeps todo (i + 1) (ring ++ g ∷ []) (mapping ring_map i) (hashes ++ g ∷ [])
                (hash (vnode_id_of node_id j))
                (ground (arith, contains-append ring g (hash (vnode_id_of node_id j))))
          | inr other ↦
              add_vnodes-adds todo (i + 1) (ring ++ g ∷ []) (mapping ring_map i) (hashes ++ g ∷ [])
                j (ground arith) (omega (arith, lt))
        ]

    length-add_vnodes :
        (todo i : ℕ) (ring : List ℕ) (ring_map : ℕ → Option Bytes) (hashes : List ℕ)
        → length (add_vnodes hash node_id todo i (ring, ring_map) hashes).0 ≡ length ring + todo
    unfolding add_vnodes
    length-add_vnodes zero i ring ring_map hashes = omega arith
    length-add_vnodes (suc todo) i ring ring_map hashes =
        let g = hash (vnode_id_of node_id i) in
        omega (
          arith,
          length-append ring (g ∷ []),
          length-add_vnodes todo (i + 1) (ring ++ g ∷ []) (mapping ring_map i) (hashes ++ g ∷ []),
        )

  module _ (node_id : Bytes) (ch : ConsistentHasher) where
    fresh-Mapped :
        ch.node_vnodes node_id ≡ none
        → (h : ℕ) → Mapped ch.ring_map ch.node_vnodes h
        → Mapped ch.ring_map (registered node_id ch.node_vnodes []) h
    fresh-Mapped free h (m, j, l, at, is, listed, on) = elim (Bool-cases (bytes_eq m node_id)) [
      | inl mine ↦
          let same = (bytes_eq_iff m node_id).0 mine in
          absurd (cc (sym listed ∙ ap ch.node_vnodes same ∙ free))
      | inr its ↦ (m, j, l, at, is, rw its listed, on)
    ]

    pub add_node-keeps :
        (count h : ℕ)
        → contains ch.ring h ≡ true
        → contains (add_node hash node_id count ch).ring h ≡ true
    unfolding add_node
    add_node-keeps count h on =
        contains-sort (add_vnodes hash node_id count 0 (ch.ring, ch.ring_map) []).0 h
        ∙ add_vnodes-keeps node_id ch.node_vnodes count 0 ch.ring ch.ring_map [] h on

    -- Every virtual node of a node that has joined is on the ring.
    pub add_node-places :
        (count j : ℕ)
        → j < count
        → contains (add_node hash node_id count ch).ring (hash (vnode_id_of node_id j)) ≡ true
    unfolding add_node
    add_node-places count j lt =
        contains-sort (add_vnodes hash node_id count 0 (ch.ring, ch.ring_map) []).0
          (hash (vnode_id_of node_id j))
        ∙ add_vnodes-adds node_id ch.node_vnodes count 0 ch.ring ch.ring_map [] j (omega arith)
            (omega (arith, lt))

    -- A node that is not registered joins a valid ring: the ring stays valid, has one more hash for each
    -- of the virtual nodes, and still holds every hash that it held.
    pub add_node-IsValid :
        (count : ℕ)
        → IsValid ch
        → ch.node_vnodes node_id ≡ none
        → IsValid (add_node hash node_id count ch)
          × (length (add_node hash node_id count ch).ring ≡ length ch.ring + count)
          × All (λ h. contains (add_node hash node_id count ch).ring h ≡ true) ch.ring
    unfolding add_node
    add_node-IsValid count v free =
        let added = add_vnodes hash node_id count 0 (ch.ring, ch.ring_map) [] in
        (
          record {
            sorted = sort-IsSorted added.0;
            mapped = sort-All (Mapped added.1 (registered node_id ch.node_vnodes added.2)) added.0 (
                add_vnodes-Mapped node_id ch.node_vnodes count 0 ch.ring ch.ring_map []
                  (All-map (fresh-Mapped free) ch.ring v.mapped));
          },
          length-sort added.0
              ∙ length-add_vnodes node_id ch.node_vnodes count 0 ch.ring ch.ring_map [],
          All-contained ch.ring (add_node hash node_id count ch).ring (add_node-keeps count),
        )
