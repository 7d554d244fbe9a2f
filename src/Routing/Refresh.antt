-- ===== src/Routing/Refresh.antt =====
-- The rebuild of the hash ring from the nodes that the metadata store lists.
use pair_db.Prelude.{
  ℕ, ◌<◌, some, true, String, List, [], ◌∷◌, select, ◌≡◌, refl, inl, inr, Bool-cases, sym, subst,
  Any,
}
use pair_db.Bytes.{Bytes}
use pair_db.Ring.{ConsistentHasher, new_hasher, add_node, contains, vnode_id_of}
use pair_db.Ring.Nodes.{add_node-keeps, add_node-places}
use pair_db.Topology.{StorageNode}
use pair_db.Routing.{is_on_ring, add_all, update_hash_ring}

module _ (encode : String → Bytes) (hash : Bytes → ℕ) where
  add_all-keeps :
      (nodes : List StorageNode) (ring : ConsistentHasher) (h : ℕ)
      → contains ring.ring h ≡ true
      → contains (add_all encode hash nodes ring).ring h ≡ true
  unfolding add_all
  add_all-keeps [] ring h on = on
  add_all-keeps (x ∷ nodes) ring h on =
      add_all-keeps nodes (add_node hash (encode x.node_id) x.virtual_nodes ring) h
        (add_node-keeps hash (encode x.node_id) ring x.virtual_nodes h on)

  add_all-places :
      (node : StorageNode) (nodes : List StorageNode) (ring : ConsistentHasher) (j : ℕ)
      → is_on_ring node.status ≡ true
      → j < node.virtual_nodes
      → Any (λ n. n ≡ node) nodes
      → contains
          (add_all encode hash (select (λ n. is_on_ring n.status) nodes) ring).ring
          (hash (vnode_id_of (encode node.node_id) j))
        ≡ true
  unfolding add_all
  add_all-places node [] ring j up lt there = absurd there
  add_all-places node (x ∷ nodes) ring j up lt (inl same) =
      let OnRing = λ (n : StorageNode).
        contains (add_all encode hash (select (λ n. is_on_ring n.status) (n ∷ nodes)) ring).ring
          (hash (vnode_id_of (encode node.node_id) j))
        ≡ true in
      subst OnRing (sym same) (
        rw up (
          add_all-keeps (select (λ n. is_on_ring n.status) nodes)
            (add_node hash (encode node.node_id) node.virtual_nodes ring)
            (hash (vnode_id_of (encode node.node_id) j))
            (add_node-places hash (encode node.node_id) ring node.virtual_nodes j lt)))
  add_all-places node (x ∷ nodes) ring j up lt (inr later) =
      elim (Bool-cases (is_on_ring x.status)) [
        | inl on ↦ rw on (
            add_all-places node nodes (add_node hash (encode x.node_id) x.virtual_nodes ring) j up
              lt later)
        | inr off ↦ rw off (add_all-places node nodes ring j up lt later)
      ]

  -- After a rebuild that could list the nodes, every virtual node of a listed node whose status is
  -- active or bootstrapping is on the ring, whatever the node's state is.
  pub update_hash_ring-places :
      (nodes : List StorageNode) (node : StorageNode) (ring : ConsistentHasher) (j : ℕ)
      → Any (λ n. n ≡ node) nodes
      → is_on_ring node.status ≡ true
      → j < node.virtual_nodes
      → ((update_hash_ring encode hash (some nodes) ring).1 ≡ true)
        × (contains
              (update_hash_ring encode hash (some nodes) ring).0.ring
              (hash (vnode_id_of (encode node.node_id) j))
            ≡ true)
  unfolding update_hash_ring
  update_hash_ring-places nodes node ring j there up lt =
      (refl, add_all-places node nodes new_hasher j up lt there)
