-- ===== src/Ring/Leave.antt =====
-- A node that leaves the ring.
use pair_db.Prelude.{
  ℕ, List, [], Bool, true, false, not, Option, none, some, ◌≡◌, ◌≢◌, refl, ap, sym, subst, ◌∙◌,
  arith, All, All-map, All-select, select, Option-cases, inl, inr, if◌then◌else◌,
}
use pair_db.Bytes.{Bytes, bytes_eq, bytes_eq_iff}
use pair_db.Ring.{ConsistentHasher, vnode_id_of, extract_node_id, contains, remove_node, node_at}
use pair_db.Ring.Sorted.{select-IsSorted}
use pair_db.Ring.VnodeId.{extract-vnode}
use pair_db.Ring.Nodes.{Mapped, IsValid}

module _ (hash : Bytes → ℕ) (node_id : Bytes) (ch : ConsistentHasher) where
  -- A hash of another node.
  abbrev Without : ConsistentHasher → Type 0
  Without c = IsValid hash c × All (λ h. node_at c h ≢ node_id) c.ring

  other_node :
      (c : ConsistentHasher) (h : ℕ) (m : Bytes) (i : ℕ)
      → c.ring_map h ≡ some (vnode_id_of m i)
      → m ≢ node_id
      → node_at c h ≢ node_id
  other_node c h m i at other same =
      let node : node_at c h ≡ m =
        ap (λ (o : Option Bytes). extract_node_id (elim o [ none ↦ [] | some v ↦ v ])) at
        ∙ (extract-vnode m i i).0 in
      other (sym node ∙ same)

  without : List ℕ → ConsistentHasher
  without hashes = record {
    ring = select (λ h. not (contains hashes h)) ch.ring;
    ring_map = λ k. if contains hashes k then none else ch.ring_map k;
    node_vnodes = λ k. if bytes_eq k node_id then none else ch.node_vnodes k;
  }

  kept-Mapped :
      (hashes : List ℕ)
      → ch.node_vnodes node_id ≡ some hashes
      → (h : ℕ) → Mapped hash ch.ring_map ch.node_vnodes h
      → not (contains hashes h) ≡ true
      → Mapped hash (without hashes).ring_map (without hashes).node_vnodes h
        × (node_at (without hashes) h ≢ node_id)
  unfolding without
  kept-Mapped hashes is_listed h (m, j, l, at, is, listed, on) kept =
      let gone : contains hashes h ≡ false = ground arith in
      let differs : m ≢ node_id = λ same.
        let one : some l ≡ some hashes = sym listed ∙ ap ch.node_vnodes same ∙ is_listed in
        ground (arith, one) in
      let other : bytes_eq m node_id ≡ false = ground (arith, bytes_eq_iff m node_id) in
      let at' : (without hashes).ring_map h ≡ some (vnode_id_of m j) = rw gone at in
      ((m, j, l, at', is, rw other listed, on), other_node (without hashes) h m j at' differs)

  without-Without :
      (hashes : List ℕ)
      → ch.node_vnodes node_id ≡ some hashes
      → IsValid hash ch
      → Without (without hashes)
  unfolding without
  without-Without hashes is_listed v =
      let kept = kept-Mapped hashes is_listed in
      let p : ℕ → Bool = λ h. not (contains hashes h) in
      (
        record {
          sorted = select-IsSorted p ch.ring v.sorted;
          mapped =
              All-select (Mapped hash (without hashes).ring_map (without hashes).node_vnodes) p
                (λ h b k. (kept h b k).0) ch.ring v.mapped;
        },
        All-select (λ h. node_at (without hashes) h ≢ node_id) p (λ h b k. (kept h b k).1) ch.ring
            v.mapped,
      )

  unlisted_node :
      ch.node_vnodes node_id ≡ none
      → (h : ℕ) → Mapped hash ch.ring_map ch.node_vnodes h
      → node_at ch h ≢ node_id
  unlisted_node free h (m, j, l, at, is, listed, on) =
      other_node ch h m j at (λ same. cc (sym listed ∙ ap ch.node_vnodes same ∙ free))

  -- A node leaves a valid ring: the ring stays valid, and no hash on it belongs to the node.
  remove_node-IsValid :
      IsValid hash ch
      → IsValid hash (remove_node node_id ch)
        × All (λ h. node_at (remove_node node_id ch) h ≢ node_id) (remove_node node_id ch).ring
  unfolding remove_node without
  remove_node-IsValid v = elim (Option-cases (ch.node_vnodes node_id)) [
    | inl free ↦
        let same : ch ≡ remove_node node_id ch = rw (free, remove_node) refl in
        subst Without same (v, All-map (unlisted_node free) ch.ring v.mapped)
    | inr (hashes, listed) ↦
        let same : without hashes ≡ remove_node node_id ch = rw (listed, remove_node) refl in
        subst Without same (without-Without hashes listed v)
  ]
