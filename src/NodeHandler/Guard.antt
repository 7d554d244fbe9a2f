-- ===== src/NodeHandler/Guard.antt =====
-- When a removal is refused.
use pair_db.Prelude.{
  ℕ, ◌-◌, ◌<◌, true, false, ltb, Option, none, some, String, str_eq, List, ◌≡◌, refl, arith,
  Bool-cases, inl, inr,
}
use pair_db.Bytes.{Bytes}
use pair_db.ByteMap.{ByteMap}
use pair_db.Topology.{StorageNode}
use pair_db.KeyRanges.{KeyRange}
use pair_db.MetadataStore.{list_storage_nodes}
use pair_db.NodeHandler.{Environment, Cluster, Assignments, get_storage_node, list_nodes}
use pair_db.NodeHandler.Removal.{
  RemoveResponse, refused, leaving, active_node_count, is_too_small, remove_counted, remove_found,
  remove_storage_node as remove_node,
}

-- The response is a refusal.
abbrev pub IsRefused : RemoveResponse → Type 0
IsRefused (refused code) = Unit
IsRefused (leaving node count change_id assignments) = ⊥

module _ (env : Environment) (encode : String → Bytes) (hash : Bytes → ℕ)
    (order : ByteMap ℕ → ByteMap ℕ) (visit : ByteMap (List KeyRange) → Assignments) where
  counted-IsRefused :
      (node : StorageNode) (c : Cluster)
      → active_node_count (list_storage_nodes c.store) < 4
      → let (c', nodes) = list_nodes env c in
        let r = remove_counted env encode hash order visit false node nodes c' in
        IsRefused r.1 × (r.0.store ≡ c.store) × (r.0.ring ≡ c.ring)
  unfolding list_nodes remove_counted is_too_small
  counted-IsRefused node c few = elim (Bool-cases (env.reaches c.calls)) [
    | inr failed ↦ rw failed (tt, refl, refl)
    | inl reached ↦
        let small : ltb (active_node_count (list_storage_nodes c.store) - 1) 3 ≡ true =
          ground arith in
        rw (reached, small) (tt, refl, refl)
  ]

  found-IsRefused :
      (found : Option StorageNode) (c : Cluster)
      → active_node_count (list_storage_nodes c.store) < 4
      → let r = remove_found env encode hash order visit false found c in
        IsRefused r.1 × (r.0.store ≡ c.store) × (r.0.ring ≡ c.ring)
  unfolding remove_found
  found-IsRefused none c few = (tt, refl, refl)
  found-IsRefused (some node) c few = counted-IsRefused node c few

  -- A request to remove a node, not forced, while fewer than four listed nodes are active or
  -- bootstrapping is refused and changes neither the metadata store nor the hash ring.
  pub remove-IsRefused :
      (node_id : String) (c : Cluster)
      → active_node_count (list_storage_nodes c.store) < 4
      → let r =
          remove_node env encode hash order visit (record { node_id = node_id; force = false }) c in
        IsRefused r.1 × (r.0.store ≡ c.store) × (r.0.ring ≡ c.ring)
  unfolding remove_node get_storage_node list_nodes
  remove-IsRefused node_id c few = elim (Bool-cases (str_eq node_id "")) [
    | inl unnamed ↦ rw unnamed (tt, refl, refl)
    | inr named ↦
        let (c', found) = get_storage_node env node_id c in rw named (found-IsRefused found c' few)
  ]
