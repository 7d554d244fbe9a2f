-- ===== src/Routing/Distinct.antt =====
-- The replicas that a lookup resolves are as many as asked for, different, and in a state to serve.
use pair_db.Prelude.{
  ℕ, ◌≤◌, Option, none, some, true, false, if◌then◌else◌, String, List, [], ◌∷◌, length, All,
  All-map, ◌≡◌, arith, inl, inr, Bool-cases, Option-cases, sym, subst, ap,
}
use pair_db.Bytes.{Bytes, bytes_eq, bytes_eq_iff}
use pair_db.ByteMap.{ByteMap, find, insert, find-insert}
use pair_db.Ring.{ConsistentHasher, VirtualNode}
use pair_db.Ring.Walk.{length-get_nodes}
use pair_db.Topology.{StorageNode}
use pair_db.Routing.{
  resolved, serves, is_seen, resolve, enough, fill_node_map, serving, pick_serving, ring_nodes,
  resolve_listed, get_write_replicas, get_read_replicas,
}

module _ (encode : String → Bytes) where
  -- No two nodes of one ID.
  abbrev pub Apart : List StorageNode → Type 0
  Apart [] = Unit
  Apart (n ∷ ns) = All (λ m. bytes_eq (encode n.node_id) (encode m.node_id) ≡ false) ns × Apart ns

  module _ (pick : Bytes → Option StorageNode)
      (picks : (id : Bytes) (n : StorageNode) → pick id ≡ some n → encode n.node_id ≡ id) where
    length-resolve :
        (vs : List VirtualNode) (seen : List Bytes) → length (resolve pick vs seen) ≤ length vs
    unfolding resolve
    length-resolve [] seen = omega arith
    length-resolve (v ∷ vs) seen =
        ground
          (arith, length-resolve vs (if is_seen seen v.node_id then seen else v.node_id ∷ seen))

    -- The nodes found are new, different, and picked.
    resolve_lem :
        (vs : List VirtualNode) (seen : List Bytes)
        → All
            (λ n. (is_seen seen (encode n.node_id) ≡ false) × (pick (encode n.node_id) ≡ some n))
            (resolve pick vs seen)
          × Apart (resolve pick vs seen)
    unfolding resolve
    resolve_lem [] seen = (tt, tt)
    resolve_lem (v ∷ vs) seen = elim (Bool-cases (is_seen seen v.node_id)) [
      | inl repeated ↦ rw repeated (resolve_lem vs seen)
      | inr new ↦
          let rest = resolve_lem vs (v.node_id ∷ seen) in
          let older =
            All-map
              (λ n
                  (p : (is_seen (v.node_id ∷ seen) (encode n.node_id) ≡ false)
                    × (pick (encode n.node_id) ≡ some n)).
                let q : (is_seen seen (encode n.node_id) ≡ false)
                    × (pick (encode n.node_id) ≡ some n) =
                  (ground (arith, p.0), p.1) in
                q)
              (resolve pick vs (v.node_id ∷ seen)) rest.0 in
          elim (Option-cases (pick v.node_id)) [
            | inl absent ↦ rw (new, absent) (older, rest.1)
            | inr (n, found) ↦
                let same = picks v.node_id n found in
                rw (new, found)
                  (
                    ((rw same new, rw same found), older),
                    (
                      All-map
                          (λ m p.
                            subst (λ x. bytes_eq x (encode m.node_id) ≡ false) (sym same)
                              (ground (arith, p.0)))
                          (resolve pick vs (v.node_id ∷ seen)) rest.0,
                      rest.1,
                    ),
                  )
          ]
    ]

  -- Every node of the map is under its ID.
  fill_node_map-keyed :
      (nodes : List StorageNode) (m : ByteMap StorageNode)
      → ((id : Bytes) (n : StorageNode) → find id m ≡ some n → encode n.node_id ≡ id)
      → (id : Bytes) (n : StorageNode) → find id (fill_node_map encode m nodes) ≡ some n
      → encode n.node_id ≡ id
  unfolding fill_node_map
  fill_node_map-keyed [] m keyed id n found = keyed id n found
  fill_node_map-keyed (x ∷ nodes) m keyed id n found =
      fill_node_map-keyed nodes (insert (encode x.node_id) x m)
        (λ j k there. ground (
          arith,
          find-insert (encode x.node_id) j x m,
          bytes_eq_iff (encode x.node_id) j,
          keyed j k,
        ))
        id n found

  serving_lem :
      (o : Option StorageNode) (n : StorageNode)
      → serving encode o ≡ some n
      → (o ≡ some n) × (serves n.state ≡ true)
  unfolding serving
  serving_lem none n e = ground arith
  serving_lem (some k) n e = elim (Bool-cases (serves k.state)) [
    | inl yes_serves ↦
        let same : k ≡ n = ground (arith, yes_serves) in
        (ap some same, subst (λ (x : StorageNode). serves x.state ≡ true) same yes_serves)
    | inr no_serves ↦ absurd (ground (arith, no_serves))
  ]

  pick_serving_lem :
      (nodes : List StorageNode) (id : Bytes) (n : StorageNode)
      → pick_serving encode nodes id ≡ some n
      → (find id (fill_node_map encode [] nodes) ≡ some n) × (serves n.state ≡ true)
  unfolding pick_serving
  pick_serving_lem nodes id n picked =
      serving_lem (find id (fill_node_map encode [] nodes)) n picked

  pick_serving-keyed :
      (nodes : List StorageNode) (id : Bytes) (n : StorageNode)
      → pick_serving encode nodes id ≡ some n
      → encode n.node_id ≡ id
  pick_serving-keyed nodes id n picked =
      fill_node_map-keyed nodes [] (λ j k none_there. unfold find in ground arith) id n
        (pick_serving_lem nodes id n picked).0

  -- Where GetWriteReplicas returns replicas, there are as many as asked for, no two of them of one
  -- ID, and each is the last node that the store lists under its ID and NORMAL, BOOTSTRAPPING or
  -- LEAVING. GetReadReplicas returns the same.
  pub replicas-Apart :
      (hash : Bytes → ℕ) (ring : ConsistentHasher) (nodes replicas : List StorageNode)
      (tenant_id key : String) (replication_factor : ℕ)
      → get_write_replicas encode hash ring (some nodes) tenant_id key replication_factor
        ≡ resolved replicas
      → (length replicas ≡ replication_factor)
        × Apart replicas
        × All
            (λ n.
              (find (encode n.node_id) (fill_node_map encode [] nodes) ≡ some n)
              × (serves n.state ≡ true))
            replicas
        × (get_read_replicas encode hash ring (some nodes) tenant_id key replication_factor
            ≡ resolved replicas)
  unfolding get_write_replicas get_read_replicas resolve_listed enough
  replicas-Apart hash ring nodes replicas tenant_id key rf done =
      let vnodes = ring_nodes encode hash ring tenant_id key rf in
      let found = resolve (pick_serving encode nodes) vnodes [] in
      let lem = resolve_lem (pick_serving encode nodes) (pick_serving-keyed nodes) vnodes [] in
      let few = length-resolve (pick_serving encode nodes) (pick_serving-keyed nodes) vnodes [] in
      let most : length vnodes ≤ rf = unfold ring_nodes in length-get_nodes ring _ rf in
      let result : (found ≡ replicas) × (rf ≤ length found) = ground (arith, done) in
      let Good = λ (r : List StorageNode).
        (length r ≡ rf)
        × Apart r
        × All
            (λ n.
              (find (encode n.node_id) (fill_node_map encode [] nodes) ≡ some n)
              × (serves n.state ≡ true))
            r in
      let good : Good found = (
        omega (arith, result.1, few, most),
        lem.1,
        All-map (λ n p. pick_serving_lem nodes (encode n.node_id) n p.1) found lem.0,
      ) in
      let base = subst Good result.0 good in (base.0, base.1, base.2, done)
