-- ===== src/NodeHandler/Started.antt =====
-- The streams that a request to add a node starts, and where the node is before they have run.
use pair_db.Prelude.{
  ℕ, ◌<◌, true, not, none, some, String, List, [], map, ◌≡◌, refl, arith, ◌⊎◌, All, Any, inl, inr,
  ap, sym, subst,
}
use pair_db.Bytes.{Bytes}
use pair_db.ByteMap.{ByteMap}
use pair_db.Topology.{StorageNode, NodeStatus, RangeInfo}
use pair_db.KeyRanges.{KeyRange}
use pair_db.MetadataStore
use pair_db.MetadataStore.{NodeRow, find_row, is_inactive, list_storage_nodes}
use pair_db.NodeHandler.{Environment, Cluster, start_streaming, Assignments, find_node, wait_tick}
use pair_db.NodeHandler.Addition.{
  AddStorageNodeRequest, AddResponse, refused, added, new_node, pending_ranges, add_storage_node,
}
use pair_db.NodeHandler.Added.{Answers, add_storage_node-Answers}
use pair_db.NodeHandler.Rollback.{select-Any, find_row-Any}
use pair_db.Routing.{is_on_ring, update_hash_ring}
use pair_db.Routing.Refresh.{update_hash_ring-places}
use pair_db.Ring.{contains, vnode_id_of}

module _ (env : Environment) (node : StorageNode) where
  -- The source is not in the store, or was asked to stream the ranges to the node.
  abbrev pub IsStarted : Cluster → String × List KeyRange → Type 0
  IsStarted c (source, ranges) =
      (find_node env source (list_storage_nodes c.store) ≡ none)
      ⊎ Any (λ s. s ≡ start_streaming source node.node_id node.host node.port ranges) c.requests

module _ (env : Environment) (up : (n : ℕ) → env.reaches n ≡ true) (node : StorageNode) where
  -- what holds of the streams after a response
  abbrev Starts : AddResponse → Cluster → Type 0
  Starts (refused code) c' = Unit
  Starts (added n count change_id assignments) c' = All (IsStarted env node c') assignments

-- A node that is stored as a request adds it is placed by a rebuild of the ring.
new_node-placed :
    (encode : String → Bytes) (hash : Bytes → ℕ) (req : AddStorageNodeRequest) (n : StorageNode)
    (pending : List RangeInfo) (c : Cluster) (j : ℕ)
    → n ≡ new_node req
    → find_row (new_node req).node_id c.store.storage_nodes
      ≡ some (record { node = new_node req; pending_ranges = pending; leaving_ranges = [] })
    → j < n.virtual_nodes
    → contains
        (update_hash_ring encode hash (some (list_storage_nodes c.store)) c.ring).0.ring
        (hash (vnode_id_of (encode n.node_id) j))
      ≡ true
new_node-placed encode hash req n pending c j same stored lt =
    let node = new_node req in
    let row : NodeRow = record { node = node; pending_ranges = pending; leaving_ranges = [] } in
    let active : node.status ≡ NodeStatus.active = unfold new_node in refl in
    let listed : Any (λ m. m ≡ node) (list_storage_nodes c.store) =
      unfold list_storage_nodes in
      select-Any (λ m. not (is_inactive m.status)) node
        (map (λ (r : NodeRow). r.node) c.store.storage_nodes) (rw active refl)
        (find_row-Any node.node_id row c.store.storage_nodes stored) in
    subst
      (λ m.
        j < m.virtual_nodes
        → contains (update_hash_ring encode hash (some (list_storage_nodes c.store)) c.ring).0.ring
            (hash (vnode_id_of (encode m.node_id) j))
          ≡ true)
      (sym same)
      (λ below.
        (update_hash_ring-places encode hash (list_storage_nodes c.store) node c.ring j listed
          (unfold is_on_ring in rw active refl) below).1)
      lt

-- A node that a request has added is on the hash ring after the first wait of its monitor, before any
-- stream can be reported as complete, if the ring is rebuilt in that wait: each virtual node of it is placed.
pub add_storage_node-places :
    (env : Environment) (encode : String → Bytes) (hash : Bytes → ℕ) (order : ByteMap ℕ → ByteMap ℕ)
    (visit : ByteMap (List KeyRange) → Assignments) (req : AddStorageNodeRequest) (c : Cluster)
    (n : StorageNode) (count : ℕ) (change_id : String) (assignments : Assignments) (j : ℕ)
    → let r = add_storage_node env encode hash order visit req c in
      r.1 ≡ added n count change_id assignments
      → env.refreshes r.0.calls ≡ true
      → j < n.virtual_nodes
      → contains
          (wait_tick env encode hash r.0).0.ring.ring
          (hash (vnode_id_of (encode n.node_id) j))
        ≡ true
unfolding wait_tick
add_storage_node-places env encode hash order visit req c n count change_id assignments j e ticks
      lt =
    let r = add_storage_node env encode hash order visit req c in
    elim (add_storage_node-Answers env encode hash order visit req c) [
      | inl (incomplete, refuses) ↦ absurd (ground (arith, e, ap (λ x. x.1) refuses))
      | inr answers ↦
          let (same, _, _, _, stored, _) =
            subst (λ a. Answers env encode hash order visit (new_node req) c a r.0) e answers in
          rw ticks (new_node-placed encode hash req n _ r.0 j same stored lt)
    ]
