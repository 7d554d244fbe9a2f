-- ===== src/Routing.antt =====
-- coordinator/internal/service/routing_service.go: the replicas of a key, from the hash ring and the
-- nodes that the metadata store lists (`none` if it cannot). A node ID is text in the store and bytes on
-- the ring, and `encode` its bytes. The store is read once in a call; `hash` is that of the ring.
pub mod Distinct
pub mod Refresh
use pair_db.Prelude.{
  ℕ, suc, Option, none, some, Bool, true, false, ltb, ◌||◌, if◌then◌else◌, String, List, [], ◌∷◌,
  ◌++◌, length, select, count_if,
}
use pair_db.Bytes.{Bytes, bytes_eq}
use pair_db.ByteMap.{ByteMap, find, insert}
use pair_db.Ring.{ConsistentHasher, VirtualNode, new_hasher, add_node, remove_node, get_nodes}
use pair_db.Topology.{StorageNode, NodeState, NodeStatus, is_normal, is_active}

pub data Replicas : Type 0 where
  resolved : List StorageNode → Replicas
  insufficient : ℕ → ℕ → Replicas
  list_failed : Replicas
  unresolved : ℕ → ℕ → Replicas

-- NORMAL, BOOTSTRAPPING or LEAVING
unfoldable pub serves : NodeState → Bool
serves NodeState.down = false
serves _ = true

-- active or bootstrapping
unfoldable pub is_on_ring : NodeStatus → Bool
is_on_ring NodeStatus.active = true
is_on_ring NodeStatus.bootstrapping = true
is_on_ring _ = false

-- seenNodes[id]
abbrev pub is_seen : List Bytes → Bytes → Bool
is_seen [] id = false
is_seen (x ∷ xs) id = bytes_eq x id || is_seen xs id

abbrev pub keep : Option StorageNode → List StorageNode → List StorageNode
keep none rest = rest
keep (some node) rest = node ∷ rest

-- The loop over the virtual nodes; `pick` finds the storage node of an ID, if it is to be used.
unfoldable pub resolve :
    (Bytes → Option StorageNode) → List VirtualNode → List Bytes → List StorageNode
resolve pick [] seen = []
resolve pick (v ∷ vs) seen =
    let repeated = is_seen seen v.node_id in
    let rest = resolve pick vs (if repeated then seen else v.node_id ∷ seen) in
    if repeated then rest else keep (pick v.node_id) rest

unfoldable pub enough : ℕ → List StorageNode → Replicas
enough replication_factor nodes =
    if ltb (length nodes) replication_factor
    then unresolved replication_factor (length nodes)
    else resolved nodes

unfoldable pub count_active_replicas : List StorageNode → ℕ
count_active_replicas = count_if (λ node. is_active node.status)

unfoldable pub get_authoritative_replicas : List StorageNode → List StorageNode
get_authoritative_replicas = select (λ node. is_normal node.state)

unfoldable pub count_authoritative_replicas : List StorageNode → ℕ
count_authoritative_replicas = count_if (λ node. is_normal node.state)

module _ (encode : String → Bytes) where
  unfoldable pub fill_node_map : ByteMap StorageNode → List StorageNode → ByteMap StorageNode
  fill_node_map m [] = m
  fill_node_map m (node ∷ nodes) = fill_node_map (insert (encode node.node_id) node m) nodes

  unfoldable pub serving : Option StorageNode → Option StorageNode
  serving none = none
  serving (some node) = if serves node.state then some node else none

  unfoldable pub pick_serving : List StorageNode → Bytes → Option StorageNode
  pick_serving nodes id = serving (find id (fill_node_map [] nodes))

  unfoldable pub pick_on_ring : List StorageNode → Bytes → Option StorageNode
  pick_on_ring [] id = none
  pick_on_ring (node ∷ nodes) id =
      let rest = pick_on_ring nodes id in
      if bytes_eq (encode node.node_id) id
      then (if is_on_ring node.status then some node else rest)
      else rest

  unfoldable pub composite_key : String → String → Bytes
  composite_key tenant_id key = encode tenant_id ++ b':' ∷ encode key

  module _ (hash : Bytes → ℕ) where
    unfoldable pub ring_nodes : ConsistentHasher → String → String → ℕ → List VirtualNode
    ring_nodes ring tenant_id key replication_factor =
        get_nodes ring (hash (composite_key tenant_id key)) replication_factor

    unfoldable pub resolve_listed : ℕ → List VirtualNode → Option (List StorageNode) → Replicas
    resolve_listed replication_factor vnodes none = list_failed
    resolve_listed replication_factor vnodes (some nodes) =
        enough replication_factor (resolve (pick_serving nodes) vnodes [])

    unfoldable pub get_write_replicas :
        ConsistentHasher → Option (List StorageNode) → String → String → ℕ → Replicas
    get_write_replicas ring listed tenant_id key replication_factor =
        let vnodes = ring_nodes ring tenant_id key replication_factor in
        if ltb (length vnodes) replication_factor
        then insufficient replication_factor (length vnodes)
        else resolve_listed replication_factor vnodes listed

    unfoldable pub get_read_replicas :
        ConsistentHasher → Option (List StorageNode) → String → String → ℕ → Replicas
    get_read_replicas ring listed tenant_id key replication_factor =
        let vnodes = ring_nodes ring tenant_id key replication_factor in
        if ltb (length vnodes) replication_factor
        then insufficient replication_factor (length vnodes)
        else resolve_listed replication_factor vnodes listed

    -- A store that cannot list its nodes leaves each virtual node unresolved.
    unfoldable pub pick_listed : Option (List StorageNode) → Bytes → Option StorageNode
    pick_listed none id = none
    pick_listed (some nodes) id = pick_on_ring nodes id

    unfoldable pub get_replicas :
        ConsistentHasher → Option (List StorageNode) → String → String → ℕ → Replicas
    get_replicas ring listed tenant_id key replication_factor =
        let vnodes = ring_nodes ring tenant_id key replication_factor in
        if ltb (length vnodes) replication_factor
        then insufficient replication_factor (length vnodes)
        else enough replication_factor (resolve (pick_listed listed) vnodes [])

    unfoldable pub add_all : List StorageNode → ConsistentHasher → ConsistentHasher
    add_all [] ring = ring
    add_all (node ∷ nodes) ring =
        add_all nodes (add_node hash (encode node.node_id) node.virtual_nodes ring)

    -- The ring after updateHashRing, and whether it returned no error.
    unfoldable pub update_hash_ring :
        Option (List StorageNode) → ConsistentHasher → ConsistentHasher × Bool
    update_hash_ring none ring = (ring, false)
    update_hash_ring (some nodes) ring =
        (add_all (select (λ node. is_on_ring node.status) nodes) new_hasher, true)

    -- AddNode and RemoveNode of the service
    unfoldable pub route_add : StorageNode → ConsistentHasher → ConsistentHasher
    route_add node ring = add_node hash (encode node.node_id) node.virtual_nodes ring

    unfoldable pub route_remove : String → ConsistentHasher → ConsistentHasher
    route_remove node_id ring = remove_node (encode node_id) ring
