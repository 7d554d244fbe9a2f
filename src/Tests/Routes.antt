-- ===== src/Tests/Routes.antt =====
-- Routing on the cluster of three nodes.
use pair_db.Prelude.{
  ℕ, ◌+◌, String, List, [], ◌∷◌, true, some, ◌≡◌, refl, All, length, str_eq, if◌then◌else◌,
}
use pair_db.Bytes.{Bytes, decimal}
use pair_db.ByteMap.{find, insert}
use pair_db.Ring.{ConsistentHasher, new_hasher, add_node, get_nodes, extract_node_id}
use pair_db.Topology.{StorageNode, NodeState}
use pair_db.Routing.{
  resolved, serves, is_on_ring, resolve, enough, fill_node_map, serving, pick_serving,
  composite_key, ring_nodes, resolve_listed, get_write_replicas, get_read_replicas, add_all,
  update_hash_ring,
}
use pair_db.Routing.Distinct.{Apart, replicas-Apart}
use pair_db.Tests.Data.{node, three}

routing : Unit {0}
unfolding decimal extract_node_id add_node get_nodes find insert serves is_on_ring resolve enough
    fill_node_map serving pick_serving composite_key ring_nodes resolve_listed get_write_replicas
    get_read_replicas add_all update_hash_ring
routing = tt

abbrev pub name_bytes : String → Bytes
name_bytes s = if str_eq s "a" then b'a' ∷ [] else if str_eq s "b" then b'b' ∷ [] else b'c' ∷ []

-- A hash that adds the bytes up.
abbrev pub weigh : Bytes → ℕ
weigh [] = 0
weigh (b ∷ bs) = b + weigh bs

abbrev full_ring : ConsistentHasher
full_ring = (update_hash_ring name_bytes weigh (some three) new_hasher).0

pair : List StorageNode
pair = node "a" ∷ node "b" ∷ []

pair_run : get_write_replicas name_bytes weigh full_ring (some three) "a" "b" 2 ≡ resolved pair
unfolding routing pair
pair_run = refl

replicas-Apart_example :
    (length pair ≡ 2)
    × Apart name_bytes pair
    × All
        (λ n.
          (find (name_bytes n.node_id) (fill_node_map name_bytes [] three) ≡ some n)
          × (serves n.state ≡ true))
        pair
    × (get_read_replicas name_bytes weigh full_ring (some three) "a" "b" 2 ≡ resolved pair)
replicas-Apart_example = replicas-Apart name_bytes weigh full_ring three pair "a" "b" 2 pair_run

-- A node that is added: its status is active, its state still BOOTSTRAPPING.
abbrev joining : StorageNode
joining = record (node "b") { state = NodeState.bootstrapping }
