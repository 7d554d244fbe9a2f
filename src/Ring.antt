-- ===== src/Ring.antt =====
-- `ConsistentHasher` of coordinator/internal/algorithm/consistent_hash.go: the ring of virtual nodes.
-- SHA-256 is a parameter `hash`. `sort.Slice` on numbers has one result, the sorted list, and
-- `sort.Search` returns the first index where its test holds, or the length.
pub mod VnodeId
pub mod Sorted
pub mod Owner
pub mod Nodes
pub mod Leave
pub mod Walk
use pair_db.Prelude.{
  ℕ, suc, zero, ◌+◌, ◌-◌, ◌%◌, List, [], ◌∷◌, ◌++◌, Bool, true, false, ltb, leb, ◌==◌,
  if◌then◌else◌, not, ◌||◌, Option, none, some, length, get_or, take, select,
}
use pair_db.Bytes.{Bytes, bytes_eq, slice, decimal}

-- "-vnode-"
abbrev pub vnode_suffix : Bytes
vnode_suffix = 45 ∷ 118 ∷ 110 ∷ 111 ∷ 100 ∷ 101 ∷ 45 ∷ []

-- fmt.Sprintf("%s-vnode-%d", nodeID, i)
abbrev pub vnode_id_of : Bytes → ℕ → Bytes
vnode_id_of node_id i = node_id ++ (vnode_suffix ++ decimal i)

-- the loop of `extractNodeID`, from index `idx - 1` down
extract_from : Bytes → ℕ → Bytes
extract_from vnode_id zero = vnode_id
extract_from vnode_id (suc idx) =
    let rest = extract_from vnode_id idx in
    if bytes_eq (slice idx 7 vnode_id) vnode_suffix then take idx vnode_id else rest

unfoldable pub extract_node_id : Bytes → Bytes
unfolding extract_from
extract_node_id vnode_id = extract_from vnode_id (length vnode_id + 1 - 7)

pub record VirtualNode : Type 0 where
  pub vnode_id : Bytes
  pub hash : ℕ
  pub node_id : Bytes

pub record ConsistentHasher : Type 0 where
  pub ring : List ℕ
  pub ring_map : ℕ → Option Bytes
  pub node_vnodes : Bytes → Option (List ℕ)

-- `NewConsistentHasher`, and what `Clear` sets
abbrev pub new_hasher : ConsistentHasher
new_hasher = record { ring = []; ring_map = λ _. none; node_vnodes = λ _. none }

insert_sorted : ℕ → List ℕ → List ℕ
insert_sorted x [] = x ∷ []
insert_sorted x (y ∷ ys) = let rest = insert_sorted x ys in if leb x y then x ∷ y ∷ ys else y ∷ rest

-- sort.Slice(ring, <)
pub sort : List ℕ → List ℕ
unfolding insert_sorted
sort [] = []
sort (x ∷ xs) = insert_sorted x (sort xs)

module _ (hash : Bytes → ℕ) where
  -- The loop of `AddNode`, with `todo` rounds to go from round `i` on: the ring, the map and the hashes.
  add_vnodes :
      Bytes → ℕ → ℕ → List ℕ × (ℕ → Option Bytes) → List ℕ → List ℕ × (ℕ → Option Bytes) × List ℕ
  add_vnodes node_id zero i (ring, ring_map) hashes = (ring, ring_map, hashes)
  add_vnodes node_id (suc todo) i (ring, ring_map) hashes =
      let vnode_id = vnode_id_of node_id i in
      let h = hash vnode_id in
      add_vnodes node_id todo (i + 1)
        (ring ++ h ∷ [], λ k. if k == h then some vnode_id else ring_map k) (hashes ++ h ∷ [])

  unfoldable pub add_node : Bytes → ℕ → ConsistentHasher → ConsistentHasher
  unfolding add_vnodes sort
  add_node node_id virtual_node_count ch =
      let (ring, ring_map, hashes) =
        add_vnodes node_id virtual_node_count 0 (ch.ring, ch.ring_map) [] in
      record {
        ring = sort ring;
        ring_map = ring_map;
        node_vnodes = λ k. if bytes_eq k node_id then some hashes else ch.node_vnodes k;
      }

-- hashSet[hash]
abbrev pub contains : List ℕ → ℕ → Bool
contains [] h = false
contains (x ∷ xs) h = h == x || contains xs h

unfoldable pub remove_node : Bytes → ConsistentHasher → ConsistentHasher
remove_node node_id ch = elim (ch.node_vnodes node_id) [
  | none ↦ ch
  | some hashes ↦ record {
    ring = select (λ h. not (contains hashes h)) ch.ring;
    ring_map = λ k. if contains hashes k then none else ch.ring_map k;
    node_vnodes = λ k. if bytes_eq k node_id then none else ch.node_vnodes k;
  }
]

-- sort.Search: the first index whose hash is at least the key's, or the length
pub search : List ℕ → ℕ → ℕ
search [] key_hash = 0
search (h ∷ ring) key_hash =
    let rest = search ring key_hash in if leb key_hash h then 0 else suc rest

-- The index of the key's successor, wrapped around.
pub successor : List ℕ → ℕ → ℕ
unfolding search
successor ring key_hash = let idx = search ring key_hash in if leb (length ring) idx then 0 else idx

-- ch.ringMap[hash], and the node of that virtual node
abbrev pub vnode_at : ConsistentHasher → ℕ → Bytes
vnode_at ch h = elim (ch.ring_map h) [ none ↦ [] | some vnode_id ↦ vnode_id ]

abbrev pub node_at : ConsistentHasher → ℕ → Bytes
node_at ch h = extract_node_id (vnode_at ch h)

abbrev pub virtual_node : ConsistentHasher → ℕ → VirtualNode
virtual_node ch h = record { vnode_id = vnode_at ch h; hash = h; node_id = node_at ch h }

-- The loop of `GetNodes`, with `todo` rounds to go from round `i` on.
walk : ConsistentHasher → ℕ → ℕ → ℕ → ℕ → List VirtualNode → (Bytes → Bool) → List VirtualNode
walk ch count idx zero i nodes seen = nodes
walk ch count idx (suc todo) i nodes seen =
    let h = get_or ch.ring ((idx + i) % length ch.ring) 0 in
    elim (ltb (length nodes) count) [
      | false ↦ nodes
      | true ↦ elim (seen (node_at ch h)) [
        | true ↦ walk ch count idx todo (i + 1) nodes seen
        | false ↦
            walk ch count idx todo (i + 1) (nodes ++ virtual_node ch h ∷ [])
              (λ k. if bytes_eq k (node_at ch h) then true else seen k)
      ]
    ]

unfoldable pub get_nodes : ConsistentHasher → ℕ → ℕ → List VirtualNode
unfolding walk successor
get_nodes ch key_hash count =
    walk ch count (successor ch.ring key_hash) (length ch.ring) 0 [] (λ _. false)

unfoldable pub get_node_for_hash : ConsistentHasher → ℕ → Bytes
unfolding successor
get_node_for_hash ch key_hash =
    if length ch.ring == 0 then [] else node_at ch (get_or ch.ring (successor ch.ring key_hash) 0)

-- the loop of `GetPreviousHash`: the index of the hash, if it is on the ring
unfoldable pub index_of : List ℕ → ℕ → Option ℕ
index_of [] h = none
index_of (x ∷ xs) h =
    let rest = index_of xs h in
    if x == h then some 0 else elim rest [ none ↦ none | some i ↦ some (suc i) ]

unfoldable pub get_previous_hash : List ℕ → ℕ → ℕ
unfolding index_of
get_previous_hash ring current_hash = elim (index_of ring current_hash) [
  | none ↦ 0
  | some zero ↦ get_or ring (length ring - 1) 0
  | some (suc i) ↦ get_or ring i 0
]
