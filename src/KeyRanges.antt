-- ===== src/KeyRanges.antt =====
-- coordinator/internal/service/keyrange_service.go: the ranges of hashes that move when a node joins or
-- leaves the ring. A Go map from node ids is a `ByteMap`; the order in which `cloneHashRing` ranges over
-- one is a parameter, `order`.
pub mod Merged
use pair_db.Prelude.{
  ℕ, zero, suc, ◌+◌, Option, none, some, Bool, true, false, ltb, leb, ◌||◌, if◌then◌else◌, List, [],
  ◌∷◌, ◌++◌, length, map,
}
use pair_db.GoMap.{or_zero}
use pair_db.Bytes.{Bytes, bytes_eq}
use pair_db.ByteMap.{ByteMap, find, insert}
use pair_db.Ring.{
  ConsistentHasher, VirtualNode, new_hasher, add_node, remove_node, virtual_node, get_node_for_hash,
  get_previous_hash,
}

pub record KeyRange : Type 0 where
  pub start_hash : ℕ
  pub end_hash : ℕ

-- GetAllVirtualNodes
unfoldable pub get_all_virtual_nodes : ConsistentHasher → List VirtualNode
get_all_virtual_nodes ch = map (virtual_node ch) ch.ring

-- nodeVirtualCounts[vnode.NodeID]++
unfoldable pub virtual_counts : List VirtualNode → ByteMap ℕ → ByteMap ℕ
virtual_counts [] counts = counts
virtual_counts (v ∷ vs) counts =
    virtual_counts vs (insert v.node_id (suc (or_zero 0 (find v.node_id counts))) counts)

-- rangeAssignments[other] = append(rangeAssignments[other], keyRange), unless the moved node, or none, is
-- the other owner
unfoldable pub add_range :
    (moved other : Bytes) → KeyRange → ByteMap (List KeyRange) → ByteMap (List KeyRange)
add_range moved other range assignments =
    if bytes_eq other [] || bytes_eq other moved
    then assignments
    else insert other (or_zero [] (find other assignments) ++ range ∷ []) assignments

-- The loop over the virtual nodes; `owner` is the other owner of a hash, and `previous` the hash before it.
unfoldable pub assign :
    (owner : ℕ → Bytes) (previous : ℕ → ℕ) (moved : Bytes)
    → List VirtualNode
    → ByteMap (List KeyRange)
    → ByteMap (List KeyRange)
assign owner previous moved [] assignments = assignments
assign owner previous moved (v ∷ vs) assignments =
    let range : KeyRange = record { start_hash = previous v.hash; end_hash = v.hash } in
    assign owner previous moved vs (
      if bytes_eq v.node_id moved
      then add_range moved (owner v.hash) range assignments
      else assignments)

module _ (hash : Bytes → ℕ) (order : ByteMap ℕ → ByteMap ℕ) where
  unfoldable pub add_counts : ByteMap ℕ → ConsistentHasher → ConsistentHasher
  add_counts [] ring = ring
  add_counts ((node_id, count) ∷ counts) ring = add_counts counts (add_node hash node_id count ring)

  unfoldable pub clone_hash_ring : ConsistentHasher → ConsistentHasher
  clone_hash_ring original =
      add_counts (order (virtual_counts (get_all_virtual_nodes original) [])) new_hasher

  unfoldable pub calculate_key_ranges_for_new_node :
      ConsistentHasher → Bytes → ℕ → ByteMap (List KeyRange)
  calculate_key_ranges_for_new_node current new_node virtual_nodes =
      let temp_ring = add_node hash new_node virtual_nodes (clone_hash_ring current) in
      assign (get_node_for_hash current) (get_previous_hash temp_ring.ring) new_node
        (get_all_virtual_nodes temp_ring) []

  unfoldable pub calculate_key_ranges_for_removed_node :
      ConsistentHasher → Bytes → ByteMap (List KeyRange)
  calculate_key_ranges_for_removed_node current removed_node =
      let temp_ring = remove_node removed_node (clone_hash_ring current) in
      assign (get_node_for_hash temp_ring) (get_previous_hash current.ring) removed_node
        (get_all_virtual_nodes current) []

-- The inner loop of the sort, for the element at i: what it leaves there, and the elements after it.
unfoldable pub sweep : KeyRange → List KeyRange → KeyRange × List KeyRange
sweep x [] = (x, [])
sweep x (y ∷ ys) =
    let swap = ltb y.start_hash x.start_hash in
    let (least, rest) = sweep (if swap then y else x) ys in (least, (if swap then x else y) ∷ rest)

-- The outer loop, with the rounds to go.
unfoldable pub sort_ranges : ℕ → List KeyRange → List KeyRange
sort_ranges zero xs = xs
sort_ranges (suc todo) [] = []
sort_ranges (suc todo) (x ∷ xs) = let (least, rest) = sweep x xs in least ∷ sort_ranges todo rest

-- the new end of the last range
abbrev pub extend : KeyRange → KeyRange → KeyRange
extend last current =
    if ltb last.end_hash current.end_hash then record last { end_hash = current.end_hash } else last

-- The loop that merges, from the last merged range on.
unfoldable pub merge_loop : KeyRange → List KeyRange → List KeyRange
merge_loop last [] = last ∷ []
merge_loop last (current ∷ rest) =
    let adjacent = leb current.start_hash last.end_hash in
    let merged = merge_loop (if adjacent then extend last current else current) rest in
    if adjacent then merged else last ∷ merged

unfoldable pub merge_sorted : List KeyRange → List KeyRange
merge_sorted [] = []
merge_sorted (first ∷ rest) = merge_loop first rest

unfoldable pub merge_ranges : List KeyRange → List KeyRange
merge_ranges ranges = merge_sorted (sort_ranges (length ranges) ranges)
