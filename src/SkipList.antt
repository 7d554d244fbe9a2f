-- ===== src/SkipList.antt =====
-- storage-node/internal/storage/memtable/skiplist.go: the skip list of the memtable, with its nodes
-- in a heap. A pointer is an address, nil is `none`, and a new node takes the address `next`. An
-- operation is `none` where Go would panic (a slice read out of range, a nil pointer) or where a loop
-- has used up its fuel.
pub mod Walk
pub mod Descend
pub mod Relink
pub mod Order
pub mod View
pub mod Valid
pub mod Insert
pub mod InsertKey
pub mod Delete
pub mod DeleteKey
pub mod Iterator
pub mod Refines
use pair_db.Prelude.{
  ◌>>=◌, ℕ, zero, suc, ◌+◌, ◌-◌, ◌≤◌, Option, none, some, [], Bool, true, false, ◌==◌, ltb, leb,
  ◌&&◌, if◌then◌else◌,
}
use pair_db.Bytes.{Bytes, bytes_eq}
use pair_db.Bytes.Order.{bytes_lt}

abbrev pub max_level : ℕ
max_level = 16

abbrev pub update {ℓ} : {A : Type ℓ} → (ℕ → A) → ℕ → A → ℕ → A
update f a v b = if a == b then v else f b

-- randomLevel, where `flips n` tells whether the n-th random number is below Probability.
random_from : (ℕ → Bool) → ℕ → ℕ → ℕ
random_from flips zero level = level
random_from flips (suc left) level =
    let more = random_from flips left (level + 1) in if flips level then more else level

unfoldable pub random_level : (ℕ → Bool) → ℕ
unfolding random_from
random_level flips = random_from flips (max_level - 1) 0

-- p == node
abbrev pub points_to : Option ℕ → ℕ → Bool
points_to none n = false
points_to (some p) n = p == n

module _ (V : Type 0) where
  -- `forward` has `width` entries.
  pub record SkipListNode : Type 0 where
    pub key : Bytes
    pub value : Option V
    pub width : ℕ
    pub forward : ℕ → Option ℕ

  pub record SkipList : Type 0 where
    pub nodes : ℕ → SkipListNode
    pub next : ℕ
    pub head : ℕ
    pub level : ℕ
    pub size : ℕ

module _ {V : Type 0} where
  unfoldable pub new_skip_list : SkipList V
  new_skip_list = record {
    nodes = λ _. record { key = []; value = none; width = max_level; forward = λ _. none };
    next = 1;
    head = 0;
    level = 0;
    size = 0;
  }

  -- a.Forward[i]
  unfoldable pub forward_at : (ℕ → SkipListNode V) → ℕ → ℕ → Option (Option ℕ)
  forward_at h a i = if ltb i (h a).width then some ((h a).forward i) else none

  -- a.Forward[i] = p
  unfoldable pub set_forward : (ℕ → SkipListNode V) → ℕ → ℕ → Option ℕ → Option (ℕ → SkipListNode V)
  set_forward h a i p =
      if ltb i (h a).width
      then some (update h a (record (h a) { forward = update (h a).forward i p }))
      else none

  -- The inner loop: on along level i while the next key is less.
  unfoldable pub advance : ℕ → (ℕ → SkipListNode V) → Bytes → ℕ → ℕ → Option ℕ
  advance zero h key i current = none
  advance (suc fuel) h key i current = elim (forward_at h current i) [
    | none ↦ none
    | some to ↦ elim to [
      | none ↦ some current
      | some n ↦ elim (bytes_lt (h n).key key) [
        | true ↦ advance fuel h key i n
        | false ↦ some current
      ]
    ]
  ]

  -- The outer loop, from level i down, which notes in `path` where it leaves each level.
  unfoldable pub descend :
      ℕ → (ℕ → SkipListNode V) → Bytes → ℕ → ℕ → (ℕ → Option ℕ) → Option (ℕ × (ℕ → Option ℕ))
  descend fuel h key zero current path =
      advance fuel h key zero current >>= λ c. some (c, update path zero (some c))
  descend fuel h key (suc i) current path = advance fuel h key (suc i) current >>= λ c.
      descend fuel h key i c (update path (suc i) (some c))

  -- The same loops in Search, which notes nothing.
  unfoldable pub seek : ℕ → (ℕ → SkipListNode V) → Bytes → ℕ → ℕ → Option ℕ
  seek fuel h key zero current = advance fuel h key zero current
  seek fuel h key (suc i) current = advance fuel h key (suc i) current >>= λ c. seek fuel h key i c

  -- The last step of Search: the value of `first` if its key is the one sought.
  unfoldable pub value_if : (ℕ → SkipListNode V) → Bytes → Option ℕ → Option V
  value_if h key none = none
  value_if h key (some n) = if bytes_eq (h n).key key then (h n).value else none

  unfoldable pub search_within : ℕ → SkipList V → Bytes → Option (Option V)
  search_within fuel s key = seek fuel s.nodes key s.level s.head >>= λ c.
      forward_at s.nodes c 0 >>= λ first. some (value_if s.nodes key first)

  -- Insert's last loop, for the levels i, i + 1, … below i + count.
  unfoldable pub link :
      (ℕ → Option ℕ) → ℕ → ℕ → ℕ → (ℕ → SkipListNode V) → Option (ℕ → SkipListNode V)
  link path node zero i h = some h
  link path node (suc count) i h = path i >>= λ u. forward_at h u i >>= λ f.
      set_forward h node i f >>= λ h'.
      set_forward h' u i (some node) >>= λ h''. link path node count (i + 1) h''

  unfoldable pub fresh_node : ℕ → Bytes → V → SkipListNode V
  fresh_node new_level key value = record {
    key = key;
    value = some value;
    width = new_level + 1;
    forward = λ _. none;
  }

  -- `path`, with the head on the levels above the old one.
  unfoldable pub grown : ℕ → SkipList V → (ℕ → Option ℕ) → ℕ → Option ℕ
  grown new_level s path i = if ltb s.level i && leb i new_level then some s.head else path i

  unfoldable pub insert_node : ℕ → Bytes → V → SkipList V → (ℕ → Option ℕ) → Option (SkipList V)
  insert_node new_level key value s path =
      link (grown new_level s path) s.next (new_level + 1) 0
        (update s.nodes s.next (fresh_node new_level key value))
      >>= λ h. some (record {
        nodes = h;
        next = s.next + 1;
        head = s.head;
        level = if ltb s.level new_level then new_level else s.level;
        size = s.size + 1;
      })

  -- Insert after its search: the key is there, or a node is made for it.
  unfoldable pub insert_at :
      ℕ → Bytes → V → SkipList V → (ℕ → Option ℕ) → Option ℕ → Option (SkipList V)
  insert_at new_level key value s path none = insert_node new_level key value s path
  insert_at new_level key value s path (some n) =
      if bytes_eq (s.nodes n).key key
      then some (record s { nodes = update s.nodes n (record (s.nodes n) { value = some value }) })
      else insert_node new_level key value s path

  unfoldable pub insert_within : ℕ → (ℕ → Bool) → Bytes → V → SkipList V → Option (SkipList V)
  insert_within fuel flips key value s =
      descend fuel s.nodes key s.level s.head (λ _. none) >>= λ found.
      forward_at s.nodes found.0 0 >>= λ first.
      insert_at (random_level flips) key value s found.1 first

  -- Delete's loop over the levels i, i + 1, … below i + count, which stops where the node is absent.
  unfoldable pub unlink :
      (ℕ → Option ℕ) → ℕ → ℕ → ℕ → (ℕ → SkipListNode V) → Option (ℕ → SkipListNode V)
  unlink path node zero i h = some h
  unlink path node (suc count) i h = path i >>= λ u. forward_at h u i >>= λ f.
      elim (points_to f node) [
        | false ↦ some h
        | true ↦ forward_at h node i >>= λ g.
            set_forward h u i g >>= λ h'. unlink path node count (i + 1) h'
      ]

  -- The level, lowered while the head points nowhere on it.
  unfoldable pub lower : (ℕ → SkipListNode V) → ℕ → ℕ → Option ℕ
  lower h head zero = some zero
  lower h head (suc level) = forward_at h head (suc level) >>= λ to. elim to [
    | none ↦ lower h head level
    | some _ ↦ some (suc level)
  ]

  unfoldable pub remove_node : SkipList V → (ℕ → Option ℕ) → ℕ → Option (SkipList V × Bool)
  remove_node s path n = unlink path n (s.level + 1) 0 s.nodes >>= λ h.
      lower h s.head s.level >>= λ level.
      some (record s { nodes = h; level = level; size = s.size - 1 }, true)

  unfoldable pub delete_at :
      Bytes → SkipList V → (ℕ → Option ℕ) → Option ℕ → Option (SkipList V × Bool)
  delete_at key s path none = some (s, false)
  delete_at key s path (some n) =
      if bytes_eq (s.nodes n).key key then remove_node s path n else some (s, false)

  unfoldable pub delete_within : ℕ → Bytes → SkipList V → Option (SkipList V × Bool)
  delete_within fuel key s = descend fuel s.nodes key s.level s.head (λ _. none) >>= λ found.
      forward_at s.nodes found.0 0 >>= λ first. delete_at key s found.1 first

  -- The operations, with fuel for as many steps as there are nodes.
  unfoldable pub search_key : SkipList V → Bytes → Option (Option V)
  search_key s key = search_within (s.size + 1) s key

  unfoldable pub insert_key : (ℕ → Bool) → Bytes → V → SkipList V → Option (SkipList V)
  insert_key flips key value s = insert_within (s.size + 1) flips key value s

  unfoldable pub delete_key : Bytes → SkipList V → Option (SkipList V × Bool)
  delete_key key s = delete_within (s.size + 1) key s
