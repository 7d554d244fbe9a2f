-- ===== src/MemTable.antt =====
-- storage-node/internal/service/memtable_service.go: the memtable, a skip list with a size, and its
-- service, which keeps a second memtable that it is flushing to disk.
pub mod Holds
pub mod Service
use pair_db.Prelude.{
  ◌>>=◌, ℕ, suc, ◌+◌, Option, none, some, Bool, true, false, ltb, leb, ◌==◌, ◌&&◌, ◌||◌,
  if◌then◌else◌, List, [], ◌∷◌, ◌++◌, map, length, select,
}
use pair_db.Bytes.{Bytes}
use pair_db.Int64.{Int64}
use pair_db.VectorClock.{VectorClock}
use pair_db.SkipList.{SkipList, SkipListNode, new_skip_list, search_key, insert_key}
use pair_db.SkipList.Iterator.{visits}

pub record MemTableEntry : Type 0 where
  pub key : Bytes
  pub value : Bytes
  pub vector_clock : VectorClock
  pub timestamp : Int64
  pub is_tombstone : Bool

-- `entries` is the Go field `data`.
pub record MemTable : Type 0 where
  pub entries : SkipList MemTableEntry
  pub max_size : ℕ
  pub size : ℕ

unfoldable pub new_mem_table : ℕ → MemTable
new_mem_table max_size = record { entries = new_skip_list; max_size = max_size; size = 0 }

-- the size that an entry counts for
abbrev pub entry_size : Bytes → Bytes → ℕ
entry_size key value = length key + length value + 64

unfoldable pub put : (ℕ → Bool) → MemTableEntry → MemTable → Option MemTable
put flips entry mt = insert_key flips entry.key entry mt.entries >>= λ entries.
    some (record mt { entries = entries; size = mt.size + entry_size entry.key entry.value })

-- The entry of a key, or nil.
unfoldable pub get : MemTable → Bytes → Option (Option MemTableEntry)
get mt key = search_key mt.entries key

unfoldable pub count : MemTable → ℕ
count mt = mt.entries.size

pub record MemTableService : Type 0 where
  pub max_size : ℕ
  pub flush_threshold : ℕ
  pub mem_table : MemTable
  pub immutable_mt : Option MemTable

unfoldable pub new_mem_table_service : ℕ → ℕ → MemTableService
new_mem_table_service max_size flush_threshold = record {
  max_size = max_size;
  flush_threshold = flush_threshold;
  mem_table = new_mem_table max_size;
  immutable_mt = none;
}

unfoldable pub put_entry : (ℕ → Bool) → MemTableEntry → MemTableService → Option MemTableService
put_entry flips entry s = put flips entry s.mem_table >>= λ mt. some (record s { mem_table = mt })

unfoldable pub get_immutable : Option MemTable → Bytes → Option (Option MemTableEntry)
get_immutable none key = some none
get_immutable (some mt) key = get mt key

unfoldable pub get_entry : MemTableService → Bytes → Option (Option MemTableEntry)
get_entry s key = get s.mem_table key >>= λ found. elim found [
  | some e ↦ some (some e)
  | none ↦ get_immutable s.immutable_mt key
]

unfoldable pub should_flush : MemTableService → Bool
should_flush s = leb s.flush_threshold s.mem_table.size

-- The test of ScanKeysInRange: [start, end), or the rest of the ring if it wraps around.
unfoldable pub in_range : ℕ → ℕ → ℕ → Bool
in_range start stop hash =
    if ltb start stop then leb start hash && ltb hash stop else leb start hash || ltb hash stop

-- The entries of the nodes, without nil.
unfoldable pub entries_at : (ℕ → SkipListNode MemTableEntry) → List ℕ → List MemTableEntry
entries_at h [] = []
entries_at h (n ∷ ns) =
    let rest = entries_at h ns in elim (h n).value [ none ↦ rest | some e ↦ e ∷ rest ]

unfoldable pub scan_table : (Bytes → ℕ) → ℕ → ℕ → MemTable → Option (List MemTableEntry)
scan_table hash start stop mt =
    visits (mt.entries.size + 1) mt.entries.nodes mt.entries.head >>= λ ns.
    some (select (λ e. in_range start stop (hash e.key)) (entries_at mt.entries.nodes ns))

unfoldable pub scan_immutable : (Bytes → ℕ) → ℕ → ℕ → Option MemTable → Option (List MemTableEntry)
scan_immutable hash start stop none = some []
scan_immutable hash start stop (some mt) = scan_table hash start stop mt

unfoldable pub scan_keys_in_range :
    (Bytes → ℕ) → ℕ → ℕ → MemTableService → Option (List MemTableEntry)
scan_keys_in_range hash start stop s = scan_table hash start stop s.mem_table >>= λ current.
    scan_immutable hash start stop s.immutable_mt >>= λ old. some (current ++ old)

-- Flush up to the release of the lock: what is handed to the SSTable writer, if anything.
unfoldable pub begin_flush : MemTableService → MemTableService × Option MemTable
begin_flush s = if s.mem_table.size == 0 then (s, none) else (
  record s { immutable_mt = some s.mem_table; mem_table = new_mem_table s.max_size },
  some s.mem_table,
)

-- Flush after the SSTable writer, which reports whether it succeeded.
unfoldable pub end_flush : Bool → MemTableService → MemTableService × Bool
end_flush false s = (s, false)
end_flush true s = (record s { immutable_mt = none }, true)

unfoldable pub write_begun :
    (MemTable → Bool) → MemTableService × Option MemTable → MemTableService × Bool
write_begun write (s, none) = (s, true)
write_begun write (s, some mt) = end_flush (write mt) s

-- Flush with no other call in between: the state, and whether it returned no error.
unfoldable pub flush : (MemTable → Bool) → MemTableService → MemTableService × Bool
flush write s = write_begun write (begin_flush s)
