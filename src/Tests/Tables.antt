-- ===== src/Tests/Tables.antt =====
-- The skip list and the memtable service.
use pair_db.Prelude.{
  ◌>>=◌, ℕ, ◌<◌, Option, none, some, Bool, false, if◌then◌else◌, List, [], ◌∷◌, ◌≡◌, refl, ltb,
  ◌==◌, ◌||◌,
}
use pair_db.Bytes.{Bytes, bytes_eq}
use pair_db.Bytes.Order.{bytes_lt}
use pair_db.Int64.{int64}
use pair_db.SkipList.{
  SkipList, new_skip_list, search_key, insert_key, delete_key, search_within, insert_within,
  delete_within, seek, descend, advance, forward_at, set_forward, link, unlink, lower, value_if,
  insert_at, insert_node, fresh_node, grown, delete_at, remove_node, random_level,
}
use pair_db.SkipList.Valid.{IsOrder}
use pair_db.SkipList.Iterator.{visits}
use pair_db.SkipList.Refines.{Operation, put, remove, run, replay, run-refines}
use pair_db.MemTable.{
  MemTable, MemTableEntry, MemTableService, new_mem_table_service, put_entry, get_entry, get, flush,
  begin_flush,
}
use pair_db.MemTable.Service.{
  IsValid, new_mem_table_service-Represents, put_entry-IsValid, get_entry-put_entry, flush_lem,
  flush-flush_failed,
}
use pair_db.Tests.Data.{entry}

program : Unit {0}
unfolding new_skip_list search_key insert_key delete_key search_within insert_within delete_within
    seek descend advance forward_at set_forward link unlink lower value_if insert_at insert_node
    fresh_node grown delete_at remove_node random_level run visits bytes_lt
program = tt

-- A node of level 2, and nodes of level 0.
abbrev twice : ℕ → Bool
twice n = ltb n 2

abbrev never : ℕ → Bool
never n = false

abbrev operations : List (Operation ℕ)
operations =
    put twice (b'b' ∷ []) 1
    ∷ put never (b'a' ∷ []) 2
    ∷ put never (b'c' ∷ []) 3
    ∷ put twice (b'a' ∷ []) 4
    ∷ remove (b'b' ∷ [])
    ∷ []

run-refines_example :
    (s : SkipList ℕ) × (run operations new_skip_list ≡ some s)
    × ((order : List ℕ) × IsOrder s order)
    × ((key : Bytes) → search_key s key ≡ some (replay operations (λ _. none) key))
run-refines_example = run-refines operations

-- What Search finds after the operations.
found : Bytes → Option (Option ℕ)
unfolding program
found key = run operations new_skip_list >>= λ s. search_key s key

found_run :
    (found (b'a' ∷ []) ≡ some (some 4))
    × (found (b'b' ∷ []) ≡ some none)
    × (found (b'c' ∷ []) ≡ some (some 3))
unfolding found program
found_run = (refl, refl, refl)

abbrev item : ℕ → ℕ → MemTableEntry
item key value = record {
  key = key ∷ [];
  value = value ∷ [];
  vector_clock = entry "x" value;
  timestamp = int64 value;
  is_tombstone = false;
}

-- A service with one entry.
filled :
    (s : MemTableService) × (put_entry twice (item b'a' 1) (new_mem_table_service 100 10) ≡ some s)
    × IsValid s
    × (0 < s.mem_table.size)
filled =
    let done =
      put_entry-IsValid twice (item b'a' 1) (new_mem_table_service 100 10)
        (_, _, new_mem_table_service-Represents 100 10) in
    (done.0, done.1, done.2, done.3)

get_entry-put_entry_example :
    (s' : MemTableService) × (put_entry never (item b'b' 2) filled.0 ≡ some s')
    × IsValid s'
    × ((j : Bytes)
        → get_entry s' j
          ≡ (if bytes_eq (b'b' ∷ []) j then some (some (item b'b' 2)) else get_entry filled.0 j))
get_entry-put_entry_example = get_entry-put_entry never (item b'b' 2) filled.0 filled.2

flush_lem_example :
    ((flush (λ _. false) filled.0).1 ≡ (filled.0.mem_table.size == 0 || false))
    × IsValid (flush (λ _. false) filled.0).0
    × ((j : Bytes)
        → get_entry (flush (λ _. false) filled.0).0 j ≡ (
            if filled.0.mem_table.size == 0
            then get_entry filled.0 j
            else get filled.0.mem_table j))
flush_lem_example = flush_lem (λ _. false) filled.0 filled.2

flush-flush_failed_example :
    (s' : MemTableService) × (put_entry never (item b'b' 2) (flush (λ _. false) filled.0).0
      ≡ some s')
    × ((begin_flush s').1 ≡ some s'.mem_table)
    × ((write : MemTable → Bool) (j : Bytes)
        → bytes_eq (b'b' ∷ []) j ≡ false
        → get_entry (flush write s').0 j ≡ some none)
flush-flush_failed_example = flush-flush_failed never (item b'b' 2) filled.0 filled.2 filled.3
