-- ===== src/MemTable/Holds.antt =====
-- A memtable stands for a map from keys to entries.
use pair_db.Prelude.{ap, ℕ, ◌+◌, none, some, Bool, if◌then◌else◌, List, [], ◌≡◌, refl, arith, ◌∙◌}
use pair_db.Bytes.{Bytes, bytes_eq}
use pair_db.SkipList.{search_key, insert_key}
use pair_db.SkipList.View.{view}
use pair_db.SkipList.Valid.{IsOrder, search-IsOrder, new_skip_list-IsOrder}
use pair_db.SkipList.InsertKey.{insert-Inserted}
use pair_db.SkipList.Refines.{Table}
use pair_db.MemTable.{MemTableEntry, MemTable, new_mem_table, put, get, entry_size}

abbrev pub Holds : MemTable → Table MemTableEntry → Type 0
Holds mt table =
    (order : List ℕ) × IsOrder mt.entries order
    × ((j : Bytes) → view mt.entries.nodes order j ≡ table j)

-- A table with one entry put.
abbrev pub with_entry : MemTableEntry → Table MemTableEntry → Table MemTableEntry
with_entry e table j = if bytes_eq e.key j then some e else table j

pub new_mem_table-Holds : (n : ℕ) → Holds (new_mem_table n) (λ _. none)
unfolding new_mem_table view
new_mem_table-Holds n = ([], new_skip_list-IsOrder MemTableEntry, λ j. refl)

pub get-Holds :
    (mt : MemTable) (table : Table MemTableEntry) (key : Bytes)
    → Holds mt table
    → get mt key ≡ some (table key)
unfolding get search_key
get-Holds mt table key h =
    search-IsOrder mt.entries h.0 (mt.entries.size + 1) key h.1 (omega (arith, h.1.counted))
    ∙ ap some (h.2 key)

pub put-Holds :
    (flips : ℕ → Bool) (e : MemTableEntry) (mt : MemTable) (table : Table MemTableEntry)
    → Holds mt table
    → (mt' : MemTable) × (put flips e mt ≡ some mt')
      × (mt'.size ≡ mt.size + entry_size e.key e.value)
      × Holds mt' (with_entry e table)
unfolding put insert_key
put-Holds flips e mt table h =
    let done =
      insert-Inserted (mt.entries.size + 1) flips e.key e mt.entries h.0 h.1
        (omega (arith, h.1.counted)) in
    (
      record mt { entries = done.0; size = mt.size + entry_size e.key e.value },
      rw done.2 refl,
      refl,
      (done.1, done.3.0, λ j. done.3.1 j ∙ rw (h.2 j) refl),
    )
