-- ===== src/MemTable/Service.antt =====
-- The memtable service: what Get finds after a Put and after a Flush.
use pair_db.Prelude.{
  ℕ, ◌<◌, Option, none, some, Bool, true, false, ◌==◌, ◌||◌, if◌then◌else◌, ◌≡◌, refl, arith, ◌∙◌,
  Bool-cases, sym, subst, inl, inr,
}
use pair_db.Bytes.{Bytes, bytes_eq}
use pair_db.SkipList.Refines.{Table}
use pair_db.MemTable.{
  MemTableEntry, MemTable, MemTableService, new_mem_table_service, new_mem_table, get, put_entry,
  get_immutable, get_entry, begin_flush, end_flush, write_begun, flush,
}
use pair_db.MemTable.Holds.{Holds, with_entry, new_mem_table-Holds, get-Holds, put-Holds}

abbrev pub HoldsOld : Option MemTable → Table MemTableEntry → Type 0
HoldsOld none old = (j : Bytes) → old j ≡ none
HoldsOld (some mt) old = Holds mt old

-- Both memtables stand for a map.
pub record Represents (s : MemTableService) (now old : Table MemTableEntry) : Type 0 where
  pub current : Holds s.mem_table now
  pub older : HoldsOld s.immutable_mt old

pub new_mem_table_service-Represents :
    (m n : ℕ) → Represents (new_mem_table_service m n) (λ _. none) (λ _. none)
unfolding new_mem_table_service
new_mem_table_service-Represents m n = record { current = new_mem_table-Holds m; older = λ j. refl }

abbrev pub overlay : Option MemTableEntry → Option MemTableEntry → Option MemTableEntry
overlay none older = older
overlay (some e) older = some e

get_immutable_lem :
    (mt : Option MemTable) (old : Table MemTableEntry) (j : Bytes)
    → HoldsOld mt old
    → get_immutable mt j ≡ some (old j)
unfolding get_immutable
get_immutable_lem none old j h = rw (h j) refl
get_immutable_lem (some mt) old j h = get-Holds mt old j h

module _ (s : MemTableService) (now old : Table MemTableEntry) (r : Represents s now old) where
  pub get_entry-overlay : (j : Bytes) → get_entry s j ≡ some (overlay (now j) (old j))
  unfolding get_entry
  get_entry-overlay j =
      ground (
        arith,
        get-Holds s.mem_table now j r.current,
        get_immutable_lem s.immutable_mt old j r.older,
      )

  put_entry-Represents :
      (flips : ℕ → Bool) (e : MemTableEntry)
      → (s' : MemTableService) × (put_entry flips e s ≡ some s')
        × Represents s' (with_entry e now) old
        × (0 < s'.mem_table.size)
        × (s'.immutable_mt ≡ s.immutable_mt)
  unfolding put_entry
  put_entry-Represents flips e =
      let done = put-Holds flips e s.mem_table now r.current in
      (
        record s { mem_table = done.0 },
        rw (done.1) refl,
        record { current = done.3; older = r.older },
        omega (arith, done.2),
        refl,
      )

-- Both memtables are in order.
abbrev pub IsValid : MemTableService → Type 0
IsValid s = (now : Table MemTableEntry) × (old : Table MemTableEntry) × Represents s now old

pub put_entry-IsValid :
    (flips : ℕ → Bool) (e : MemTableEntry) (s : MemTableService)
    → IsValid s
    → (s' : MemTableService) × (put_entry flips e s ≡ some s')
      × IsValid s'
      × (0 < s'.mem_table.size)
      × (s'.immutable_mt ≡ s.immutable_mt)
      × ((j : Bytes)
          → (get_entry s' j ≡ (if bytes_eq e.key j then some (some e) else get_entry s j))
            × (get s'.mem_table j
                ≡ (if bytes_eq e.key j then some (some e) else get s.mem_table j)))
put_entry-IsValid flips e s v =
    let done = put_entry-Represents s v.0 v.1 v.2 flips e in
    let after = done.2 in
    (
      done.0,
      done.1,
      (with_entry e v.0, v.1, after),
      done.3,
      done.4,
      λ j. (
        ground (
          arith,
          get_entry-overlay done.0 (with_entry e v.0) v.1 after j,
          get_entry-overlay s v.0 v.1 v.2 j,
        ),
        ground (
          arith,
          get-Holds done.0.mem_table (with_entry e v.0) j after.current,
          get-Holds s.mem_table v.0 j v.2.current,
        ),
      ),
    )

-- On a valid service a Put never fails and keeps it valid, and Get then finds the entry under its key,
-- and under every other key what it found before.
pub get_entry-put_entry :
    (flips : ℕ → Bool) (e : MemTableEntry) (s : MemTableService)
    → IsValid s
    → (s' : MemTableService) × (put_entry flips e s ≡ some s')
      × IsValid s'
      × ((j : Bytes) → get_entry s' j ≡ (if bytes_eq e.key j then some (some e) else get_entry s j))
get_entry-put_entry flips e s v =
    let done = put_entry-IsValid flips e s v in (done.0, done.1, done.2, λ j. (done.5 j).0)

-- The service with the memtable moved away, to `older`.
moved : Option MemTable → MemTableService → MemTableService
moved older s = record s { immutable_mt = older; mem_table = new_mem_table s.max_size }

moved-Represents :
    (older : Option MemTable) (old : Table MemTableEntry) (s : MemTableService)
    → HoldsOld older old
    → Represents (moved older s) (λ _. none) old
unfolding moved
moved-Represents older old s h = record { current = new_mem_table-Holds s.max_size; older = h }

module _ (write : MemTable → Bool) (s : MemTableService) where
  flush-empty : (s.mem_table.size == 0) ≡ true → flush write s ≡ (s, true)
  unfolding flush write_begun
  flush-empty e =
      let begun : begin_flush s ≡ (s, none) = unfold begin_flush in rw e refl in rw begun refl

  flush-written :
      (s.mem_table.size == 0) ≡ false
      → write s.mem_table ≡ true
      → flush write s ≡ (moved none s, true)
  unfolding flush write_begun end_flush
  flush-written n w =
      let begun : begin_flush s ≡ (moved (some s.mem_table) s, some s.mem_table) =
        unfold begin_flush moved in rw n refl in
      rw (begun, w) (unfold moved in refl)

  flush-failed :
      (s.mem_table.size == 0) ≡ false
      → write s.mem_table ≡ false
      → flush write s ≡ (moved (some s.mem_table) s, false)
  unfolding flush write_begun end_flush
  flush-failed n w =
      let begun : begin_flush s ≡ (moved (some s.mem_table) s, some s.mem_table) =
        unfold begin_flush moved in rw n refl in
      rw (begun, w) refl

  abbrev FlushResult : MemTableService × Bool → Type 0
  FlushResult r =
      (r.1 ≡ (s.mem_table.size == 0 || write s.mem_table))
      × IsValid r.0
      × ((j : Bytes)
          → get_entry r.0 j ≡ (
              if s.mem_table.size == 0
              then get_entry s j
              else if write s.mem_table
              then some none
              else get s.mem_table j))

  flush-FlushResult : IsValid s → FlushResult (flush write s)
  flush-FlushResult v = elim (Bool-cases (s.mem_table.size == 0)) [
    | inl e ↦ subst FlushResult (sym (flush-empty e)) (rw e (refl, v, λ j. refl))
    | inr n ↦ elim (Bool-cases (write s.mem_table)) [
      | inl w ↦
          let r = moved-Represents none (λ _. none) s (λ j. refl) in
          subst FlushResult (sym (flush-written n w))
            (rw (n, w) (refl, (_, _, r), get_entry-overlay (moved none s) _ _ r))
      | inr w ↦
          let r = moved-Represents (some s.mem_table) v.0 s v.2.current in
          subst FlushResult (sym (flush-failed n w)) (
            rw (n, w)
              (
                refl,
                (_, _, r),
                λ j.
                    get_entry-overlay (moved (some s.mem_table) s) _ _ r j
                    ∙ sym (get-Holds s.mem_table v.0 j v.2.current),
              ))
    ]
  ]

  -- A Flush keeps a valid service valid, and returns no error exactly if there was nothing to flush or
  -- the writer succeeded. Get then finds what it found before if there was nothing to flush. Else it
  -- finds nothing if the writer succeeded, and what was in the memtable if it failed: the entries that
  -- an earlier Flush left behind are gone.
  pub flush_lem :
      IsValid s
      → ((flush write s).1 ≡ (s.mem_table.size == 0 || write s.mem_table))
        × IsValid (flush write s).0
        × ((j : Bytes)
            → get_entry (flush write s).0 j ≡ (
                if s.mem_table.size == 0
                then get_entry s j
                else if write s.mem_table
                then some none
                else get s.mem_table j))
  flush_lem = flush-FlushResult

-- A Flush that fails on a valid service with a memtable of some size, then a Put and a Flush: whatever
-- the second writer reports, Get finds nothing under any key but that of the Put, though the second
-- writer was handed only the new memtable.
pub flush-flush_failed :
    (flips : ℕ → Bool) (e : MemTableEntry) (s : MemTableService)
    → IsValid s
    → 0 < s.mem_table.size
    → (s' : MemTableService) × (put_entry flips e (flush (λ _. false) s).0 ≡ some s')
      × ((begin_flush s').1 ≡ some s'.mem_table)
      × ((write : MemTable → Bool) (j : Bytes)
          → bytes_eq e.key j ≡ false
          → get_entry (flush write s').0 j ≡ some none)
flush-flush_failed flips e s v size =
    let first = flush-FlushResult (λ _. false) s v in
    let state = (flush (λ _. false) s).0 in
    let done = put_entry-IsValid flips e state first.1 in
    let full : (done.0.mem_table.size == 0) ≡ false = ground (arith, done.3) in
    (
      done.0,
      done.1,
      unfold begin_flush in rw full refl,
      λ write j ne.
          let empty : get state.mem_table j ≡ some none =
            subst (λ r. get r.0.mem_table j ≡ some none)
              (sym (flush-failed (λ _. false) s (ground arith) refl))
              (unfold moved in
                get-Holds (new_mem_table s.max_size) (λ _. none) j
                  (new_mem_table-Holds s.max_size)) in
          ground
            (arith, (flush-FlushResult write done.0 done.2).2 j, full, (done.5 j).1, ne, empty),
    )
