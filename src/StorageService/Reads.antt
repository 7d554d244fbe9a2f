-- ===== src/StorageService/Reads.antt =====
-- What a read returns after a write, a repair or a delete of the same node.
use pair_db.Prelude.{
  ◌≤◌, Option, none, some, true, false, [], ◌∷◌, ◌++◌, ◌≡◌, ◌≢◌, refl, arith, sym, subst,
}
use pair_db.Bytes.{Bytes, bytes_eq_iff}
use pair_db.VectorClock.{VectorClock}
use pair_db.ByteMap.{find, insert, find-delete}
use pair_db.MemTable.{MemTable, MemTableEntry, MemTableService, get_entry, begin_flush, entry_size}
use pair_db.MemTable.Service.{IsValid, put_entry-IsValid}
use pair_db.Cache.{Float64, CacheService, get, get_found, remove, remove_found, touch}
use pair_db.Cache.Accounts.{Accounts}
use pair_db.Cache.Room.{Visits, Evictable, Stored, put-ends}
use pair_db.Validator.{
  Unicode, validate_write, validate_tenant_id, validate_key, estimate_write_size,
}
use pair_db.StorageService.{
  StorageService, Disk, Call, ok, failed, Source, key_not_found, OperationType, build_key, store,
  flush_begun, trigger_flush, flush_if_full, append_entry, log_entry, write_logged, write_valid,
  write_key,
}
use pair_db.StorageService.Removal.{
  repair_logged, repair_key, delete_logged, delete_valid, delete_key,
}
use pair_db.StorageService.Lookup.{respond, read_below, read_cached, read_key}
use mathlib.Core.List.{append_assoc}
use pair_db.StorageService.Keys.{colon-invalid}

module _ (R : Float64) (U : Unicode) (D : Disk) where
  -- A flush leaves the cache alone.
  flush_begun-cache :
      (s : StorageService R U D) (b : MemTableService × Option MemTable)
      → (flush_begun R U D s b).cache_service ≡ s.cache_service
  unfolding flush_begun
  flush_begun-cache s (m, none) = refl
  flush_begun-cache s (m, some mt) = refl

  flush_if_full-cache :
      (s : StorageService R U D) → (flush_if_full R U D s).cache_service ≡ s.cache_service
  unfolding flush_if_full trigger_flush
  flush_if_full-cache s = ground (arith, flush_begun-cache s (begin_flush s.mem_tables))

  -- A read of a key that the cache has.
  read-Stored :
      (c : Call R) (tenant_id key value : Bytes) (vc : VectorClock) (s : StorageService R U D)
      → Stored (build_key tenant_id key) value vc s.cache_service
      → (s' : StorageService R U D) × (read_key R U D c tenant_id key s
          ≡ some (s', ok (record { value = value; vector_clock = vc; source = Source.cache })))
  unfolding read_key read_cached get get_found touch
  read-Stored c tenant_id key value vc s stored = (
    record s {
      cache_service = record s.cache_service {
        cache =
            insert (build_key tenant_id key) (touch R s.cache_service c.now c.since stored.0)
              s.cache_service.cache;
      };
    },
    rw (stored.1, stored.2, stored.3) refl,
  )

  find-remove : (key : Bytes) (s : CacheService R) → find key (remove R key s).cache ≡ none
  unfolding remove remove_found
  find-remove key s = ground (arith, find-delete key key s.cache, bytes_eq_iff key key)

  -- A read of a key that the cache lacks and the memtable has a tombstone of.
  read-tombstone :
      (c : Call R) (tenant_id key : Bytes) (s : StorageService R U D) (e : MemTableEntry)
      → find (build_key tenant_id key) s.cache_service.cache ≡ none
      → get_entry s.mem_tables (build_key tenant_id key) ≡ some (some e)
      → e.is_tombstone ≡ true
      → read_key R U D c tenant_id key s ≡ some (s, failed key_not_found)
  unfolding read_key read_cached get get_found read_below respond
  read-tombstone c tenant_id key s e absent found dead = rw (absent, found, dead) refl

  module _ (c : Call R) (key value : Bytes) (vc : VectorClock) (s : StorageService R U D)
      (tables : IsValid s.mem_tables) (accounts : Accounts s.cache_service)
      (evictable : Evictable s.cache_service) (visits : Visits c.order)
      (fits : entry_size key value ≤ s.cache_service.max_size) where
    store-Stored :
        (s' : StorageService R U D) × (store R U D c key value vc s ≡ some s')
        × Stored key value vc s'.cache_service
    unfolding store
    store-Stored =
        let cached =
          put-ends c.order visits c.now c.since key value vc s.cache_service accounts evictable
            fits in
        let entry : MemTableEntry = record {
          key = key;
          value = value;
          vector_clock = vc;
          timestamp = c.timestamp;
          is_tombstone = false;
        } in
        let kept = put_entry-IsValid c.flips entry s.mem_tables tables in
        (
          record s { mem_tables = kept.0; cache_service = cached.0 },
          rw (kept.1, cached.1) refl,
          cached.3,
        )

  write-Stored :
      (c : Call R) (tenant_id key value : Bytes) (vc : VectorClock) (s : StorageService R U D)
      → IsValid s.mem_tables
      → Accounts s.cache_service
      → Evictable s.cache_service
      → Visits c.order
      → entry_size (build_key tenant_id key) value ≤ s.cache_service.max_size
      → validate_write U s.validator tenant_id key value vc ≡ none
      → D.has_space s.disk (estimate_write_size tenant_id key value) ≡ true
      → (D.append s.disk (log_entry R U D c OperationType.write tenant_id key value vc)).1 ≡ true
      → (s' : StorageService R U D) × (write_key R U D c tenant_id key value vc s
          ≡ some (s', ok vc))
        × Stored (build_key tenant_id key) value vc s'.cache_service
  unfolding write_key write_valid append_entry
  write-Stored c tenant_id key value vc s tables accounts evictable visits fits valid space logged =
      let entry = log_entry R U D c OperationType.write tenant_id key value vc in
      let s1 : StorageService R U D = record s { disk = (D.append s.disk entry).0 } in
      let stored =
        store-Stored c (build_key tenant_id key) value vc s1 tables accounts evictable visits
          fits in
      (
        flush_if_full R U D stored.0,
        rw (valid, space, logged) (unfold write_logged in rw stored.1 refl),
        subst (Stored (build_key tenant_id key) value vc) (sym (flush_if_full-cache stored.0))
            stored.2,
      )

  -- On a node whose memtables are in order and whose cache accounts for its entries, all of them
  -- evictable, a write that is valid, with space on the disk, an entry that the commit log takes and that
  -- fits into the cache, succeeds, and a read of the key then returns its value and clock, from the
  -- cache.
  pub read-write :
      (c c' : Call R) (tenant_id key value : Bytes) (vc : VectorClock) (s : StorageService R U D)
      → IsValid s.mem_tables
      → Accounts s.cache_service
      → Evictable s.cache_service
      → Visits c.order
      → entry_size (build_key tenant_id key) value ≤ s.cache_service.max_size
      → validate_write U s.validator tenant_id key value vc ≡ none
      → D.has_space s.disk (estimate_write_size tenant_id key value) ≡ true
      → (D.append s.disk (log_entry R U D c OperationType.write tenant_id key value vc)).1 ≡ true
      → (s' : StorageService R U D) × (write_key R U D c tenant_id key value vc s
          ≡ some (s', ok vc))
        × (s'' : StorageService R U D) × (read_key R U D c' tenant_id key s'
            ≡ some (s'', ok (record { value = value; vector_clock = vc; source = Source.cache })))
  read-write c c' tenant_id key value vc s tables accounts evictable visits fits valid space
        logged =
      let done =
        write-Stored c tenant_id key value vc s tables accounts evictable visits fits valid space
          logged in
      let read = read-Stored c' tenant_id key value vc done.0 done.2 in
      (done.0, done.1, read.0, read.1)

  -- Under the conditions of read-write, after a write of a key with a colon a read returns the value
  -- also to the name that is the tenant's with the part before the colon, though that name is no valid tenant.
  pub read-other_tenant :
      (c c' : Call R) (tenant_id part key value : Bytes) (vc : VectorClock)
      (s : StorageService R U D)
      → IsValid s.mem_tables
      → Accounts s.cache_service
      → Evictable s.cache_service
      → Visits c.order
      → entry_size (build_key tenant_id (part ++ b':' ∷ key)) value ≤ s.cache_service.max_size
      → validate_write U s.validator tenant_id (part ++ b':' ∷ key) value vc ≡ none
      → D.has_space s.disk (estimate_write_size tenant_id (part ++ b':' ∷ key) value) ≡ true
      → (D.append s.disk
          (log_entry R U D c OperationType.write tenant_id (part ++ b':' ∷ key) value vc)).1
        ≡ true
      → (s' : StorageService R U D) × (write_key R U D c tenant_id (part ++ b':' ∷ key) value vc s
          ≡ some (s', ok vc))
        × (validate_tenant_id U s.validator (tenant_id ++ b':' ∷ part) ≢ none)
        × (s'' : StorageService R U D) × (read_key R U D c' (tenant_id ++ b':' ∷ part) key s'
            ≡ some (s'', ok (record { value = value; vector_clock = vc; source = Source.cache })))
  unfolding build_key
  read-other_tenant c c' tenant_id part key value vc s tables accounts evictable visits fits valid
        space logged =
      let done =
        write-Stored c tenant_id (part ++ b':' ∷ key) value vc s tables accounts evictable visits
          fits valid space logged in
      let same : build_key tenant_id (part ++ b':' ∷ key)
          ≡ build_key (tenant_id ++ b':' ∷ part) key =
        sym (append_assoc tenant_id (b':' ∷ part) (b':' ∷ key)) in
      let stored = subst (λ k. Stored k value vc done.0.cache_service) same done.2 in
      let read = read-Stored c' (tenant_id ++ b':' ∷ part) key value vc done.0 stored in
      (done.0, done.1, colon-invalid U s.validator tenant_id part, read.0, read.1)

  -- A repair whose entry the commit log takes succeeds, whatever is there and however old its clock
  -- is, and a read of the key then returns the repair's value and clock.
  read-repair :
      (c c' : Call R) (tenant_id key value : Bytes) (vc : VectorClock) (s : StorageService R U D)
      → IsValid s.mem_tables
      → Accounts s.cache_service
      → Evictable s.cache_service
      → Visits c.order
      → entry_size (build_key tenant_id key) value ≤ s.cache_service.max_size
      → (D.append s.disk (log_entry R U D c OperationType.repair tenant_id key value vc)).1 ≡ true
      → (s' : StorageService R U D) × (repair_key R U D c tenant_id key value vc s
          ≡ some (s', ok tt))
        × (s'' : StorageService R U D) × (read_key R U D c' tenant_id key s'
            ≡ some (s'', ok (record { value = value; vector_clock = vc; source = Source.cache })))
  unfolding repair_key append_entry repair_logged
  read-repair c c' tenant_id key value vc s tables accounts evictable visits fits logged =
      let entry = log_entry R U D c OperationType.repair tenant_id key value vc in
      let s1 : StorageService R U D = record s { disk = (D.append s.disk entry).0 } in
      let stored =
        store-Stored c (build_key tenant_id key) value vc s1 tables accounts evictable visits
          fits in
      let read = read-Stored c' tenant_id key value vc stored.0 stored.2 in
      (stored.0, rw logged (rw stored.1 refl), read.0, read.1)

  -- On a node whose memtables are in order, a delete whose tenant and key are valid and whose entry the
  -- commit log takes succeeds, and a read of the key then answers that there is none.
  pub read-delete :
      (c c' : Call R) (tenant_id key : Bytes) (vc : VectorClock) (s : StorageService R U D)
      → IsValid s.mem_tables
      → validate_tenant_id U s.validator tenant_id ≡ none
      → validate_key U s.validator key ≡ none
      → (D.append s.disk (log_entry R U D c OperationType.delete tenant_id key [] vc)).1 ≡ true
      → (s' : StorageService R U D) × (delete_key R U D c tenant_id key vc s ≡ some (s', ok tt))
        × (read_key R U D c' tenant_id key s' ≡ some (s', failed key_not_found))
  unfolding delete_key delete_valid append_entry delete_logged
  read-delete c c' tenant_id key vc s tables valid_tenant valid_key logged =
      let name = build_key tenant_id key in
      let tombstone : MemTableEntry = record {
        key = name;
        value = [];
        vector_clock = vc;
        timestamp = c.timestamp;
        is_tombstone = true;
      } in
      let kept = put_entry-IsValid c.flips tombstone s.mem_tables tables in
      let s' : StorageService R U D = record s {
        disk = (D.append s.disk (log_entry R U D c OperationType.delete tenant_id key [] vc)).0;
        mem_tables = kept.0;
        cache_service = remove R name s.cache_service;
      } in
      (
        s',
        rw (valid_tenant, valid_key, logged) (rw kept.1 refl),
        read-tombstone c' tenant_id key s' tombstone (find-remove name s.cache_service)
            (ground (arith, (kept.5 name).0, bytes_eq_iff name name)) refl,
      )
