-- ===== src/StorageService/Lookup.antt =====
-- Reads of a storage node: the cache, the memtables, the SSTables.
use pair_db.Prelude.{◌>>=◌, ◌+◌, Option, none, some, Bool, true, false, length}
use pair_db.Bytes.{Bytes}
use pair_db.VectorClock.{VectorClock}
use pair_db.MemTable.{MemTableEntry, get_entry}
use pair_db.Cache.{Float64, CacheService, CacheEntry, get, put}
use pair_db.Validator.{Unicode}
use pair_db.StorageService.{
  StorageService, Disk, Call, Outcome, ok, failed, Source, cache, memtable, sstable, sstable_failed,
  key_not_found, KeyValueEntry, ReadResponse, build_key,
}

module _ (R : Float64) (U : Unicode) (D : Disk) where
  -- A value found below the cache is put into it.
  unfoldable pub respond :
      Call R
      → Bytes
      → Source
      → Bool
      → Bytes
      → VectorClock
      → StorageService R U D
      → Option (StorageService R U D × Outcome ReadResponse)
  respond c key source true value vector_clock s = some (s, failed key_not_found)
  respond c key source false value vector_clock s =
      put R c.order (length s.cache_service.cache + 1) c.now c.since key value vector_clock
        s.cache_service
      >>= λ cache_service. some (
        record s { cache_service = cache_service },
        ok (record { value = value; vector_clock = vector_clock; source = source }),
      )

  unfoldable pub read_sstable :
      Call R
      → Bytes
      → StorageService R U D
      → Option (Option KeyValueEntry)
      → Option (StorageService R U D × Outcome ReadResponse)
  read_sstable c key s none = some (s, failed sstable_failed)
  read_sstable c key s (some none) = some (s, failed key_not_found)
  read_sstable c key s (some (some e)) =
      respond c key sstable e.is_tombstone e.value e.vector_clock s

  unfoldable pub read_below :
      Call R
      → Bytes
      → Bytes
      → StorageService R U D
      → Option MemTableEntry
      → Option (StorageService R U D × Outcome ReadResponse)
  read_below c tenant_id key s (some e) =
      respond c (build_key tenant_id key) memtable e.is_tombstone e.value e.vector_clock s
  read_below c tenant_id key s none =
      read_sstable c (build_key tenant_id key) s (D.get_sstable s.disk tenant_id key)

  unfoldable pub read_cached :
      Call R
      → Bytes
      → Bytes
      → StorageService R U D
      → CacheService R × Option (CacheEntry R)
      → Option (StorageService R U D × Outcome ReadResponse)
  read_cached c tenant_id key s (cache_service, some e) = some (
    record s { cache_service = cache_service },
    ok (record { value = e.value; vector_clock = e.vector_clock; source = cache }),
  )
  read_cached c tenant_id key s (cache_service, none) =
      get_entry s.mem_tables (build_key tenant_id key) >>= λ found.
      read_below c tenant_id key s found

  unfoldable pub read_key :
      Call R
      → Bytes
      → Bytes
      → StorageService R U D
      → Option (StorageService R U D × Outcome ReadResponse)
  read_key c tenant_id key s =
      read_cached c tenant_id key s (get R c.now c.since (build_key tenant_id key) s.cache_service)
