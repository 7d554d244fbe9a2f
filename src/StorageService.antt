-- ===== src/StorageService.antt =====
-- storage-node/internal/service/storage_service.go: writes, reads, deletes and repairs of a storage
-- node, over its commit log, memtables, SSTables and cache. What is on disk is an interface: the
-- commit log, the SSTables, the space that is left, and whether the worker pool takes a flush. There
-- is no streaming manager, as after NewStorageService.
pub mod Keys
pub mod Removal
pub mod Lookup
pub mod Reads
use pair_db.Prelude.{
  ◌>>=◌, ℕ, ◌+◌, Option, none, some, Bool, true, false, if◌then◌else◌, List, [], ◌∷◌, ◌++◌, length,
}
use pair_db.Bytes.{Bytes}
use pair_db.Int64.{Int64}
use pair_db.VectorClock.{VectorClock}
use pair_db.MemTable.{
  MemTable, MemTableEntry, MemTableService, put_entry, get_entry, should_flush, begin_flush,
  end_flush,
}
use pair_db.Cache.{Float64, CacheService, CacheEntry, get, put, remove}
use pair_db.ByteMap.{ByteMap}
use pair_db.Validator.{
  Validator, Unicode, ValidationError, validate_write, validate_tenant_id, validate_key, or_else,
  estimate_write_size,
}

pub data OperationType : Type 0 where
  write delete repair : OperationType

pub record CommitLogEntry : Type 0 where
  pub tenant_id : Bytes
  pub key : Bytes
  pub value : Bytes
  pub vector_clock : VectorClock
  pub timestamp : Int64
  pub operation_type : OperationType

pub record KeyValueEntry : Type 0 where
  pub value : Bytes
  pub vector_clock : VectorClock
  pub is_tombstone : Bool

pub data StorageError : Type 0 where
  invalid : ValidationError → StorageError
  disk_full : StorageError
  commit_log_failed : StorageError
  sstable_failed : StorageError
  key_not_found : StorageError

-- nil, or the error
pub data Outcome (A : Type 0) : Type 0 where
  ok : A → Outcome A
  failed : StorageError → Outcome A

pub data Source : Type 0 where
  cache memtable sstable : Source

pub record ReadResponse : Type 0 where
  pub value : Bytes
  pub vector_clock : VectorClock
  pub source : Source

-- The disk: Append and WriteFromMemTable report whether they succeeded, Get is `none` for an error.
pub record Disk : Type 1 where
  pub State : Type 0
  pub has_space : State → ℕ → Bool
  pub append : State → CommitLogEntry → State × Bool
  pub get_sstable : State → Bytes → Bytes → Option (Option KeyValueEntry)
  pub write_from_mem_table : State → MemTable → State × Bool
  pub accepts_flush : State → Bool

-- fmt.Sprintf("%s:%s", tenantID, key)
unfoldable pub build_key : Bytes → Bytes → Bytes
build_key tenant_id key = tenant_id ++ b':' ∷ key

-- What a call reads from outside: the clock, for the timestamp, the last access and the score, the
-- random numbers of the skip list, and the order in which the cache visits its entries.
pub record Call (R : Float64) : Type 0 where
  pub timestamp : Int64
  pub now : ℕ
  pub since : ℕ
  pub flips : ℕ → Bool
  pub order : ByteMap (CacheEntry R) → ByteMap (CacheEntry R)

module _ (R : Float64) (U : Unicode) (D : Disk) where
  pub record StorageService : Type 0 where
    pub disk : D.State
    pub mem_tables : MemTableService
    pub cache_service : CacheService R
    pub validator : Validator

  -- The entry into the memtable and the value into the cache, after the commit log.
  unfoldable pub store :
      Call R → Bytes → Bytes → VectorClock → StorageService → Option StorageService
  store c key value vector_clock s =
      put_entry c.flips
        (record {
          key = key;
          value = value;
          vector_clock = vector_clock;
          timestamp = c.timestamp;
          is_tombstone = false;
        })
        s.mem_tables
      >>= λ mem_tables.
          put R c.order (length s.cache_service.cache + 1) c.now c.since key value vector_clock
            s.cache_service
          >>= λ cache_service.
              some (record s { mem_tables = mem_tables; cache_service = cache_service })

  unfoldable pub flush_begun : StorageService → MemTableService × Option MemTable → StorageService
  flush_begun s (mem_tables, none) = s
  flush_begun s (mem_tables, some mt) =
      let written = D.write_from_mem_table s.disk mt in
      record s { disk = written.0; mem_tables = (end_flush written.1 mem_tables).0 }

  -- triggerFlushAsync: the pool takes the flush for later, or it runs now.
  unfoldable pub trigger_flush : StorageService → StorageService
  trigger_flush s = if D.accepts_flush s.disk then s else flush_begun s (begin_flush s.mem_tables)

  unfoldable pub flush_if_full : StorageService → StorageService
  flush_if_full s = if should_flush s.mem_tables then trigger_flush s else s

  unfoldable pub append_entry : StorageService → CommitLogEntry → StorageService × Bool
  append_entry s e =
      let appended = D.append s.disk e in (record s { disk = appended.0 }, appended.1)

  unfoldable pub log_entry :
      Call R → OperationType → Bytes → Bytes → Bytes → VectorClock → CommitLogEntry
  log_entry c operation_type tenant_id key value vector_clock = record {
    tenant_id = tenant_id;
    key = key;
    value = value;
    vector_clock = vector_clock;
    timestamp = c.timestamp;
    operation_type = operation_type;
  }

  unfoldable pub write_logged :
      Call R
      → Bytes
      → Bytes
      → VectorClock
      → StorageService × Bool
      → Option (StorageService × Outcome VectorClock)
  write_logged c key value vector_clock (s, false) = some (s, failed commit_log_failed)
  write_logged c key value vector_clock (s, true) =
      store c key value vector_clock s >>= λ s'. some (flush_if_full s', ok vector_clock)

  unfoldable pub write_valid :
      Call R
      → Bytes
      → Bytes
      → Bytes
      → VectorClock
      → StorageService
      → Option ValidationError
      → Option (StorageService × Outcome VectorClock)
  write_valid c tenant_id key value vector_clock s (some e) = some (s, failed (invalid e))
  write_valid c tenant_id key value vector_clock s none =
      if D.has_space s.disk (estimate_write_size tenant_id key value)
      then write_logged c (build_key tenant_id key) value vector_clock
          (append_entry s (log_entry c write tenant_id key value vector_clock))
      else some (s, failed disk_full)

  unfoldable pub write_key :
      Call R
      → Bytes
      → Bytes
      → Bytes
      → VectorClock
      → StorageService
      → Option (StorageService × Outcome VectorClock)
  write_key c tenant_id key value vector_clock s =
      write_valid c tenant_id key value vector_clock s
        (validate_write U s.validator tenant_id key value vector_clock)
