-- ===== src/StorageService/Removal.antt =====
-- Repairs and deletes of a storage node.
use pair_db.Prelude.{◌>>=◌, Option, none, some, Bool, true, false, []}
use pair_db.Bytes.{Bytes}
use pair_db.VectorClock.{VectorClock}
use pair_db.MemTable.{put_entry}
use pair_db.Cache.{Float64, remove}
use pair_db.Validator.{Unicode, ValidationError, validate_tenant_id, validate_key, or_else}
use pair_db.StorageService.{
  StorageService, Disk, Call, Outcome, ok, failed, repair, delete, commit_log_failed, invalid,
  build_key, store, append_entry, log_entry,
}

module _ (R : Float64) (U : Unicode) (D : Disk) where
  unfoldable pub repair_logged :
      Call R
      → Bytes
      → Bytes
      → VectorClock
      → StorageService R U D × Bool
      → Option (StorageService R U D × Outcome (Unit {0}))
  repair_logged c key value vector_clock (s, false) = some (s, failed commit_log_failed)
  repair_logged c key value vector_clock (s, true) =
      store R U D c key value vector_clock s >>= λ s'. some (s', ok tt)

  unfoldable pub repair_key :
      Call R
      → Bytes
      → Bytes
      → Bytes
      → VectorClock
      → StorageService R U D
      → Option (StorageService R U D × Outcome (Unit {0}))
  repair_key c tenant_id key value vector_clock s =
      repair_logged c (build_key tenant_id key) value vector_clock
        (append_entry R U D s (log_entry R U D c repair tenant_id key value vector_clock))

  unfoldable pub delete_logged :
      Call R
      → Bytes
      → VectorClock
      → StorageService R U D × Bool
      → Option (StorageService R U D × Outcome (Unit {0}))
  delete_logged c key vector_clock (s, false) = some (s, failed commit_log_failed)
  delete_logged c key vector_clock (s, true) =
      put_entry c.flips
        (record {
          key = key;
          value = [];
          vector_clock = vector_clock;
          timestamp = c.timestamp;
          is_tombstone = true;
        })
        s.mem_tables
      >>= λ mem_tables. some (
        record s { mem_tables = mem_tables; cache_service = remove R key s.cache_service },
        ok tt,
      )

  unfoldable pub delete_valid :
      Call R
      → Bytes
      → Bytes
      → VectorClock
      → StorageService R U D
      → Option ValidationError
      → Option (StorageService R U D × Outcome (Unit {0}))
  delete_valid c tenant_id key vector_clock s (some e) = some (s, failed (invalid e))
  delete_valid c tenant_id key vector_clock s none =
      delete_logged c (build_key tenant_id key) vector_clock
        (append_entry R U D s (log_entry R U D c delete tenant_id key [] vector_clock))

  unfoldable pub delete_key :
      Call R
      → Bytes
      → Bytes
      → VectorClock
      → StorageService R U D
      → Option (StorageService R U D × Outcome (Unit {0}))
  delete_key c tenant_id key vector_clock s =
      delete_valid c tenant_id key vector_clock s
        (or_else (validate_tenant_id U s.validator tenant_id) (validate_key U s.validator key))
