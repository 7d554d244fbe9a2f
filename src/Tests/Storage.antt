-- ===== src/Tests/Storage.antt =====
-- The cache and the storage service.
use pair_db.Prelude.{◌≢◌, ℕ, ◌+◌, ◌-◌, ◌*◌, ◌/◌, none, some, true, [], ◌∷◌, ◌≡◌, refl, arith, ltb}
use pair_db.Bytes.{Bytes, bytes_eq_iff}
use pair_db.Int64.{int64}
use pair_db.ByteMap.{find, find-entries, total}
use pair_db.MemTable.{new_mem_table_service}
use pair_db.MemTable.Service.{IsValid, new_mem_table_service-Represents}
use pair_db.Cache.{Float64, CacheEntry, CacheService}
use pair_db.Cache.Accounts.{Accounts}
use pair_db.Cache.Room.{Visits, Evictable}
use pair_db.Validator.{
  Unicode, new_validator, validate_write, validate_tenant_id, validate_key, validate_value,
  validate_vector_clock, validate_entries, validate_entry,
}
use pair_db.StorageService.{
  StorageService, Disk, Call, ok, failed, key_not_found, Source, build_key, write_key,
}
use pair_db.StorageService.Removal.{delete_key}
use pair_db.StorageService.Lookup.{read_key}
use pair_db.StorageService.Keys.{build_key-injective}
use pair_db.StorageService.Reads.{read-write, read-other_tenant, read-delete}
use pair_db.Tests.Data.{entry}

-- Natural numbers for float64.
abbrev pub numbers : Float64
numbers = record {
  Float = ℕ;
  less = ltb;
  sub = λ a b. a - b;
  mul = λ a b. a * b;
  div = λ a b. a / b;
  of_int = λ n. n;
  tenths = λ n. n;
  seconds = λ n. n / 1000000000;
}

abbrev old_entry : CacheEntry numbers
old_entry = record {
  key = b'a' ∷ [];
  value = 1 ∷ [];
  vector_clock = entry "x" 1;
  access_count = 1;
  last_access = 0;
  score = 1;
}

-- A cache with room for one entry, which it has.
abbrev one_entry : CacheService numbers
one_entry = record {
  max_size = 70;
  adaptive_window = 0;
  cache = (b'a' ∷ [], old_entry) ∷ [];
  current_size = 66;
  frequency_weight = 1;
  recency_weight = 0;
}

one_entry-Accounts : Accounts one_entry
unfolding find
one_entry-Accounts = record {
  distinct = (refl, tt);
  keyed = λ k e found. ground (arith, bytes_eq_iff (b'a' ∷ []) k);
  counted = unfold total in refl;
}

one_entry-Evictable : Evictable one_entry
unfolding find
one_entry-Evictable [] e found = ground arith
one_entry-Evictable (x ∷ k) e found = ground arith

in_order-Visits : Visits {R = numbers} (λ m. m)
in_order-Visits = record { only = find-entries; some_of = λ m e. e }

-- A disk that takes everything, and ASCII.
abbrev pub disk : Disk
disk = record {
  State = ℕ;
  has_space = λ n size. true;
  append = λ n e. (n + 1, true);
  get_sstable = λ n t k. some none;
  write_from_mem_table = λ n mt. (n, true);
  accepts_flush = λ n. true;
}

abbrev pub ascii : Unicode
ascii = record { runes = λ s. s; is_control = λ r. ltb r 32; encode = λ s. b'n' ∷ [] }

abbrev pub call : Call numbers
call = record { timestamp = int64 7; now = 7; since = 0; flips = λ n. ltb n 1; order = λ m. m }

abbrev pub service : StorageService numbers ascii disk
service = record {
  disk = 0;
  mem_tables = new_mem_table_service 100 10;
  cache_service = one_entry;
  validator = new_validator;
}

service-IsValid : IsValid service.mem_tables
service-IsValid = (_, _, new_mem_table_service-Represents 100 10)

abbrev two : Bytes
two = 2 ∷ []

abbrev tenant : Bytes
tenant = b't' ∷ []

abbrev name : Bytes
name = b'k' ∷ []

checks : Unit {0}
unfolding build_key validate_write validate_tenant_id validate_key validate_value
    validate_vector_clock validate_entries validate_entry
checks = tt

build_key-injective_example : (tenant ≡ tenant) × (name ≡ name)
unfolding checks validate_tenant_id
build_key-injective_example =
    build_key-injective ascii new_validator tenant tenant name name refl refl refl

read-write_example :
    (s' : StorageService numbers ascii disk) × (write_key numbers ascii disk call
        (b't' ∷ [])
        (b'k' ∷ [])
        two
        (entry "x" 2)
        service
      ≡ some (s', ok (entry "x" 2)))
    × (s'' : StorageService numbers ascii disk) × (read_key numbers ascii disk call
          (b't' ∷ [])
          (b'k' ∷ [])
          s'
        ≡ some
            (s'', ok (record { value = two; vector_clock = entry "x" 2; source = Source.cache })))
unfolding checks
read-write_example =
    read-write numbers ascii disk call call (b't' ∷ []) (b'k' ∷ []) two (entry "x" 2) service
      service-IsValid one_entry-Accounts one_entry-Evictable in_order-Visits (omega arith) (refl)
      refl refl

read-other_tenant_example :
    (s' : StorageService numbers ascii disk) × (write_key numbers ascii disk call
        (b't' ∷ [])
        (b'u' ∷ b':' ∷ b'k' ∷ [])
        []
        (entry "x" 2)
        service
      ≡ some (s', ok (entry "x" 2)))
    × (validate_tenant_id ascii new_validator (b't' ∷ b':' ∷ b'u' ∷ []) ≢ none)
    × (s'' : StorageService numbers ascii disk) × (read_key numbers ascii disk call
          (b't' ∷ b':' ∷ b'u' ∷ [])
          (b'k' ∷ [])
          s'
        ≡ some (s'', ok (record { value = []; vector_clock = entry "x" 2; source = Source.cache })))
unfolding checks
read-other_tenant_example =
    read-other_tenant numbers ascii disk call call (b't' ∷ []) (b'u' ∷ []) (b'k' ∷ []) []
      (entry "x" 2) service service-IsValid one_entry-Accounts one_entry-Evictable in_order-Visits
      (omega arith) refl refl refl

read-delete_example :
    (s' : StorageService numbers ascii disk) × (delete_key numbers ascii disk call
        (b't' ∷ [])
        (b'k' ∷ [])
        (entry "x" 2)
        service
      ≡ some (s', ok tt))
    × (read_key numbers ascii disk call (b't' ∷ []) (b'k' ∷ []) s'
        ≡ some (s', failed key_not_found))
unfolding checks
read-delete_example =
    read-delete numbers ascii disk call call (b't' ∷ []) (b'k' ∷ []) (entry "x" 2) service
      service-IsValid refl refl refl
