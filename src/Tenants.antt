-- ===== src/Tenants.antt =====
-- coordinator/internal/service/tenant_service.go, on the cache of
-- coordinator/internal/store/memory_cache.go and the table of tenants of
-- coordinator/internal/store/postgres_metadata_store.go and coordinator/migrations/001_initial_schema.sql.
-- The cache and the callers share pointers to tenants: a tenant lives in a heap, under its address. An
-- error of the service is `none`. The order in which Go ranges over the cache is `order`; `up` says that
-- a statement does not fail for a reason of its own. A time is a number, and so is a factor.
pub mod Updates
use pair_db.Prelude.{
  ℕ, zero, suc, ◌+◌, ◌-◌, Bool, true, false, ltb, leb, ◌==◌, not, ◌&&◌, ◌||◌, if◌then◌else◌, Option,
  none, some, List, [], ◌∷◌, ◌++◌, length, select,
}
use pair_db.Bytes.{Bytes}
use pair_db.ByteMap.{ByteMap, find, insert, delete}

pub record Tenant : Type 0 where
  pub tenant_id : Bytes
  pub replication_factor : ℕ
  pub created_at : ℕ
  pub updated_at : ℕ
  pub version : ℕ

-- `cacheItem`, with the address of its tenant as its value
pub record CacheItem : Type 0 where
  pub value : ℕ
  pub expires_at : ℕ

pub record InMemoryCache : Type 0 where
  pub entries : ByteMap CacheItem
  pub max_size : ℕ

-- the item, unless it has expired
abbrev pub unexpired : ℕ → Option CacheItem → Option ℕ
unexpired now none = none
unexpired now (some item) = if ltb item.expires_at now then none else some item.value

unfoldable pub cache_get : ℕ → Bytes → InMemoryCache → Option ℕ
cache_get now key c = unexpired now (find key c.entries)

-- Deletes the first entry of the visit that has expired.
unfoldable pub evict_expired : ℕ → ByteMap CacheItem → ByteMap CacheItem → ByteMap CacheItem
evict_expired now [] entries = entries
evict_expired now ((k, item) ∷ visit) entries =
    let rest = evict_expired now visit entries in
    if ltb item.expires_at now then delete k entries else rest

-- Deletes the first entry of the visit.
unfoldable pub evict_any : ByteMap CacheItem → ByteMap CacheItem → ByteMap CacheItem
evict_any [] entries = entries
evict_any ((k, item) ∷ visit) entries = delete k entries

-- The heap of tenants; an address is the number of those allocated before.
pub record Heap : Type 0 where
  pub next : ℕ
  pub at : ℕ → Option Tenant

unfoldable pub write : ℕ → Tenant → Heap → Heap
write a t h = record h { at = λ b. if b == a then some t else h.at b }

pub record TenantService : Type 0 where
  pub tenants : ByteMap Tenant  -- the rows of the table
  pub cache : InMemoryCache
  pub heap : Heap

-- CHECK (replication_factor >= 1 AND replication_factor <= 5)
unfoldable pub is_valid_factor : ℕ → Bool
is_valid_factor factor = leb 1 factor && leb factor 5

-- "tenant:config:%s"
unfoldable pub tenant_cache_key : Bytes → Bytes
tenant_cache_key tenant_id =
    b't' ∷ b'e' ∷ b'n' ∷ b'a' ∷ b'n' ∷ b't' ∷ b':' ∷ b'c' ∷ b'o' ∷ b'n' ∷ b'f' ∷ b'i' ∷ b'g' ∷ b':'
    ∷ tenant_id

-- INSERT INTO tenants; none is an error
unfoldable pub insert_tenant : Bool → Tenant → ByteMap Tenant → Option (ByteMap Tenant)
insert_tenant up tenant rows = elim (find tenant.tenant_id rows) [
  | some _ ↦ none
  | none ↦
      if up && is_valid_factor tenant.replication_factor
      then some (insert tenant.tenant_id tenant rows)
      else none
]

-- UPDATE tenants … WHERE version = the version before
unfoldable pub update_row : Bool → Tenant → ByteMap Tenant → Option (ByteMap Tenant)
update_row up tenant rows = elim (find tenant.tenant_id rows) [
  | none ↦ none
  | some row ↦
      if up && is_valid_factor tenant.replication_factor && row.version + 1 == tenant.version
      then some (
          insert tenant.tenant_id
            (record row {
              replication_factor = tenant.replication_factor;
              updated_at = tenant.updated_at;
              version = tenant.version;
            })
            rows)
      else none
]

unfoldable pub delete_row : Bool → Bytes → ByteMap Tenant → Option (ByteMap Tenant)
delete_row up tenant_id rows = elim (find tenant_id rows) [
  | none ↦ none
  | some row ↦ if up then some (delete tenant_id rows) else none
]

-- A tenant read from the table or made anew, at a new address.
unfoldable pub allocate : Tenant → TenantService → TenantService × ℕ
allocate tenant s = (
  record s { heap = write s.heap.next tenant (record (s.heap) { next = suc s.heap.next }) },
  s.heap.next,
)

unfoldable pub forget : Bytes → TenantService → TenantService
forget tenant_id s = record s {
  cache = record (s.cache) { entries = delete (tenant_cache_key tenant_id) s.cache.entries };
}

-- between 1 and 10
unfoldable pub is_accepted : ℕ → Bool
is_accepted factor = leb 1 factor && leb factor 10

unfoldable pub saved :
    Bytes → ℕ → TenantService → Option (ByteMap Tenant) → TenantService × Option ℕ
saved tenant_id a s none = (s, none)
saved tenant_id a s (some rows) = (forget tenant_id (record s { tenants = rows }), some a)

-- The tenant at the address is changed in place before it is saved.
unfoldable pub set_factor :
    Bool → ℕ → Bytes → ℕ → TenantService → ℕ → Option Tenant → TenantService × Option ℕ
set_factor up now tenant_id factor s a none = (s, none)
set_factor up now tenant_id factor s a (some tenant) =
    let changed = record tenant {
      replication_factor = factor;
      updated_at = now;
      version = tenant.version + 1;
    } in
    if tenant.replication_factor == factor
    then (s, some a)
    else saved tenant_id a (record s { heap = write a changed s.heap })
        (update_row up changed s.tenants)

unfoldable pub change_found :
    Bool → ℕ → Bytes → ℕ → TenantService × Option ℕ → TenantService × Option ℕ
change_found up now tenant_id factor (s, none) = (s, none)
change_found up now tenant_id factor (s, some a) =
    set_factor up now tenant_id factor s a (s.heap.at a)

abbrev pub deleted : Bytes → TenantService → Option (ByteMap Tenant) → TenantService × Bool
deleted tenant_id s none = (s, false)
deleted tenant_id s (some rows) = (forget tenant_id (record s { tenants = rows }), true)

unfoldable pub delete_tenant : Bool → Bytes → TenantService → TenantService × Bool
delete_tenant up tenant_id s = deleted tenant_id s (delete_row up tenant_id s.tenants)

module _ (order : ByteMap CacheItem → ByteMap CacheItem) (cache_ttl : ℕ) where
  unfoldable pub make_space : ℕ → InMemoryCache → ByteMap CacheItem
  make_space now c =
      let first = evict_expired now (order c.entries) c.entries in
      if leb c.max_size (length c.entries)
      then (if leb c.max_size (length first) then evict_any (order first) first else first)
      else c.entries

  unfoldable pub cache_set : ℕ → Bytes → ℕ → InMemoryCache → InMemoryCache
  cache_set now key value c = record c {
    entries =
        insert key (record { value = value; expires_at = now + cache_ttl }) (make_space now c);
  }

  unfoldable pub remember : ℕ → Bytes → TenantService × ℕ → TenantService × ℕ
  remember now tenant_id (s, a) =
      (record s { cache = cache_set now (tenant_cache_key tenant_id) a s.cache }, a)

  -- what the metadata store has, cached
  unfoldable pub fetched : ℕ → Bytes → TenantService → Option Tenant → TenantService × Option ℕ
  fetched now tenant_id s none = (s, none)
  fetched now tenant_id s (some row) =
      let (s', a) = remember now tenant_id (allocate row s) in (s', some a)

  unfoldable pub get_uncached :
      Bool → ℕ → Bytes → TenantService → Option ℕ → TenantService × Option ℕ
  get_uncached up now tenant_id s (some a) = (s, some a)
  get_uncached up now tenant_id s none =
      fetched now tenant_id s (if up then find tenant_id s.tenants else none)

  unfoldable pub get_tenant : Bool → ℕ → Bytes → TenantService → TenantService × Option ℕ
  get_tenant up now tenant_id s =
      get_uncached up now tenant_id s (cache_get now (tenant_cache_key tenant_id) s.cache)

  unfoldable pub stored :
      ℕ → Tenant → TenantService → Option (ByteMap Tenant) → TenantService × Option ℕ
  stored now tenant s none = (s, none)
  stored now tenant s (some rows) =
      let (s', a) = remember now tenant.tenant_id (allocate tenant (record s { tenants = rows })) in
      (s', some a)

  unfoldable pub create_tenant : Bool → ℕ → Bytes → ℕ → TenantService → TenantService × Option ℕ
  create_tenant up now tenant_id factor s =
      let tenant : Tenant = record {
        tenant_id = tenant_id;
        replication_factor = factor;
        created_at = now;
        updated_at = now;
        version = 1;
      } in
      if is_accepted factor
      then stored now tenant s (insert_tenant up tenant s.tenants)
      else (s, none)

  -- `read` says whether the read does not fail for a reason of its own, `up` the update.
  unfoldable pub update_replication_factor :
      (read up : Bool) → ℕ → Bytes → ℕ → TenantService → TenantService × Option ℕ
  update_replication_factor read up now tenant_id factor s =
      if is_accepted factor
      then change_found up now tenant_id factor (get_tenant read now tenant_id s)
      else (s, none)
