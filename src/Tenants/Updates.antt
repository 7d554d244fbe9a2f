-- ===== src/Tenants/Updates.antt =====
-- What an update of a tenant's replication factor leaves in the table and in the cache.
use pair_db.Prelude.{
  ℕ, ◌+◌, ◌≤◌, ◌<◌, Bool, true, false, leb, ◌==◌, ◌&&◌, none, some, ◌≡◌, ◌≢◌, refl, arith,
  Option-cases, inl, inr, ◌∙◌,
}
use pair_db.Bytes.{Bytes, bytes_eq_iff}
use pair_db.ByteMap.{ByteMap, find, insert, find-insert, find-delete}
use pair_db.Tenants.{
  Tenant, CacheItem, TenantService, cache_get, write, is_valid_factor, tenant_cache_key, update_row,
  allocate, forget, remember, fetched, get_uncached, get_tenant, is_accepted, saved, set_factor,
  change_found, update_replication_factor,
}

-- the tenant as an update changes it
abbrev pub changed_to : ℕ → ℕ → Tenant → Tenant
changed_to factor now tenant = record tenant {
  replication_factor = factor;
  updated_at = now;
  version = tenant.version + 1;
}

module _ (order : ByteMap CacheItem → ByteMap CacheItem) (cache_ttl : ℕ) (tenant_id : Bytes)
    (s : TenantService) (a : ℕ) (tenant : Tenant) (there : s.heap.at a ≡ some tenant) where
  cached-get :
      (up : Bool) (now : ℕ)
      → cache_get now (tenant_cache_key tenant_id) s.cache ≡ some a
      → get_tenant order cache_ttl up now tenant_id s ≡ (s, some a)
  unfolding get_tenant get_uncached
  cached-get up now hit = rw hit refl

  update-cached :
      (read up : Bool) (now factor : ℕ)
      → cache_get now (tenant_cache_key tenant_id) s.cache ≡ some a
      → 1 ≤ factor
      → factor ≤ 10
      → tenant.replication_factor ≢ factor
      → update_replication_factor order cache_ttl read up now tenant_id factor s
        ≡ saved tenant_id a
            (record s { heap = write a (changed_to factor now tenant) s.heap })
            (update_row up (changed_to factor now tenant) s.tenants)
  unfolding update_replication_factor change_found set_factor is_accepted
  update-cached read up now factor hit low high other =
      let accepted : leb 1 factor && leb factor 10 ≡ true = ground arith in
      let differ : (tenant.replication_factor == factor) ≡ false = ground arith in
      rw (accepted, cached-get read now hit, there, differ) refl

refused-above :
    (up : Bool) (tenant : Tenant) (rows : ByteMap Tenant)
    → 5 < tenant.replication_factor
    → update_row up tenant rows ≡ none
unfolding is_valid_factor update_row
refused-above up tenant rows above =
    let refused : leb tenant.replication_factor 5 ≡ false = ground arith in
    elim (Option-cases (find tenant.tenant_id rows)) [
      | inl absent ↦ rw (update_row, absent) refl
      | inr (row, found) ↦
          let no : up
                && is_valid_factor tenant.replication_factor
                && row.version + 1 == tenant.version
              ≡ false =
            ground arith in
          rw (update_row, found, no) refl
    ]

-- An update of a cached tenant to a factor from 6 to 10 passes the service and is refused by the schema.
-- The table is as it was, but the cached tenant has the new factor, which is what the service then
-- returns for the tenant until the cached item expires, and its version is one ahead.
pub update-refused_factor :
    (order : ByteMap CacheItem → ByteMap CacheItem) (cache_ttl : ℕ) (tenant_id : Bytes)
    (s : TenantService) (a : ℕ) (tenant : Tenant) (read up : Bool) (now later factor : ℕ)
    → s.heap.at a ≡ some tenant
    → cache_get now (tenant_cache_key tenant_id) s.cache ≡ some a
    → cache_get later (tenant_cache_key tenant_id) s.cache ≡ some a
    → 5 < factor
    → factor ≤ 10
    → tenant.replication_factor ≢ factor
    → let (s', updated) =
        update_replication_factor order cache_ttl read up now tenant_id factor s in
      (updated ≡ none)
      × (s'.tenants ≡ s.tenants)
      × (get_tenant order cache_ttl read later tenant_id s' ≡ (s', some a))
      × (s'.heap.at a ≡ some (changed_to factor now tenant))
unfolding write saved
update-refused_factor order cache_ttl tenant_id s a tenant read up now later factor there hit still
      above high other =
    let changed = changed_to factor now tenant in
    let s' : TenantService = record s { heap = write a changed s.heap } in
    let result : update_replication_factor order cache_ttl read up now tenant_id factor s
        ≡ (s', none) =
      update-cached order cache_ttl tenant_id s a tenant there read up now factor hit
        (omega (arith, above)) high other
      ∙ rw (refused-above up changed s.tenants above) refl in
    let same : (a == a) ≡ true = ground arith in
    let held : s'.heap.at a ≡ some changed = rw same refl in
    rw result
      (refl, refl, cached-get order cache_ttl tenant_id s' a changed held read later still, held)

-- the row after an update
abbrev pub updated_row : ℕ → ℕ → Tenant → Tenant
updated_row factor now row = record row {
  replication_factor = factor;
  updated_at = now;
  version = row.version + 1;
}

update_row-saves :
    (factor now : ℕ) (tenant row : Tenant) (rows : ByteMap Tenant)
    → find tenant.tenant_id rows ≡ some row
    → row.version ≡ tenant.version
    → 1 ≤ factor
    → factor ≤ 5
    → update_row true (changed_to factor now tenant) rows
      ≡ some (insert tenant.tenant_id (updated_row factor now row) rows)
unfolding is_valid_factor update_row
update_row-saves factor now tenant row rows found current low high =
    let valid : leb 1 factor && leb factor 5 ≡ true = ground arith in
    let next : (row.version + 1 == tenant.version + 1) ≡ true = ground arith in
    let version : tenant.version + 1 ≡ row.version + 1 = omega (arith, current) in
    rw (update_row, found, valid, next, version) refl

forgotten :
    (tenant_id : Bytes) (now : ℕ) (s : TenantService)
    → cache_get now (tenant_cache_key tenant_id) (forget tenant_id s).cache ≡ none
unfolding cache_get forget
forgotten tenant_id now s =
    let key = tenant_cache_key tenant_id in
    let gone : find key (forget tenant_id s).cache.entries ≡ none =
      find-delete key key s.cache.entries ∙ rw ((bytes_eq_iff key key).1 refl) refl in
    rw gone refl

get-fetches :
    (order : ByteMap CacheItem → ByteMap CacheItem) (cache_ttl : ℕ) (tenant_id : Bytes) (now : ℕ)
    (row : Tenant) (s : TenantService)
    → cache_get now (tenant_cache_key tenant_id) s.cache ≡ none
    → find tenant_id s.tenants ≡ some row
    → let (s', got) = get_tenant order cache_ttl true now tenant_id s in
      (got ≡ some s.heap.next) × (s'.heap.at s.heap.next ≡ some row)
unfolding get_tenant get_uncached fetched remember allocate write
get-fetches order cache_ttl tenant_id now row s miss found =
    let same : (s.heap.next == s.heap.next) ≡ true = ground arith in
    rw (miss, found, same) (refl, refl)

-- An update of a cached tenant whose version is that of the table, to another factor from 1 to 5, is
-- saved with the next version, and the cache forgets the tenant, so that the next read that reaches the
-- table returns the new factor.
pub update-saved_factor :
    (order : ByteMap CacheItem → ByteMap CacheItem) (cache_ttl : ℕ) (s : TenantService) (a : ℕ)
    (tenant row : Tenant) (read : Bool) (now later factor : ℕ)
    → s.heap.at a ≡ some tenant
    → cache_get now (tenant_cache_key tenant.tenant_id) s.cache ≡ some a
    → find tenant.tenant_id s.tenants ≡ some row
    → row.version ≡ tenant.version
    → 1 ≤ factor
    → factor ≤ 5
    → tenant.replication_factor ≢ factor
    → let (s', updated) =
        update_replication_factor order cache_ttl read true now tenant.tenant_id factor s in
      let (s'', got) = get_tenant order cache_ttl true later tenant.tenant_id s' in
      (updated ≡ some a)
      × (find tenant.tenant_id s'.tenants ≡ some (updated_row factor now row))
      × (got ≡ some s'.heap.next)
      × (s''.heap.at s'.heap.next ≡ some (updated_row factor now row))
unfolding saved
update-saved_factor order cache_ttl s a tenant row read now later factor there hit found current low
      high other =
    let id = tenant.tenant_id in
    let changed = changed_to factor now tenant in
    let new_row = updated_row factor now row in
    let written : TenantService = record s { heap = write a changed s.heap } in
    let saved_rows : TenantService = record written { tenants = insert id new_row s.tenants } in
    let s' = forget id saved_rows in
    let result : update_replication_factor order cache_ttl read true now id factor s
        ≡ (s', some a) =
      update-cached order cache_ttl id s a tenant there read true now factor hit low
        (omega (arith, high)) other
      ∙ rw (update_row-saves factor now tenant row s.tenants found current low high) refl in
    let kept : find id s'.tenants ≡ some new_row =
      unfold forget in
      find-insert id id new_row s.tenants ∙ rw ((bytes_eq_iff id id).1 refl) refl in
    let (got, holds) =
      get-fetches order cache_ttl id later new_row s' (forgotten id later saved_rows) kept in
    rw result (refl, kept, got, holds)
