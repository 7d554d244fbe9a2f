-- ===== src/Tests/Streams.antt =====
-- Ranges of hashes, streams and tenants.
use pair_db.Prelude.{
  ℕ, List, [], ◌∷◌, true, false, none, some, ◌≡◌, refl, arith, ◌==◌, if◌then◌else◌,
}
use pair_db.Bytes.{Bytes}
use pair_db.ByteMap.{find}
use pair_db.GoMap.{lookup}
use pair_db.KeyRanges.{KeyRange, merge_ranges, sort_ranges, sweep, merge_sorted, merge_loop}
use pair_db.KeyRanges.Merged.{IsSeparated}
use pair_db.Streaming.Gathered.{merge_ranges-keeps}
use pair_db.Streaming.{
  StreamingManager, new_streaming_manager, copying, completed, key_in_ranges, execute_stream,
  remove_stream, add_stream,
}
use pair_db.Streaming.Handler.{
  StartStreamingRequest, started, not_found, acknowledged, status, start_streaming,
  get_stream_status, notify_streaming_complete,
}
use pair_db.Streaming.Life.{stream-runs}
use pair_db.Tenants.{
  Tenant, TenantService, cache_get, get_tenant, update_replication_factor, tenant_cache_key,
}
use pair_db.Tenants.Updates.{changed_to, updated_row, update-refused_factor, update-saved_factor}
use pair_db.Tests.Storage.{numbers, ascii, disk, service, call}

abbrev keep_order {ℓ} : {V : Type ℓ} → V → V
keep_order m = m

abbrev node_a : Bytes
node_a = b'a' ∷ []

abbrev node_b : Bytes
node_b = b'b' ∷ []

abbrev range : ℕ → ℕ → KeyRange
range a b = record { start_hash = a; end_hash = b }

abbrev ranges : List KeyRange
ranges = range 5 9 ∷ range 1 3 ∷ range 3 5 ∷ range 20 30 ∷ []

merge_ranges-keeps_example :
    (key_in_ranges 4 (merge_ranges ranges) ≡ key_in_ranges 4 ranges)
    × IsSeparated (merge_ranges ranges)
merge_ranges-keeps_example =
    merge_ranges-keeps ranges 4 (omega arith, (omega arith, (omega arith, (omega arith, tt))))

-- Of a range that wraps around, merging loses hashes.
merged_wrap :
    (key_in_ranges 2 (range 90 110 ∷ range 100 5 ∷ []) ≡ true)
    × (key_in_ranges 2 (merge_ranges (range 90 110 ∷ range 100 5 ∷ [])) ≡ false)
unfolding key_in_ranges merge_ranges sort_ranges sweep merge_sorted merge_loop
merged_wrap = (refl, refl)

abbrev start : StartStreamingRequest
start = record {
  source_node_id = "a";
  target_node_id = "b";
  target_host = "localhost";
  target_port = 9000;
  key_ranges = range 10 20 ∷ [];
}

idle : StreamingManager
idle = new_streaming_manager 0 0 0

begun : StreamingManager
begun = (start_streaming 3 start idle).0

start_runs : start_streaming 3 start idle ≡ (begun, started)
unfolding begun start_streaming idle new_streaming_manager add_stream lookup
start_runs = refl

stream-runs_example :
    (get_stream_status begun "b" ≡ status true copying 0 0)
    × (sm2 : StreamingManager) × (execute_stream numbers ascii disk (λ k. call) 5 "b" service begun
        ≡ some (service, sm2))
    × (get_stream_status sm2 "b" ≡ status false completed 0 0)
    × (notify_streaming_complete "b" sm2 ≡ (remove_stream "b" sm2, acknowledged))
    × (get_stream_status (remove_stream "b" sm2) "b" ≡ not_found)
stream-runs_example =
    stream-runs numbers ascii disk (λ k. call) 3 5 start service idle begun start_runs

abbrev tenant : Tenant
tenant = record {
  tenant_id = b't' ∷ [];
  replication_factor = 3;
  created_at = 0;
  updated_at = 0;
  version = 1;
}

-- A tenant that is in the table and, until time 100, in the cache.
abbrev tenants : TenantService
tenants = record {
  tenants = (b't' ∷ [], tenant) ∷ [];
  cache = record {
    entries = (tenant_cache_key (b't' ∷ []), record { value = 0; expires_at = 100 }) ∷ [];
    max_size = 5;
  };
  heap = record { next = 1; at = λ a. if a == 0 then some tenant else none };
}

cached_at_5 : cache_get 5 (tenant_cache_key (b't' ∷ [])) tenants.cache ≡ some 0
unfolding cache_get find tenant_cache_key
cached_at_5 = refl

cached_at_9 : cache_get 9 (tenant_cache_key (b't' ∷ [])) tenants.cache ≡ some 0
unfolding cache_get find tenant_cache_key
cached_at_9 = refl

in_table : find (b't' ∷ []) tenants.tenants ≡ some tenant
unfolding find
in_table = refl

update-refused_factor_example :
    let (s', updated) = update_replication_factor keep_order 60 true true 5 (b't' ∷ []) 7 tenants in
    (updated ≡ none)
    × (s'.tenants ≡ tenants.tenants)
    × (get_tenant keep_order 60 true 9 (b't' ∷ []) s' ≡ (s', some 0))
    × (s'.heap.at 0 ≡ some (changed_to 7 5 tenant))
update-refused_factor_example =
    update-refused_factor keep_order 60 (b't' ∷ []) tenants 0 tenant true true 5 9 7 refl
      cached_at_5 cached_at_9 (omega arith) (omega arith) (ground arith)

update-saved_factor_example :
    let (s', updated) = update_replication_factor keep_order 60 true true 5 (b't' ∷ []) 4 tenants in
    let (s'', got) = get_tenant keep_order 60 true 9 (b't' ∷ []) s' in
    (updated ≡ some 0)
    × (find (b't' ∷ []) s'.tenants ≡ some (updated_row 4 5 tenant))
    × (got ≡ some s'.heap.next)
    × (s''.heap.at s'.heap.next ≡ some (updated_row 4 5 tenant))
update-saved_factor_example =
    update-saved_factor keep_order 60 tenants 0 tenant tenant true 5 9 4 refl cached_at_5 in_table
      refl (omega arith) (omega arith) (ground arith)
