-- ===== src/Coordinator/Requests.antt =====
-- `WriteKeyValue` and `ReadKeyValue` of coordinator/internal/service/coordinator_service_v2.go. What the
-- handlers ask of the other services is the interface `Services`.
pub mod Writes
pub mod Retry
use pair_db.Prelude.{
  ℕ, String, List, [], ◌∷◌, Bool, true, false, Option, none, some, str_eq, if◌then◌else◌,
}
use pair_db.GoMap.{Iteration}
use pair_db.VectorClock.{VectorClock}
use pair_db.VectorClock.Service.{VectorClockService, increment, increment_from}
use pair_db.Topology.{StorageNode}
use pair_db.Consistency
use pair_db.Consistency.{normalize_consistency_level}
use pair_db.HintedHandoff.{HintedHandoffService}
use pair_db.StorageClient.{Network, StorageResponse, empty_clock}
use pair_db.Coordinator.{
  Arrival, Reply, ok, err, invalid_level, tenant_failed, replicas_failed, WriteResult, ReadResult,
}
use pair_db.Coordinator.Write.{write_to_replicas_with_hints}
use pair_db.Coordinator.Read.{read_existing_value, read_from_replicas_with_repair}

-- the part of an `IdempotencyResponse` that a duplicate reports
pub record IdempotencyResponse : Type 0 where
  pub success : Bool
  pub replica_count : ℕ
  pub consistency : String

-- a response as `IdempotencyService.Store` is given it
pub record Stored : Type 0 where
  pub tenant_id : String
  pub key : String
  pub idempotency_key : String
  pub response : IdempotencyResponse

-- The services that a request asks, with `none` for an error.
pub record Services : Type 0 where
  pub default_level : String
  -- IdempotencyService.Generate: a hash of tenant, key, time and a random number
  pub generate : String → String → String
  -- Redis: whether it has a value for the key, of what was stored, the last first
  pub has_key : List Stored → String → String → String → Bool
  -- TenantService.GetTenant: the replication factor
  pub get_tenant : String → Option ℕ
  pub get_write_replicas : String → String → ℕ → Option (List StorageNode)
  pub get_read_replicas : String → String → ℕ → Option (List StorageNode)

pub record State : Type 0 where
  pub vc_service : VectorClockService
  pub hints : HintedHandoffService
  pub stored : List Stored

duplicate : String → IdempotencyResponse → WriteResult
duplicate key r = record {
  success = r.success;
  key = key;
  vector_clock = empty_clock;
  replica_count = r.replica_count;
  consistency = r.consistency;
  is_duplicate = true;
}

-- what is in the `interface{}` that the store returns: a pointer, or what JSON is decoded to
pub data StoredValue : Type 0 where
  pointer : IdempotencyResponse → StoredValue
  decoded : StoredValue

-- RedisIdempotencyStore.Get: json.Unmarshal into an `interface{}`; `none` for an error or no value
redis_get : Services → List Stored → String → String → String → Option StoredValue
redis_get svc stored tenant_id key idempotency_key =
    if svc.has_key stored tenant_id key idempotency_key then some decoded else none

-- IdempotencyService.Get: the type assertion on what the store returns. An error is logged by the
-- handler, and counts as a miss.
get_response : Option StoredValue → Option IdempotencyResponse
get_response none = none
get_response (some (pointer r)) = some r
get_response (some decoded) = none

-- the look up of the idempotency key, if the client sent one
check_duplicate : Services → List Stored → String → String → String → Option IdempotencyResponse
unfolding redis_get get_response
check_duplicate svc stored tenant_id key idempotency_key =
    if str_eq idempotency_key ""
    then none
    else get_response (redis_get svc stored tenant_id key idempotency_key)

-- the client's idempotency key, or a new one
pub stored_key : Services → String → String → String → String
stored_key svc tenant_id key idempotency_key =
    if str_eq idempotency_key "" then svc.generate tenant_id key else idempotency_key

-- what is stored after a reply of the replicas; an error of the store is logged only
remember : String → String → String → String → Reply WriteResult → List Stored → List Stored
remember tenant_id key idempotency_key level (err e) stored = stored
remember tenant_id key idempotency_key level (ok result) stored =
    record {
      tenant_id = tenant_id;
      key = key;
      idempotency_key = idempotency_key;
      response = record {
        success = result.success;
        replica_count = result.replica_count;
        consistency = level;
      };
    }
    ∷ stored

-- the clock of a write: after the existing version, or a new one
next_clock :
    Iteration
    → VectorClockService
    → String
    → Option StorageResponse
    → VectorClockService × VectorClock
next_clock range s tenant_id none = increment s tenant_id
next_clock range s tenant_id (some existing) = increment_from range s existing.vector_clock

module _ (svc : Services) (net : Network) (range : Iteration) where
  -- from the replicas on: read, then write; the two fan-outs have orders of their own
  pub write_replicas :
      ℕ
      → Arrival
      → Arrival
      → State
      → String
      → String
      → List ℕ
      → String
      → String
      → List StorageNode
      → State × Reply WriteResult
  unfolding next_clock remember
  write_replicas now reads writes s tenant_id key value idempotency_key level replicas =
      let (vc_service, vc) =
        next_clock range s.vc_service tenant_id
          (read_existing_value net tenant_id key reads replicas) in
      let (hints, reply) =
        write_to_replicas_with_hints net now tenant_id key value vc writes s.hints replicas level in
      (
        record {
          vc_service = vc_service;
          hints = hints;
          stored = remember tenant_id key idempotency_key level reply s.stored;
        },
        reply,
      )

  pub resolve_replicas :
      String → String → (String → String → ℕ → Option (List StorageNode)) → Reply (List StorageNode)
  resolve_replicas tenant_id key get_replicas = elim (svc.get_tenant tenant_id) [
    | none ↦ err tenant_failed
    | some rf ↦ elim (get_replicas tenant_id key rf) [ none ↦ err replicas_failed | some r ↦ ok r ]
  ]

  module _ (now : ℕ) (reads writes : Arrival) (s : State) (tenant_id key : String)
      (value : List ℕ) where
    -- the stages of `WriteKeyValue`, last first
    with_replicas : String → String → Reply (List StorageNode) → State × Reply WriteResult
    unfolding stored_key
    with_replicas idempotency_key level (err e) = (s, err e)
    with_replicas idempotency_key level (ok replicas) =
        write_replicas now reads writes s tenant_id key value
          (stored_key svc tenant_id key idempotency_key) level replicas

    with_cached : String → String → Option IdempotencyResponse → State × Reply WriteResult
    with_cached idempotency_key level (some r) = (s, ok (duplicate key r))
    with_cached idempotency_key level none =
        with_replicas idempotency_key level (resolve_replicas tenant_id key svc.get_write_replicas)

    with_level : String → Consistency.Result String → State × Reply WriteResult
    with_level idempotency_key (Consistency.err _) = (s, err invalid_level)
    with_level idempotency_key (Consistency.ok level) =
        with_cached idempotency_key level
          (check_duplicate svc s.stored tenant_id key idempotency_key)

    unfoldable pub write_key_value : String → String → State × Reply WriteResult
    unfolding with_level with_cached with_replicas write_replicas resolve_replicas duplicate
        check_duplicate stored_key remember next_clock
    write_key_value consistency idempotency_key =
        with_level idempotency_key (normalize_consistency_level svc.default_level consistency)

  unfoldable pub read_key_value : Arrival → String → String → String → Reply ReadResult × Bool
  unfolding resolve_replicas
  read_key_value arrival tenant_id key consistency =
      elim (normalize_consistency_level svc.default_level consistency) [
        | Consistency.err _ ↦ (err invalid_level, false)
        | Consistency.ok level ↦ elim (resolve_replicas tenant_id key svc.get_read_replicas) [
          | err e ↦ (err e, false)
          | ok replicas ↦
              read_from_replicas_with_repair net tenant_id key range arrival replicas level
        ]
      ]
