-- ===== src/Coordinator/Requests/Writes.antt =====
-- The guards of a write, and the clock that it writes.
use pair_db.Prelude.{
  ℕ, ◌<◌, ◌≤◌, String, List, true, false, Option, none, some, ◌≡◌, refl, arith, ap, subst, ◌∙◌,
}
use pair_db.GoMap.{Iteration}
use pair_db.Int64.{zero64, max64}
use pair_db.VectorClock.{VectorClock, timestamp, before}
use pair_db.VectorClock.Compare.{compare}
use pair_db.VectorClock.Service.{VectorClockService}
use pair_db.VectorClock.Service.Monotone.{increment_from-after}
use pair_db.Topology.{StorageNode}
use pair_db.Consistency
use pair_db.Consistency.{normalize_consistency_level}
use pair_db.StorageClient.{Network, StorageResponse}
use pair_db.Coordinator.{
  Arrival, Reply, ok, err, Error, invalid_level, quorum_not_reached, WriteResult,
}
use pair_db.Coordinator.Write.Quorum.{write-fresh, write-missed}
use pair_db.Coordinator.Read.{read_existing_value}
use pair_db.Coordinator.Requests.{
  Services, State, IdempotencyResponse, duplicate, check_duplicate, stored_key, next_clock,
  with_replicas, with_cached, with_level, write_replicas, resolve_replicas, write_key_value,
}

-- The reply comes from a check before any replica is asked.
abbrev pub IsEarly : Reply WriteResult → Type 0
IsEarly (ok w) = w.is_duplicate ≡ true
IsEarly (err (quorum_not_reached n m)) = ⊥
IsEarly (err e) = Unit

module _ (svc : Services) (net : Network) (range : Iteration) (now : ℕ) (reads writes : Arrival)
    (s : State) (tenant_id key : String) (value : List ℕ) where
  resolve-IsEarly :
      (e : Error)
      → resolve_replicas svc net range tenant_id key svc.get_write_replicas ≡ err e
      → IsEarly (err e)
  unfolding resolve_replicas
  resolve-IsEarly (quorum_not_reached n m) h = ground arith
  resolve-IsEarly invalid_level h = tt
  resolve-IsEarly _ h = tt

  module _ (consistency idempotency_key : String) where
    abbrev pub handle : State × Reply WriteResult
    handle =
        write_key_value svc net range now reads writes s tenant_id key value consistency
          idempotency_key

    -- A request is answered early, with the state as it was, or its replicas are asked.
    pub data Course : State × Reply WriteResult → Type 0 where
      early : (r : Reply WriteResult) → IsEarly r → Course (s, r)
      late :
          (level : String) (replicas : List StorageNode)
          → normalize_consistency_level svc.default_level consistency ≡ Consistency.ok level
          → resolve_replicas svc net range tenant_id key svc.get_write_replicas ≡ ok replicas
          → Course (
              write_replicas svc net range now reads writes s tenant_id key value
                (stored_key svc tenant_id key idempotency_key)
                level
                replicas)

    replicas-Course :
        (level : String) (r : Reply (List StorageNode))
        → normalize_consistency_level svc.default_level consistency ≡ Consistency.ok level
        → resolve_replicas svc net range tenant_id key svc.get_write_replicas ≡ r
        → Course (
            with_replicas svc net range now reads writes s tenant_id key value idempotency_key level
              r)
    unfolding with_replicas stored_key
    replicas-Course level (err e) n h = early (err e) (resolve-IsEarly e h)
    replicas-Course level (ok replicas) n h = late level replicas n h

    cached-Course :
        (level : String) (r : Option IdempotencyResponse)
        → normalize_consistency_level svc.default_level consistency ≡ Consistency.ok level
        → Course (
            with_cached svc net range now reads writes s tenant_id key value idempotency_key level
              r)
    unfolding with_cached duplicate
    cached-Course level (some r) n = early (ok (duplicate key r)) refl
    cached-Course level none n = replicas-Course level _ n refl

    level-Course :
        (r : Consistency.Result String)
        → normalize_consistency_level svc.default_level consistency ≡ r
        → Course (with_level svc net range now reads writes s tenant_id key value idempotency_key r)
    unfolding with_level
    level-Course (Consistency.err _) n = early (err invalid_level) tt
    level-Course (Consistency.ok level) n =
        cached-Course level (check_duplicate svc s.stored tenant_id key idempotency_key) n

    pub handle-Course : Course handle
    unfolding write_key_value
    handle-Course = level-Course (normalize_consistency_level svc.default_level consistency) refl

  module _ (idem level : String) (replicas : List StorageNode) where
    abbrev issued : VectorClockService × VectorClock
    issued =
        next_clock range s.vc_service tenant_id
          (read_existing_value net tenant_id key reads replicas)

    -- The reply after the replicas were asked is never an early one.
    late_reply :
        (r : Reply WriteResult)
        → (write_replicas svc net range now reads writes s tenant_id key value idem level
            replicas).1
          ≡ r
        → ¬ IsEarly r
    unfolding write_replicas
    late_reply (ok w) h e =
        let fresh =
          write-fresh net now tenant_id key value issued.1 writes s.hints replicas level w h in
        cc
    late_reply (err e) h i =
        subst (λ x. IsEarly (err x))
          (write-missed net now tenant_id key value issued.1 writes s.hints replicas level e h) i

    late_clock :
        (w : WriteResult)
        → (write_replicas svc net range now reads writes s tenant_id key value idem level
            replicas).1
          ≡ ok w
        → w.vector_clock ≡ issued.1
    unfolding write_replicas
    late_clock w h =
        (write-fresh net now tenant_id key value issued.1 writes s.hints replicas level w h).1

    late-after :
        (w : WriteResult) (existing : StorageResponse)
        → (write_replicas svc net range now reads writes s tenant_id key value idem level
            replicas).1
          ≡ ok w
        → read_existing_value net tenant_id key reads replicas ≡ some existing
        → zero64 ≤ s.vc_service.local_timestamp
        → s.vc_service.local_timestamp < max64
        → timestamp existing.vector_clock s.vc_service.node_id < max64
        → (compare range existing.vector_clock w.vector_clock ≡ before)
          × (s.vc_service.local_timestamp
              < (write_replicas svc net range now reads writes s tenant_id key value idem level
                  replicas).0.vc_service.local_timestamp)
    unfolding write_replicas next_clock
    late-after w existing h found positive room room' =
        let after =
          increment_from-after range s.vc_service existing.vector_clock room room' positive in
        rw (late_clock w h, found) (after.0, after.2)

  module _ (consistency idempotency_key : String) where
    -- After a reply that no replica was asked for (a duplicate, a level that is not valid, a tenant or
    -- replicas that are not found) the state is what it was.
    early-keeps_state :
        IsEarly (handle consistency idempotency_key).1 → (handle consistency idempotency_key).0 ≡ s
    early-keeps_state = go (handle-Course consistency idempotency_key)
      where
        go :
            {r : State × Reply WriteResult}
            → Course consistency idempotency_key r
            → IsEarly r.1
            → r.0 ≡ s
        go (early r e) h = refl
        go (late level replicas n f) h = absurd (late_reply _ level replicas _ refl h)

    -- Take a write whose tenant and key have the given replicas, of which a read finds an existing
    -- version, and let no timestamp of this node be at the largest `int64`, nor the local one negative. If
    -- the write succeeds and is no duplicate, its clock is after that version's in the causal order, and
    -- the local timestamp has grown.
    pub fresh_write-after :
        (w : WriteResult) (replicas : List StorageNode) (existing : StorageResponse)
        → (handle consistency idempotency_key).1 ≡ ok w
        → w.is_duplicate ≡ false
        → resolve_replicas svc net range tenant_id key svc.get_write_replicas ≡ ok replicas
        → read_existing_value net tenant_id key reads replicas ≡ some existing
        → zero64 ≤ s.vc_service.local_timestamp
        → s.vc_service.local_timestamp < max64
        → timestamp existing.vector_clock s.vc_service.node_id < max64
        → (compare range existing.vector_clock w.vector_clock ≡ before)
          × (s.vc_service.local_timestamp
              < (handle consistency idempotency_key).0.vc_service.local_timestamp)
    fresh_write-after w replicas existing h d found =
        go (handle-Course consistency idempotency_key) h
      where
        go :
            {r : State × Reply WriteResult}
            → Course consistency idempotency_key r
            → r.1 ≡ ok w
            → read_existing_value net tenant_id key reads replicas ≡ some existing
            → zero64 ≤ s.vc_service.local_timestamp
            → s.vc_service.local_timestamp < max64
            → timestamp existing.vector_clock s.vc_service.node_id < max64
            → (compare range existing.vector_clock w.vector_clock ≡ before)
              × (s.vc_service.local_timestamp < r.0.vc_service.local_timestamp)
        go (early (err x) e) h' = ground arith
        go (early (ok x) e) h' = ground arith
        go (late level others n f) h' =
            let same : others ≡ replicas = ground arith in
            λ e.
              late-after _ level others w existing h'
                (ap (read_existing_value net tenant_id key reads) same ∙ e)
