-- ===== src/Coordinator/Requests/Retry.antt =====
-- A client that sends a write again.
use pair_db.Prelude.{
  ℕ, String, List, false, none, ◌≡◌, refl, arith, subst, str_eq, Bool-cases, inl, inr,
}
use pair_db.GoMap.{Iteration}
use pair_db.Topology.{StorageNode}
use pair_db.Consistency
use pair_db.Consistency.{normalize_consistency_level}
use pair_db.StorageClient.{Network}
use pair_db.Coordinator.{Arrival, Reply, ok, err, WriteResult}
use pair_db.Coordinator.Write.Quorum.{write-fresh}
use pair_db.Coordinator.Read.{read_existing_value}
use pair_db.Coordinator.Requests.{
  Services, State, Stored, check_duplicate, redis_get, get_response, stored_key, next_clock,
  with_replicas, with_cached, with_level, write_replicas, resolve_replicas, write_key_value,
}
use pair_db.Coordinator.Requests.Writes.{Course, handle-Course, early, late}

-- The service finds nothing, whatever is stored.
check_duplicate-misses :
    (svc : Services) (stored : List Stored) (tenant_id key idem : String)
    → check_duplicate svc stored tenant_id key idem ≡ none
unfolding check_duplicate redis_get get_response
check_duplicate-misses svc stored tenant_id key idem = elim (Bool-cases (str_eq idem "")) [
  | inl e ↦ rw e refl
  | inr e ↦ elim (Bool-cases (svc.has_key stored tenant_id key idem)) [
    | inl kept ↦ rw (e, kept) refl
    | inr absent ↦ rw (e, absent) refl
  ]
]

module _ (svc : Services) (net : Network) (range : Iteration) (now : ℕ) (reads writes : Arrival)
    (s : State) (tenant_id key : String) (value : List ℕ) where
  fresh-write_replicas :
      (idem level : String) (replicas : List StorageNode) (w : WriteResult)
      → (write_replicas svc net range now reads writes s tenant_id key value idem level replicas).1
        ≡ ok w
      → w.is_duplicate ≡ false
  unfolding write_replicas
  fresh-write_replicas idem level replicas w h =
      let issued =
        next_clock range s.vc_service tenant_id
          (read_existing_value net tenant_id key reads replicas) in
      (write-fresh net now tenant_id key value issued.1 writes s.hints replicas level w h).0

  fresh-with_replicas :
      (idem level : String) (r : Reply (List StorageNode)) (w : WriteResult)
      → (with_replicas svc net range now reads writes s tenant_id key value idem level r).1 ≡ ok w
      → w.is_duplicate ≡ false
  unfolding with_replicas
  fresh-with_replicas idem level (err e) w h = absurd (ground arith)
  fresh-with_replicas idem level (ok replicas) w h =
      fresh-write_replicas (stored_key svc tenant_id key idem) level replicas w h

  fresh-with_level :
      (idem : String) (r : Consistency.Result String) (w : WriteResult)
      → (with_level svc net range now reads writes s tenant_id key value idem r).1 ≡ ok w
      → w.is_duplicate ≡ false
  unfolding with_level with_cached
  fresh-with_level idem (Consistency.err _) w h = absurd (ground arith)
  fresh-with_level idem (Consistency.ok level) w h =
      fresh-with_replicas idem level
        (resolve_replicas svc net range tenant_id key svc.get_write_replicas) w
        (subst
          (λ c.
            (with_cached svc net range now reads writes s tenant_id key value idem level c).1
            ≡ ok w)
          (check_duplicate-misses svc s.stored tenant_id key idem) h)

  module _ (consistency idem : String) where
    asked :
        (r : State × Reply WriteResult) (w : WriteResult)
        → Course svc net range now reads writes s tenant_id key value consistency idem r
        → r.1 ≡ ok w
        → w.is_duplicate ≡ false
        → (level : String) × (replicas : List StorageNode) × (resolve_replicas svc net range
              tenant_id key svc.get_write_replicas
            ≡ ok replicas)
          × (r
              ≡ write_replicas svc net range now reads writes s tenant_id key value
                  (stored_key svc tenant_id key idem)
                  level
                  replicas)
    asked r w (early (err x) e) h d = absurd (ground arith)
    asked r w (early (ok x) e) h d = absurd (ground arith)
    asked r w (late level replicas n f) h d = (level, replicas, f, refl)

    -- A write that succeeds is never reported as a duplicate, whatever was stored under its idempotency
    -- key before, and whether or not the store still has it: the replicas of the key are asked, and the
    -- result is theirs.
    pub write-never_duplicate :
        (w : WriteResult)
        → (write_key_value svc net range now reads writes s tenant_id key value consistency idem).1
          ≡ ok w
        → (w.is_duplicate ≡ false)
          × (level : String) × (replicas : List StorageNode) × (resolve_replicas svc net range
                tenant_id key svc.get_write_replicas
              ≡ ok replicas)
          × (write_key_value svc net range now reads writes s tenant_id key value consistency idem
              ≡ write_replicas svc net range now reads writes s tenant_id key value
                  (stored_key svc tenant_id key idem)
                  level
                  replicas)
    unfolding write_key_value
    write-never_duplicate w h =
        let fresh =
          fresh-with_level idem (normalize_consistency_level svc.default_level consistency) w h in
        let (level, replicas, found, same) =
          asked
            (write_key_value svc net range now reads writes s tenant_id key value consistency idem)
            w (handle-Course svc net range now reads writes s tenant_id key value consistency idem)
            h fresh in
        (fresh, level, replicas, found, same)
