-- ===== src/Streaming/Life.antt =====
-- The life of a stream, and the composite keys that it takes apart.
use pair_db.Prelude.{
  ℕ, true, false, ◌==◌, ◌≡◌, refl, arith, String, str_eq, eq_iff, none, some, List, [], ◌∷◌, not,
  inl, inr, Option-cases, ◌&&◌,
}
use pair_db.GoMap.{lookup, insert, lookup-insert, lookup-delete}
use pair_db.Bytes.{Bytes, bytes_eq_iff}
use pair_db.Cache.{Float64}
use pair_db.Validator.{Unicode, Validator, validate_tenant_id, contains}
use pair_db.KeyRanges.{KeyRange}
use pair_db.StorageService.{StorageService, Disk, Call, build_key}
use pair_db.StorageService.Keys.{tenant_no_colon}
use pair_db.Streaming.{
  StreamContext, StreamingManager, StreamState, copying, completed, add_stream, get_stream,
  remove_stream, parse_composite_key, scan_keys_in_range, get_remote_checksum,
  compute_range_checksum, copy_batches, bulk_copy_phase, sync_ranges, sync_verification_phase,
  execute_streaming, execute_stream,
}
use pair_db.Streaming.Handler.{
  StartStreamingRequest, started, acknowledged, not_found, status, start_streaming,
  get_stream_status, notify_streaming_complete, is_completed, is_failed, stream_of,
}

parse-build :
    (t k : Bytes) → contains b':' t ≡ false → parse_composite_key (build_key t k) ≡ some (t, k)
unfolding parse_composite_key build_key
parse-build [] k no_colon = refl
parse-build (x ∷ t) k no_colon =
    let not_colon : (x == b':') ≡ false = ground arith in
    rw (not_colon, parse-build t k (ground arith)) refl

-- The composite key of a validated tenant and any key is taken apart into them.
parse_composite_key-build_key :
    (U : Unicode) (v : Validator) (tenant_id key : Bytes)
    → validate_tenant_id U v tenant_id ≡ none
    → parse_composite_key (build_key tenant_id key) ≡ some (tenant_id, key)
parse_composite_key-build_key U v tenant_id key valid =
    parse-build tenant_id key (tenant_no_colon U v tenant_id valid)

module _ (R : Float64) (U : Unicode) (D : Disk) (c : Bytes → Call R) where
  bulk_copy_lem :
      (n : ℕ) (ranges : List KeyRange) (s : StorageService R U D) (stream : StreamContext)
      → bulk_copy_phase R U D c n ranges s stream ≡ some (s, stream)
  unfolding bulk_copy_phase copy_batches scan_keys_in_range
  bulk_copy_lem n [] s stream = refl
  bulk_copy_lem n (r ∷ ranges) s stream = bulk_copy_lem n ranges s stream

  sync_lem :
      (ranges : List KeyRange) (s : StorageService R U D) (stream : StreamContext)
      → sync_ranges R U D c ranges s stream ≡ some (s, stream)
  unfolding sync_ranges get_remote_checksum
  sync_lem [] s stream = refl
  sync_lem (r ∷ ranges) s stream =
      rw ((bytes_eq_iff (compute_range_checksum r) (compute_range_checksum r)).1 refl)
        (sync_lem ranges s stream)

  execute_lem :
      (now n : ℕ) (s : StorageService R U D) (stream : StreamContext)
      → execute_streaming R U D c now n s stream
        ≡ some (s, record stream { state = completed; last_sync_time = now })
  unfolding execute_streaming sync_verification_phase
  execute_lem now n s stream =
      let begun = record stream { state = copying } in
      let syncing = record stream { state = StreamState.syncing } in
      rw (bulk_copy_lem n stream.key_ranges s begun, sync_lem stream.key_ranges s syncing) refl

  module _ (now : ℕ) (req : StartStreamingRequest) (sm : StreamingManager) where
    abbrev begun : StreamContext
    begun = record (stream_of req) { start_time = now }

    added :
        lookup req.target_node_id sm.active_streams ≡ none
        → lookup req.target_node_id (insert req.target_node_id begun sm.active_streams) ≡ some begun
    added free = ground (
      arith,
      lookup-insert req.target_node_id req.target_node_id begun sm.active_streams,
      eq_iff req.target_node_id req.target_node_id,
    )

    started-stream :
        (sm1 : StreamingManager)
        → start_streaming now req sm ≡ (sm1, started)
        → (str_eq req.target_node_id "" ≡ false) × (get_stream sm1 req.target_node_id ≡ some begun)
    unfolding start_streaming add_stream get_stream
    started-stream sm1 e = elim (Option-cases (lookup req.target_node_id sm.active_streams)) [
      | inl free ↦ ground (arith, free, added free)
      | inr (old, taken) ↦ absurd (ground (arith, taken))
    ]

  abbrev finished : ℕ → StreamContext → StreamContext
  finished now stream = record stream { state = completed; last_sync_time = now }

  executed :
      (now : ℕ) (target : String) (s : StorageService R U D) (sm : StreamingManager)
      (stream : StreamContext)
      → get_stream sm target ≡ some stream
      → execute_stream R U D c now target s sm
        ≡ some (
          s,
          record sm { active_streams = insert target (finished now stream) sm.active_streams },
        )
  unfolding execute_stream
  executed now target s sm stream e =
      rw (execute_stream, e, execute_lem now sm.batch_size s stream) refl

  found-insert :
      (target : String) (stream : StreamContext) (sm : StreamingManager)
      → get_stream (record sm { active_streams = insert target stream sm.active_streams }) target
        ≡ some stream
  unfolding get_stream
  found-insert target stream sm =
      ground (arith, lookup-insert target target stream sm.active_streams, eq_iff target target)

  status_lem :
      (target : String) (stream : StreamContext) (sm : StreamingManager)
      → str_eq target "" ≡ false
      → get_stream sm target ≡ some stream
      → get_stream_status sm target
        ≡ status
            (not (is_completed stream.state) && not (is_failed stream.state))
            stream.state
            stream.keys_copied
            stream.keys_streamed
  unfolding get_stream_status
  status_lem target stream sm named found = rw (named, found) refl

  acknowledge :
      (target : String) (stream : StreamContext) (sm : StreamingManager)
      → str_eq target "" ≡ false
      → get_stream sm target ≡ some stream
      → stream.state ≡ completed
      → (notify_streaming_complete target sm ≡ (remove_stream target sm, acknowledged))
        × (get_stream_status (remove_stream target sm) target ≡ not_found)
  unfolding notify_streaming_complete get_stream_status remove_stream get_stream
  acknowledge target stream sm named found done = (
    rw (named, found, done) refl,
    ground (arith, named, lookup-delete target target sm.active_streams, eq_iff target target),
  )

  -- A stream that StartStreaming has started is active and copies. Its execution, without writes in
  -- between, ends; the stream then has state completed and has copied no key, whatever the node stores,
  -- and the storage service is as before. NotifyStreamingComplete acknowledges it, and it is gone.
  pub stream-runs :
      (now later : ℕ) (req : StartStreamingRequest) (s : StorageService R U D)
      (sm sm1 : StreamingManager)
      → start_streaming now req sm ≡ (sm1, started)
      → let target = req.target_node_id in
        (get_stream_status sm1 target ≡ status true copying 0 0)
        × (sm2 : StreamingManager) × (execute_stream R U D c later target s sm1 ≡ some (s, sm2))
        × (get_stream_status sm2 target ≡ status false completed 0 0)
        × (notify_streaming_complete target sm2 ≡ (remove_stream target sm2, acknowledged))
        × (get_stream_status (remove_stream target sm2) target ≡ not_found)
  unfolding stream_of
  stream-runs now later req s sm sm1 e =
      let target = req.target_node_id in
      let (named, found) = started-stream now req sm sm1 e in
      let done = finished later (begun now req sm) in
      let sm2 = record sm1 { active_streams = insert target done sm1.active_streams } in
      let there = found-insert target done sm1 in
      let (known, gone) = acknowledge target done sm2 named there refl in
      (
        status_lem target (begun now req sm) sm1 named found,
        sm2,
        executed later target s sm1 (begun now req sm) found,
        status_lem target done sm2 named there,
        known,
        gone,
      )
