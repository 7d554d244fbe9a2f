-- ===== src/Streaming.antt =====
-- `StreamingManager` of storage-node/internal/service/streaming_service.go, and the calls of
-- storage-node/internal/handler/storage_handler.go that reach it: the streams of a node to others. The
-- background execution of a stream is `execute_stream`, apart from the call that starts it. The scan of the
-- keys, the sending and the remote checksum are the source's placeholders.
pub mod Gathered
pub mod Handler
pub mod Ranges
pub mod Life
use pair_db.Prelude.{
  ℕ, zero, suc, ◌+◌, Bool, true, false, ltb, leb, not, ◌&&◌, ◌||◌, ◌==◌, if◌then◌else◌, Option,
  none, some, ◌>>=◌, String, List, [], ◌∷◌, ◌++◌, length, take, drop, map,
}
use pair_db.GoMap.{GoMap, lookup, insert, delete}
use pair_db.Bytes.{Bytes, bytes_eq, decimal}
use pair_db.Cache.{Float64}
use pair_db.Validator.{Unicode}
use pair_db.KeyRanges.{KeyRange}
use pair_db.StorageService.{StorageService, Disk, Call, Outcome, ReadResponse}
use pair_db.StorageService.Lookup.{read_key}

pub data StreamState : Type 0 where
  copying streaming syncing completed failed : StreamState

pub record StreamContext : Type 0 where
  pub target_node_id : String
  pub target_host : String
  pub target_port : ℕ
  pub key_ranges : List KeyRange
  pub state : StreamState
  pub keys_copied : ℕ
  pub keys_streamed : ℕ
  pub bytes_copied : ℕ
  pub bytes_streamed : ℕ
  pub last_sync_time : ℕ
  pub start_time : ℕ

pub record StreamingManager : Type 0 where
  pub active_streams : GoMap StreamContext
  pub batch_size : ℕ
  pub stream_buffer : ℕ
  pub checksum_workers : ℕ

-- NewStreamingManager; a number that is not positive is 0 here
unfoldable pub new_streaming_manager : ℕ → ℕ → ℕ → StreamingManager
new_streaming_manager batch_size stream_buffer checksum_workers = record {
  active_streams = [];
  batch_size = if batch_size == 0 then 1000 else batch_size;
  stream_buffer = if stream_buffer == 0 then 10000 else stream_buffer;
  checksum_workers = if checksum_workers == 0 then 4 else checksum_workers;
}

-- `none` where there is a stream to the node already
unfoldable pub add_stream : ℕ → String → StreamContext → StreamingManager → Option StreamingManager
add_stream now target_node_id stream sm = elim (lookup target_node_id sm.active_streams) [
  | some _ ↦ none
  | none ↦ some (record sm {
    active_streams = insert target_node_id (record stream { start_time = now }) sm.active_streams;
  })
]

unfoldable pub remove_stream : String → StreamingManager → StreamingManager
remove_stream target_node_id sm = record sm {
  active_streams = delete target_node_id sm.active_streams;
}

unfoldable pub get_stream : StreamingManager → String → Option StreamContext
get_stream sm target_node_id = lookup target_node_id sm.active_streams

unfoldable pub key_in_ranges : ℕ → List KeyRange → Bool
key_in_ranges key_hash [] = false
key_in_ranges key_hash (r ∷ ranges) =
    let rest = key_in_ranges key_hash ranges in
    if leb r.start_hash key_hash && ltb key_hash r.end_hash
    then true
    else if ltb r.end_hash r.start_hash
    then (if leb r.start_hash key_hash || ltb key_hash r.end_hash then true else rest)
    else rest

abbrev pub is_streaming : StreamState → Bool
is_streaming StreamState.streaming = true
is_streaming _ = false

-- `sendToTargetNode`: whether the key arrives
unfoldable pub send_to_target_node : StreamContext → Bytes → Bytes → Bytes → Bool
send_to_target_node stream tenant_id key value = true

-- InterceptWrite, for one stream, with the goroutine it starts
unfoldable pub intercept : Bytes → Bytes → Bytes → ℕ → StreamContext → StreamContext
intercept tenant_id key value key_hash stream =
    if is_streaming stream.state && key_in_ranges key_hash stream.key_ranges
    then (if send_to_target_node stream tenant_id key value
        then record stream {
          keys_streamed = stream.keys_streamed + 1;
          bytes_streamed = stream.bytes_streamed + length value;
        }
        else stream)
    else stream

unfoldable pub intercept_write : Bytes → Bytes → Bytes → ℕ → StreamingManager → StreamingManager
intercept_write tenant_id key value key_hash sm = record sm {
  active_streams = map (λ p. (p.0, intercept tenant_id key value key_hash p.1)) sm.active_streams;
}

-- the part before the first colon, and the part after it
unfoldable pub parse_composite_key : Bytes → Option (Bytes × Bytes)
parse_composite_key [] = none
parse_composite_key (c ∷ rest) =
    let later = parse_composite_key rest in
    if c == b':' then some ([], rest) else later >>= λ (tenant_id, key). some (c ∷ tenant_id, key)

-- the placeholder finds no keys
unfoldable pub scan_keys_in_range : KeyRange → List Bytes
scan_keys_in_range range = []

-- "checksum_%d_%d"
unfoldable pub compute_range_checksum : KeyRange → Bytes
compute_range_checksum r =
    b'c' ∷ b'h' ∷ b'e' ∷ b'c' ∷ b'k' ∷ b's' ∷ b'u' ∷ b'm' ∷ b'_' ∷ decimal r.start_hash
    ++ (b'_' ∷ decimal r.end_hash)

unfoldable pub get_remote_checksum : StreamContext → KeyRange → Bytes
get_remote_checksum stream range = compute_range_checksum range

module _ (R : Float64) (U : Unicode) (D : Disk) (c : Bytes → Call R) where
  -- The storage service and the stream, or `none` for a panic in the storage service; `c` gives the call
  -- that reads a key.
  abbrev pub Progress : Type 0
  Progress = Option (StorageService R U D × StreamContext)

  unfoldable pub sent_copy :
      Bytes
      → Bytes
      → StreamContext
      → StorageService R U D × Outcome ReadResponse
      → StorageService R U D × StreamContext
  sent_copy tenant_id key stream (s, Outcome.failed e) = (s, stream)
  sent_copy tenant_id key stream (s, Outcome.ok resp) =
      if send_to_target_node stream tenant_id key resp.value
      then (
        s,
        record stream {
          keys_copied = stream.keys_copied + 1;
          bytes_copied = stream.bytes_copied + length resp.value;
        },
      )
      else (s, stream)

  unfoldable pub copy_key :
      Bytes → StorageService R U D → StreamContext → Option (Bytes × Bytes) → Progress
  copy_key composite s stream none = some (s, stream)
  copy_key composite s stream (some (tenant_id, key)) =
      read_key R U D (c composite) tenant_id key s >>= λ read.
      some (sent_copy tenant_id key stream read)

  unfoldable pub copy_batch : StorageService R U D → StreamContext → List Bytes → Progress
  copy_batch s stream [] = some (s, stream)
  copy_batch s stream (k ∷ keys) =
      copy_key k s stream (parse_composite_key k) >>= λ (s', stream'). copy_batch s' stream' keys

  -- the batches of one range, with rounds to go
  unfoldable pub copy_batches : ℕ → ℕ → StorageService R U D → StreamContext → List Bytes → Progress
  copy_batches batch_size zero s stream keys = some (s, stream)
  copy_batches batch_size (suc todo) s stream keys =
      copy_batch s stream (take batch_size keys) >>= λ (s', stream').
      copy_batches batch_size todo s' stream' (drop batch_size keys)

  -- a range needs at most as many batches as it has keys
  unfoldable pub bulk_copy_phase :
      ℕ → List KeyRange → StorageService R U D → StreamContext → Progress
  bulk_copy_phase batch_size [] s stream = some (s, stream)
  bulk_copy_phase batch_size (r ∷ ranges) s stream =
      let keys = scan_keys_in_range r in
      copy_batches batch_size (length keys) s stream keys >>= λ (s', stream').
      bulk_copy_phase batch_size ranges s' stream'

  unfoldable pub re_sync_range : KeyRange → StorageService R U D → StreamContext → Progress
  re_sync_range r s stream = copy_batch s stream (scan_keys_in_range r)

  unfoldable pub sync_ranges : List KeyRange → StorageService R U D → StreamContext → Progress
  sync_ranges [] s stream = some (s, stream)
  sync_ranges (r ∷ ranges) s stream =
      (if bytes_eq (compute_range_checksum r) (get_remote_checksum stream r)
        then some (s, stream)
        else re_sync_range r s stream)
      >>= λ (s', stream'). sync_ranges ranges s' stream'

  unfoldable pub sync_verification_phase : ℕ → StorageService R U D → StreamContext → Progress
  sync_verification_phase now s stream = sync_ranges stream.key_ranges s stream >>= λ (s', stream').
      some (s', record stream' { last_sync_time = now })

  unfoldable pub execute_streaming : ℕ → ℕ → StorageService R U D → StreamContext → Progress
  execute_streaming now batch_size s stream =
      bulk_copy_phase batch_size stream.key_ranges s (record stream { state = copying })
      >>= λ (s1, copied).
          sync_verification_phase now s1
            (record (record copied { state = streaming }) { state = syncing })
          >>= λ (s2, synced). some (s2, record synced { state = completed })

  -- the background execution of the stream to a node
  unfoldable pub execute_stream :
      ℕ
      → String
      → StorageService R U D
      → StreamingManager
      → Option (StorageService R U D × StreamingManager)
  execute_stream now target_node_id s sm = elim (get_stream sm target_node_id) [
    | none ↦ some (s, sm)
    | some stream ↦ execute_streaming now sm.batch_size s stream >>= λ (s', stream').
        some (s', record sm { active_streams = insert target_node_id stream' sm.active_streams })
  ]
