-- ===== src/Streaming/Handler.antt =====
-- The streaming calls of the storage handler. A response that is an error of gRPC too has its own
-- constructor.
use pair_db.Prelude.{
  ℕ, Bool, true, false, not, ◌&&◌, ◌||◌, if◌then◌else◌, none, some, String, str_eq, List, [], ◌∷◌,
}
use pair_db.KeyRanges.{KeyRange}
use pair_db.Streaming.{
  StreamState, StreamContext, StreamingManager, copying, add_stream, remove_stream, get_stream,
}

pub record StartStreamingRequest : Type 0 where
  pub source_node_id : String
  pub target_node_id : String
  pub target_host : String
  pub target_port : ℕ
  pub key_ranges : List KeyRange

pub data StartStreamingResponse : Type 0 where
  ids_required ranges_required already_exists started : StartStreamingResponse

pub data StopStreamingResponse : Type 0 where
  target_required stopped : StopStreamingResponse

pub data StreamStatusResponse : Type 0 where
  status_error not_found : StreamStatusResponse
  status :
      (active : Bool) (state : StreamState) (keys_copied keys_streamed : ℕ) → StreamStatusResponse

pub data StreamingCompleteResponse : Type 0 where
  no_target no_stream acknowledged : StreamingCompleteResponse
  not_completed : StreamState → StreamingCompleteResponse

abbrev pub is_nil : List KeyRange → Bool
is_nil [] = true
is_nil (r ∷ ranges) = false

unfoldable pub stream_of : StartStreamingRequest → StreamContext
stream_of req = record {
  target_node_id = req.target_node_id;
  target_host = req.target_host;
  target_port = req.target_port;
  key_ranges = req.key_ranges;
  state = copying;
  keys_copied = 0;
  keys_streamed = 0;
  bytes_copied = 0;
  bytes_streamed = 0;
  last_sync_time = 0;
  start_time = 0;
}

unfoldable pub start_streaming :
    ℕ → StartStreamingRequest → StreamingManager → StreamingManager × StartStreamingResponse
start_streaming now req sm =
    if str_eq req.source_node_id "" || str_eq req.target_node_id ""
    then (sm, ids_required)
    else if is_nil req.key_ranges
    then (sm, ranges_required)
    else elim (add_stream now req.target_node_id (stream_of req) sm) [
      | none ↦ (sm, already_exists)
      | some sm' ↦ (sm', started)
    ]

unfoldable pub stop_streaming : String → StreamingManager → StreamingManager × StopStreamingResponse
stop_streaming target_node_id sm =
    if str_eq target_node_id ""
    then (sm, target_required)
    else (remove_stream target_node_id sm, stopped)

abbrev pub is_completed : StreamState → Bool
is_completed StreamState.completed = true
is_completed _ = false

abbrev pub is_failed : StreamState → Bool
is_failed StreamState.failed = true
is_failed _ = false

unfoldable pub get_stream_status : StreamingManager → String → StreamStatusResponse
get_stream_status sm target_node_id =
    if str_eq target_node_id "" then status_error else elim (get_stream sm target_node_id) [
      | none ↦ not_found
      | some stream ↦
          status (not (is_completed stream.state) && not (is_failed stream.state)) stream.state
            stream.keys_copied stream.keys_streamed
    ]

unfoldable pub notify_streaming_complete :
    String → StreamingManager → StreamingManager × StreamingCompleteResponse
notify_streaming_complete target_node_id sm =
    if str_eq target_node_id "" then (sm, no_target) else elim (get_stream sm target_node_id) [
      | none ↦ (sm, no_stream)
      | some stream ↦
          if is_completed stream.state
          then (remove_stream target_node_id sm, acknowledged)
          else (sm, StreamingCompleteResponse.not_completed stream.state)
    ]
