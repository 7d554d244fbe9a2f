-- ===== src/NodeHandler.antt =====
-- `NodeHandlerV2` of coordinator/internal/handler/node_handler_v2.go: nodes are added and removed while
-- their data is streamed. What its parts share: the state, which is the metadata store, the hash ring and
-- the calls made so far, and the calls of the store and of the storage nodes. A call has a number, and the
-- environment says by it whether it gets through, and what it answers. A node's lock makes a request one
-- step; the monitor that a request starts is a function of its own.
pub mod Addition
pub mod Removal
pub mod Calm
pub mod Rounds
pub mod Joins
pub mod Leaves
pub mod Added
pub mod Rows
pub mod States
pub mod Started
pub mod Undone
pub mod Rollback
pub mod Guard
pub mod Unrecorded
use pair_db.Prelude.{
  ℕ, suc, ◌+◌, Bool, true, false, if◌then◌else◌, ◌&&◌, Option, none, some, String, str_eq, List, [],
  ◌∷◌, ◌++◌,
}
use pair_db.Bytes.{Bytes}
use pair_db.ByteMap.{ByteMap}
use pair_db.Ring.{ConsistentHasher}
use pair_db.Topology.{
  StorageNode, NodeState, NodeStatus, RangeInfo, TokenRange, PendingChange, PendingChangeStatus,
}
use pair_db.KeyRanges.{KeyRange}
use pair_db.Routing.{update_hash_ring}
use pair_db.MetadataStore
use pair_db.MetadataStore.{Database, list_storage_nodes}

-- How the outside answers. `listed` and the other answers are those of the call with a number.
pub record Environment : Type 0 where
  pub reaches : ℕ → Bool  -- the metadata store does not fail for a reason of its own
  pub stream_state : ℕ → String → String → Option String  -- GetStreamStatus, from source to target
  pub stream_started : ℕ → Option Bool  -- StartStreaming
  pub hints_replayed : ℕ → Bool  -- ReplayHintsForNode returns no error
  pub refreshes : ℕ → Bool  -- the routing service's ticker rebuilds the ring, in a wait of a monitor
  pub now : ℕ → ℕ  -- the clock
  pub scan_text : Option String → Option String
  pub before : String → String → Bool  -- the database's order of texts
  pub change_id_of : String → String → ℕ → String  -- "<type>-<node>-<seconds>"

pub data Request : Type 0 where
  start_streaming :
      (source target target_host : String) (target_port : ℕ) (ranges : List KeyRange) → Request
  stop_streaming : (source target : String) → Request

pub record Cluster : Type 0 where
  pub store : Database
  pub ring : ConsistentHasher
  pub calls : ℕ
  pub requests : List Request  -- those sent to the storage nodes, the last first

abbrev pub Action : Type 0 → Type 0
Action A = Cluster → Cluster × A

infixl 5 ◌>>=◌
abbrev pub ◌>>=◌ : {A B : Type 0} → Action A → (A → Action B) → Action B
m >>= f = λ c. let (c', a) = m c in f a c'

abbrev pub return : {A : Type 0} → A → Action A
return a = λ c. (c, a)

-- gRPC's codes, as far as the handler uses them
pub data Code : Type 0 where
  invalid_argument not_found failed_precondition internal : Code

-- the change as a success leaves it, and as a rollback does
abbrev pub completed_at : ℕ → PendingChange → PendingChange
completed_at now change = record change {
  status = PendingChangeStatus.completed;
  completed_at = now;
  last_updated = now;
}

abbrev pub failed_at : String → ℕ → PendingChange → PendingChange
failed_at message now change = record change {
  status = PendingChangeStatus.failed;
  error_message = message;
  last_updated = now;
}

-- StartStreaming: whether the response is a success
abbrev pub is_success : Option Bool → Bool
is_success none = false
is_success (some success) = success

-- GetStreamStatus: whether the answer is "completed"
abbrev pub is_completed : Option String → Bool
is_completed none = false
is_completed (some state) = str_eq state "completed"

module _ (env : Environment) where
  -- the state after a statement
  abbrev pub settle : Cluster → Option Database → Cluster × Bool
  settle c none = (c, false)
  settle c (some store) = (record c { store = store }, true)

  -- A statement of the metadata store, and whether it returned no error.
  unfoldable pub update_store : (Database → Option Database) → Action Bool
  update_store statement c =
      let c' = record c { calls = suc c.calls } in
      if env.reaches c.calls then settle c' (statement c.store) else (c', false)

  -- metadataStore.ListStorageNodes
  unfoldable pub list_nodes : Action (Option (List StorageNode))
  list_nodes c = (
    record c { calls = suc c.calls },
    if env.reaches c.calls then some (list_storage_nodes c.store) else none,
  )

  abbrev pub find_node : String → List StorageNode → Option StorageNode
  find_node id [] = none
  find_node id (node ∷ nodes) =
      let rest = find_node id nodes in if str_eq node.node_id id then some node else rest

  abbrev pub find_listed : String → Option (List StorageNode) → Option StorageNode
  find_listed id none = none
  find_listed id (some nodes) = find_node id nodes

  -- getStorageNode
  unfoldable pub get_storage_node : String → Action (Option StorageNode)
  get_storage_node id = list_nodes >>= λ nodes. return (find_listed id nodes)

  -- client.StartStreaming
  unfoldable pub send_start : String → StorageNode → List KeyRange → Action Bool
  send_start source target ranges c = (
    record c {
      calls = suc c.calls;
      requests = start_streaming source target.node_id target.host target.port ranges ∷ c.requests;
    },
    is_success (env.stream_started c.calls),
  )

  -- client.StopStreaming; its result is only logged
  unfoldable pub send_stop : String → String → Action (Unit {0})
  send_stop source target c =
      (record c { calls = suc c.calls; requests = stop_streaming source target ∷ c.requests }, tt)

  -- client.GetStreamStatus
  unfoldable pub stream_completed : String → String → Action Bool
  stream_completed source target c =
      (record c { calls = suc c.calls }, is_completed (env.stream_state c.calls source target))

  -- The clock is read.
  abbrev pub read_clock : Action ℕ
  read_clock c = (c, env.now c.calls)

  -- GetPendingChange, and where it succeeds UpdatePendingChange with the change as `set` leaves it
  abbrev pub updated : (PendingChange → PendingChange) → Option PendingChange → Action Bool
  updated set none = return false
  updated set (some change) = update_store (MetadataStore.update_pending_change (set change))

  unfoldable pub get_change : String → Action (Option PendingChange)
  get_change change_id c = (
    record c { calls = suc c.calls },
    if env.reaches c.calls
        then MetadataStore.get_pending_change env.scan_text change_id c.store
        else none,
  )

  unfoldable pub finish_change : (ℕ → PendingChange → PendingChange) → String → Action Bool
  finish_change set change_id =
      get_change change_id >>= λ change. read_clock >>= λ now. updated (set now) change

  -- UpdateNodeRanges(id, nil, nil)
  unfoldable pub clear_ranges : String → Action Bool
  clear_ranges id = update_store (MetadataStore.update_node_ranges id [] [])

  unfoldable pub clear_all_ranges : List String → Action (Unit {0})
  clear_all_ranges [] = return tt
  clear_all_ranges (id ∷ ids) = clear_ranges id >>= λ _. clear_all_ranges ids

  -- A wait for the monitor's ticker: meanwhile the routing service may rebuild the ring from the store.
  unfoldable pub wait_tick : (String → Bytes) → (Bytes → ℕ) → Action (Unit {0})
  wait_tick encode hash c = (
    record c {
      calls = suc c.calls;
      ring =
          if env.refreshes c.calls
          then (update_hash_ring encode hash (some (list_storage_nodes c.store)) c.ring).0
          else c.ring;
    },
    tt,
  )

-- completedNodes[id]
unfoldable pub is_done : List String → String → Bool
is_done [] id = false
is_done (x ∷ done) id = let rest = is_done done id in if str_eq x id then true else rest

abbrev pub note : List String → String → Bool → List String
note done id is_completed = if is_completed then id ∷ done else done

-- One attempt of a monitor, a loop over the other nodes of the streams, with the check of one of them:
-- whether all have completed, and the completed ones.
unfoldable pub check_all :
    (check : List String → String → Action Bool)
    → List String
    → List String
    → Action (Bool × List String)
check_all check done [] = return (true, done)
check_all check done (id ∷ ids) = do
  is_completed ← check done id
  (rest, done') ← check_all check (note done id is_completed) ids
  return (is_completed && rest, done')

-- a `KeyRange` as a `TokenRange`, and as a range that is pending
abbrev pub token_range : KeyRange → TokenRange
token_range r = record { start = r.start_hash; end = r.end_hash }

abbrev pub range_info : String → String → KeyRange → RangeInfo
range_info old_owner new_owner r = record {
  range = token_range r;
  old_owner_id = old_owner;
  new_owner_id = new_owner;
  streaming_state = "pending";
}

-- the assignments of the key range service, in the order in which Go ranges over the map
abbrev pub Assignments : Type 0
Assignments = List (String × List KeyRange)
