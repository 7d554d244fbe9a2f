-- ===== src/HintedHandoff.antt =====
-- Hints for writes that failed: coordinator/internal/service/hintedhandoff_service.go. A method
-- returns the new service; the map of hints is behind one mutex. A `*Hint` is shared between the map and
-- the copy that a replay walks, so a hint carries its `address`, which tells pointers apart. Times are
-- nanoseconds.
pub mod Bounds
pub mod Replay
pub mod Survivors
use pair_db.Prelude.{
  ℕ, ◌+◌, ◌-◌, ◌*◌, String, List, [], ◌∷◌, ◌++◌, Bool, true, false, ltb, leb, ◌==◌, str_eq,
  if◌then◌else◌, ◌||◌, not, Option, none, some, length, drop, map, select,
}
use pair_db.GoMap.{GoMap, lookup, insert, delete, or_zero}
use pair_db.VectorClock.{VectorClock}

pub record Hint : Type 0 where
  pub address : ℕ
  pub node_id : String
  pub tenant_id : String
  pub key : String
  pub value : List ℕ
  pub vector_clock : VectorClock
  pub timestamp : ℕ
  pub retries : ℕ

pub record HintedHandoffService : Type 0 where
  pub hints : GoMap (List Hint)
  pub max_hints : ℕ
  pub hint_ttl : ℕ
  pub next_address : ℕ

unfoldable pub new_service : ℕ → ℕ → HintedHandoffService
new_service max_hints hint_ttl = record {
  hints = [];
  max_hints = if max_hints == 0 then 10000 else max_hints;
  hint_ttl = if hint_ttl == 0 then 3 * 3600 * 1000000000 else hint_ttl;
  next_address = 0;
}

-- h.hints[nodeID]
abbrev pub hints_of : HintedHandoffService → String → List Hint
hints_of h node_id = or_zero [] (lookup node_id h.hints)

-- the hints of a node with room for one more: the oldest is dropped at the limit
abbrev make_room : ℕ → List Hint → List Hint
make_room max_hints l = if leb max_hints (length l) then drop 1 l else l

-- &Hint{…}, at the next address
abbrev pub new_hint :
    ℕ → HintedHandoffService → String → String → String → List ℕ → VectorClock → Hint
new_hint now h node_id tenant_id key value vc = record {
  address = h.next_address;
  node_id = node_id;
  tenant_id = tenant_id;
  key = key;
  value = value;
  vector_clock = vc;
  timestamp = now;
  retries = 0;
}

unfoldable pub store_hint :
    ℕ
    → HintedHandoffService
    → String
    → String
    → String
    → List ℕ
    → VectorClock
    → HintedHandoffService
store_hint now h node_id tenant_id key value vc = record h {
  hints =
      insert node_id
        (make_room h.max_hints (hints_of h node_id)
          ++ new_hint now h node_id tenant_id key value vc ∷ [])
        h.hints;
  next_address = h.next_address + 1;
}

-- what `removeHint` keeps: another key or another time
abbrev pub differs : Hint → Hint → Bool
differs gone hint = not (str_eq hint.key gone.key) || not (hint.timestamp == gone.timestamp)

pub put_hints : String → List Hint → HintedHandoffService → HintedHandoffService
put_hints node_id [] h = record h { hints = delete node_id h.hints }
put_hints node_id (x ∷ xs) h = record h { hints = insert node_id (x ∷ xs) h.hints }

-- `none` is the panic of `make` with a negative capacity, where the node has no hints.
kept_hints : HintedHandoffService → String → Hint → List Hint → Option HintedHandoffService
unfolding put_hints
kept_hints h node_id gone [] = none
kept_hints h node_id gone (x ∷ xs) = some (put_hints node_id (select (differs gone) (x ∷ xs)) h)

unfoldable pub remove_hint : HintedHandoffService → String → Hint → Option HintedHandoffService
unfolding kept_hints
remove_hint h node_id gone = kept_hints h node_id gone (hints_of h node_id)

-- hint.Retries++ through the pointer
abbrev bump : ℕ → Hint → Hint
bump address hint =
    if hint.address == address then record hint { retries = hint.retries + 1 } else hint

bump_retries : HintedHandoffService → String → ℕ → HintedHandoffService
unfolding put_hints
bump_retries h node_id address = put_hints node_id (map (bump address) (hints_of h node_id)) h

-- Whether the storage client's write of a hint to its node succeeds: node, tenant, key, value, clock.
abbrev pub Sender : Type 0
Sender = String → String → String → List ℕ → VectorClock → Bool

abbrev pub replay_hint : Sender → Hint → Bool
replay_hint sent hint = sent hint.node_id hint.tenant_id hint.key hint.value hint.vector_clock

-- One round of the loop of `replayHintsForNode` at time `now`.
pub replay_one : Sender → ℕ → String → HintedHandoffService → Hint → Option HintedHandoffService
unfolding remove_hint bump_retries
replay_one sent now node_id h hint =
    if ltb h.hint_ttl (now - hint.timestamp)
    then remove_hint h node_id hint
    else if replay_hint sent hint
    then remove_hint h node_id hint
    else let h' = bump_retries h node_id hint.address in
      if leb 10 (hint.retries + 1) then remove_hint h' node_id hint else some h'

replay_all :
    Sender → ℕ → String → List Hint → Option HintedHandoffService → Option HintedHandoffService
replay_all sent now node_id todo none = none
replay_all sent now node_id [] (some h) = some h
replay_all sent now node_id (hint ∷ rest) (some h) =
    replay_all sent now node_id rest (replay_one sent now node_id h hint)

unfoldable pub replay_hints_for_node :
    Sender → ℕ → HintedHandoffService → String → Option HintedHandoffService
unfolding replay_one replay_all
replay_hints_for_node sent now h node_id = replay_all sent now node_id (hints_of h node_id) (some h)

unfoldable pub get_hint_count : HintedHandoffService → String → ℕ
get_hint_count h node_id = length (hints_of h node_id)

unfoldable pub clear_hints_for_node : HintedHandoffService → String → HintedHandoffService × ℕ
clear_hints_for_node h node_id =
    (record h { hints = delete node_id h.hints }, length (hints_of h node_id))
