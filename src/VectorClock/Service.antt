-- ===== src/VectorClock/Service.antt =====
-- `VectorClockService` of coordinator/internal/service/vectorclock_service.go. A method returns the
-- new state beside its result; the mutex makes each call one step.
pub mod Monotone
use pair_db.Prelude.{String, List, [], ◌∷◌, none, some, Bool, false, leb, if◌then◌else◌, Option}
use pair_db.GoMap.{GoMap, Iteration, lookup, insert}
use pair_db.Int64.{Int64, zero64, incr64}
use pair_db.VectorClock.{VectorClock, to_map}
use pair_db.VectorClock.Merge.{from_map}

pub record VectorClockService : Type 0 where
  pub node_id : String
  pub local_timestamp : Int64

pub new_service : String → VectorClockService
new_service node_id = record { node_id = node_id; local_timestamp = zero64 }

-- `Increment`: a clock of one entry; its argument is not read.
unfoldable pub increment : VectorClockService → String → VectorClockService × VectorClock
increment s _ =
    let next = incr64 s.local_timestamp in
    (
      record s { local_timestamp = next },
      record {
        entries = record { coordinator_node_id = s.node_id; logical_timestamp = next } ∷ [];
      },
    )

-- The local timestamp after the comparison with the entry of this node, if there is one.
advance : Int64 → Option Int64 → Int64
advance local none = local
advance local (some existing) = if leb local existing then incr64 existing else local

module _ (range : Iteration) where
  unfoldable pub increment_from :
      VectorClockService → VectorClock → VectorClockService × VectorClock
  unfolding advance
  increment_from s existing =
      let vc_map = to_map existing in
      let next = advance (incr64 s.local_timestamp) (lookup s.node_id vc_map) in
      (record s { local_timestamp = next }, from_map range (insert s.node_id next vc_map))
