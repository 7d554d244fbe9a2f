-- ===== src/VectorClock/Service/Monotone.antt =====
-- The clocks that the service issues move forward.
use pair_db.Prelude.{◌≤◌, ◌<◌, String, ◌≡◌, arith, eq_iff, if◌then◌else◌, Option-cases, str_eq}
use pair_db.GoMap.{Iteration, lookup, insert, lookup-insert, insert-IsDistinct}
use pair_db.Int64.{Int64, zero64, incr64, max64}
use pair_db.VectorClock.Compare.{compare}
use pair_db.VectorClock.Compare.Causality.{compare-decides}
use pair_db.VectorClock.{before, VectorClock, to_map, timestamp, ◌≼◌}
use pair_db.VectorClock.WellFormed.{to_map-IsDistinct}
use pair_db.VectorClock.Merge.FromMap.{timestamp-from_map}
use pair_db.VectorClock.Service.{VectorClockService, increment_from, advance}

module _ (range : Iteration) (s : VectorClockService) (existing : VectorClock) where
  next : Int64
  next = (increment_from range s existing).0.local_timestamp

  timestamp-increment_from :
      (k : String)
      → timestamp (increment_from range s existing).1 k
        ≡ (if str_eq s.node_id k then next else timestamp existing k)
  unfolding increment_from next
  timestamp-increment_from k =
      let vc_map = to_map existing in
      let t = advance (incr64 s.local_timestamp) (lookup s.node_id vc_map) in
      ground (
        arith,
        timestamp-from_map range k (insert s.node_id t vc_map)
            (insert-IsDistinct s.node_id t vc_map (to_map-IsDistinct existing)),
        lookup-insert s.node_id k t vc_map,
      )

  module _ (room : s.local_timestamp < max64) (room' : timestamp existing s.node_id < max64)
      (positive : zero64 ≤ s.local_timestamp) where
    next-grows : (s.local_timestamp < next) × (timestamp existing s.node_id < next)
    unfolding next increment_from
    next-grows = ground (arith, Option-cases (lookup s.node_id (to_map existing)))

    covered : existing ≼ (increment_from range s existing).1
    covered k = ground (arith, timestamp-increment_from k, next-grows, eq_iff s.node_id k)

    not_covered : ¬ ((increment_from range s existing).1 ≼ existing)
    not_covered h = ground (
      arith,
      h s.node_id,
      timestamp-increment_from s.node_id,
      next-grows,
      eq_iff s.node_id s.node_id,
    )

    -- From a local timestamp that is not negative, and with room below the largest `int64`, the new clock
    -- is after the existing one in the causal order; it has the new local timestamp at this node and the
    -- existing one's timestamps elsewhere; and the local timestamp has grown.
    pub increment_from-after :
        (compare range existing (increment_from range s existing).1 ≡ before)
        × ((k : String)
            → timestamp (increment_from range s existing).1 k ≡ (
                if str_eq s.node_id k
                then (increment_from range s existing).0.local_timestamp
                else timestamp existing k))
        × (s.local_timestamp < (increment_from range s existing).0.local_timestamp)
    increment_from-after = (
      (compare-decides range existing (increment_from range s existing).1).1.1
          (covered, not_covered),
      unfold next in timestamp-increment_from,
      unfold next in next-grows.0,
    )
