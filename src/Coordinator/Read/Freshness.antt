-- ===== src/Coordinator/Read/Freshness.antt =====
-- What a read returns.
use pair_db.Prelude.{
  String, List, [], ◌∷◌, Bool, true, false, Option, none, some, count_if, length, All, Any, arith,
  ◌≡◌, refl, Bool-cases, inl, inr, ap,
}
use pair_db.GoMap.{Iteration}
use pair_db.Int64.{zero64}
use pair_db.Topology.{StorageNode}
use pair_db.Consistency.{is_quorum_reached}
use pair_db.StorageClient.{Network, StorageResponse, read, read-timestamp}
use pair_db.Conflict.{Scan, is_hit, detect_conflicts}
use pair_db.Conflict.Latest.{detect-latest, Covers, NotAfter}
use pair_db.Coordinator.{Arrival, Reply, ok, ReadResult}
use pair_db.Coordinator.Read.{
  respond, read_node, read_nodes, read_from_replicas_with_repair, answer,
}

module _ (net : Network) (tenant_id key : String) where
  respond-timestamp :
      (node : StorageNode) (o : Option StorageResponse)
      → ((r : StorageResponse) → o ≡ some r → r.timestamp ≡ zero64)
      → (respond node o).timestamp ≡ zero64
  unfolding respond
  respond-timestamp node none h = refl
  respond-timestamp node (some r) h = h r refl

  read_nodes-timestamp :
      (nodes : List StorageNode)
      → All (λ r. r.timestamp ≡ zero64) (read_nodes net tenant_id key nodes)
  unfolding read_nodes read_node
  read_nodes-timestamp [] = tt
  read_nodes-timestamp (node ∷ nodes) = (
    respond-timestamp node (read net node tenant_id key) (read-timestamp net node tenant_id key),
    read_nodes-timestamp nodes,
  )

  module _ (range : Iteration) (arrival : Arrival) (replicas : List StorageNode)
      (level : String) where
    -- The responses of the replicas, in the order in which they arrive.
    abbrev pub responses : List StorageResponse
    responses = read_nodes net tenant_id key (arrival.order replicas)

    abbrev Returned : ReadResult → Bool → Type 0
    Returned result repair =
        (hit : StorageResponse) × Any (λ r. r ≡ hit) responses
        × (is_hit hit ≡ true)
        × (result ≡ record { key = key; value = hit.value; vector_clock = hit.vector_clock })
        × (is_quorum_reached (count_if is_hit responses) (length replicas) level ≡ true)
        × All (NotAfter hit) responses
        × (repair ≡ false → All (Covers hit) responses)

    answer-Returned :
        (o : Option Scan) (result : ReadResult) (repair : Bool)
        → detect_conflicts range responses ≡ o
        → is_quorum_reached (count_if is_hit responses) (length replicas) level ≡ true
        → answer net tenant_id key o ≡ (ok result, repair)
        → Returned result repair
    unfolding answer
    answer-Returned none result repair e q h =
        absurd (cc (ap (λ (p : Reply ReadResult × Bool). p.0) h))
    answer-Returned (some s) result repair e q h =
        let (one, covers, maximal) = detect-latest range responses s e in
        (
          s.latest,
          one.0,
          one.1,
          ground arith,
          q,
          maximal zero64 (read_nodes-timestamp (arrival.order replicas)),
          λ clear. covers (ground arith),
        )

    returned :
        (result : ReadResult) (repair : Bool)
        → read_from_replicas_with_repair net tenant_id key range arrival replicas level
          ≡ (ok result, repair)
        → Returned result repair
    unfolding read_from_replicas_with_repair
    returned result repair h =
        elim (Bool-cases (is_quorum_reached (count_if is_hit responses) (length replicas) level)) [
          | inl reached ↦
              answer-Returned (detect_conflicts range responses) result repair refl reached
                (rw reached at h)
          | inr missed ↦ absurd (cc (ap (λ (p : Reply ReadResult × Bool). p.0) (rw missed at h)))
        ]

    -- A read that succeeds returns value and clock of a response of its replicas that is a hit. Enough
    -- hits have arrived for its level, and no hit is strictly after that one in the causal order.
    pub read-maximal :
        (result : ReadResult) (repair : Bool)
        → read_from_replicas_with_repair net tenant_id key range arrival replicas level
          ≡ (ok result, repair)
        → (hit : StorageResponse) × Any (λ r. r ≡ hit) responses
          × (is_hit hit ≡ true)
          × (result ≡ record { key = key; value = hit.value; vector_clock = hit.vector_clock })
          × (is_quorum_reached (count_if is_hit responses) (length replicas) level ≡ true)
          × All (NotAfter hit) responses
    read-maximal result repair h =
        let (hit, one, is, same, reached, maximal, _) = returned result repair h in
        (hit, one, is, same, reached, maximal)

    -- A read that succeeds and starts no repair returns value and clock of a response that is a hit, and
    -- every hit is at most that one in the causal order.
    pub read-Covers :
        (result : ReadResult)
        → read_from_replicas_with_repair net tenant_id key range arrival replicas level
          ≡ (ok result, false)
        → (hit : StorageResponse) × Any (λ r. r ≡ hit) responses
          × (is_hit hit ≡ true)
          × (result ≡ record { key = key; value = hit.value; vector_clock = hit.vector_clock })
          × All (Covers hit) responses
    read-Covers result h =
        let (hit, one, is, same, _, _, covers) = returned result false h in
        (hit, one, is, same, covers refl)
