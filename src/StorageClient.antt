-- ===== src/StorageClient.antt =====
-- What the coordinator sees of a storage node: coordinator/internal/client/storage_client.go. The RPCs
-- are a parameter: for each call, the node's reply, or `none` where the client returns an error.
use pair_db.Prelude.{
  ℕ, String, List, [], ◌≡◌, Bool, false, Option, none, some, ◌&&◌, length, ltb, arith, Option-cases,
}
use pair_db.Int64.{Int64, zero64}
use pair_db.VectorClock.{VectorClock}
use pair_db.Topology.{StorageNode}

pub record StorageResponse : Type 0 where
  pub node_id : String
  pub success : Bool
  pub value : List ℕ
  pub vector_clock : VectorClock
  pub timestamp : Int64
  pub found : Bool

abbrev pub empty_clock : VectorClock
empty_clock = record { entries = [] }

-- what the servers reply: `WriteResponse` and `ReadResponse` of storage.proto
pub record WriteReply : Type 0 where
  pub success : Bool
  pub updated_vector_clock : VectorClock

pub record ReadReply : Type 0 where
  pub success : Bool
  pub value : List ℕ
  pub vector_clock : VectorClock

pub record Network : Type 0 where
  pub send_write : StorageNode → String → String → List ℕ → VectorClock → Option WriteReply
  pub send_read : StorageNode → String → String → Option ReadReply

write_response : StorageNode → Option WriteReply → Option StorageResponse
write_response node none = none
write_response node (some r) = some (record {
  node_id = node.node_id;
  success = r.success;
  value = [];
  vector_clock = r.updated_vector_clock;
  timestamp = zero64;
  found = false;
})

-- Found: resp.Success && len(resp.Value) > 0. The timestamp is not filled in.
read_response : StorageNode → Option ReadReply → Option StorageResponse
read_response node none = none
read_response node (some r) = some (record {
  node_id = node.node_id;
  success = r.success;
  value = r.value;
  vector_clock = r.vector_clock;
  timestamp = zero64;
  found = r.success && ltb 0 (length r.value);
})

unfoldable pub write :
    Network → StorageNode → String → String → List ℕ → VectorClock → Option StorageResponse
unfolding write_response
write net node tenant_id key value vc =
    write_response node (net.send_write node tenant_id key value vc)

unfoldable pub read : Network → StorageNode → String → String → Option StorageResponse
unfolding read_response
read net node tenant_id key = read_response node (net.send_read node tenant_id key)

-- A read leaves the timestamp of its response at 0.
pub read-timestamp :
    (net : Network) (node : StorageNode) (tenant_id key : String) (r : StorageResponse)
    → read net node tenant_id key ≡ some r
    → r.timestamp ≡ zero64
unfolding read
read-timestamp net node tenant_id key r h =
    ground (arith, Option-cases (net.send_read node tenant_id key))
