-- ===== src/Lib.antt =====
-- PairDB is a replicated key-value store. A client's write or read goes to a coordinator, which finds
-- the replicas of the tenant and key on a hash ring, asks all of them, waits for as many as the
-- consistency level wants, and keeps a hint for each replica that failed. Versions carry vector clocks:
-- the coordinator issues them, compares them to find the latest version, and repairs stale replicas.
--
-- The parts, and the files that model them:
--   VectorClock: coordinator/internal/model/vectorclock.go. Compare and Merge below it model
--     coordinator/internal/algorithm/vectorclock_ops.go, Service models
--     coordinator/internal/service/vectorclock_service.go, Storage the comparisons of
--     storage-node/internal/service/vectorclock_service.go and of compareVectorClocks in
--     storage-node/internal/service/compaction_service.go. The causal order ≼ is what they are judged by.
--   Consistency: coordinator/internal/algorithm/quorum.go and
--     coordinator/internal/service/consistency_service.go.
--   HintedHandoff: coordinator/internal/service/hintedhandoff_service.go; Replay and Survivors are about a
--     replay, which is `none` where Go would panic.
--   HintReplay: coordinator/internal/service/hint_replay_service.go, on the rows of the hint store.
--   StorageClient: the responses of coordinator/internal/client/storage_client.go.
--   Conflict: DetectConflicts of coordinator/internal/service/conflict_service.go.
--   Coordinator: coordinator/internal/service/coordinator_service_v2.go; Write is
--     writeToReplicasWithHints, Read is readFromReplicasWithRepair, readExistingValue and
--     performReadRepair, Requests is WriteKeyValue and ReadKeyValue, with Get of
--     coordinator/internal/service/idempotency_service.go on what
--     coordinator/internal/store/redis_idempotency_store.go decodes.
--   Ring, Bytes: coordinator/internal/algorithm/consistent_hash.go, with virtual node ids as bytes.
--   Routing: coordinator/internal/service/routing_service.go, on the ring.
--   Topology, Cleanup: coordinator/internal/model/topology.go, coordinator/internal/model/hashring.go and
--     coordinator/internal/service/cleanup_service.go.
--   Checksum, BloomFilter: storage-node/internal/util/checksum.go and
--     storage-node/internal/storage/sstable/bloom_filter.go.
--   SkipList: storage-node/internal/storage/memtable/skiplist.go, with its nodes in a heap. Walk, Descend,
--     Relink, Order and View hold the lemmas on pointers and orders, Insert and InsertKey those on Insert,
--     Delete and DeleteKey those on Delete, Iterator the iterator, and Refines the map that it implements.
--   MemTable: storage-node/internal/service/memtable_service.go; Flush is begin_flush and end_flush, the two
--     parts that hold the lock.
--   Cache: storage-node/internal/service/cache_service.go, on the maps of ByteMap.
--   Validator: storage-node/internal/validation/validator.go.
--   StorageService: storage-node/internal/service/storage_service.go; Removal has Repair and Delete, Lookup
--     has Read, and Keys and Reads the theorems.
--   Tenants: coordinator/internal/service/tenant_service.go, with the cache of
--     coordinator/internal/store/memory_cache.go and the rows of the tenants; a cached tenant is a pointer.
--   MetadataStore: coordinator/internal/store/postgres_metadata_store.go, as operations on the rows of the
--     tables of coordinator/migrations, with their constraints; Rows has the lemmas on rows.
--   KeyRanges: coordinator/internal/service/keyrange_service.go; Merged has the lemmas on MergeRanges.
--   NodeHandler: coordinator/internal/handler/node_handler_v2.go, on MetadataStore and KeyRanges. Addition is
--     AddStorageNodeV2, its monitor and its rollback, Removal those of RemoveStorageNodeV2. Calm, Rounds,
--     Rows and States hold the lemmas; Joins, Leaves and Undone are about how a monitor ends, Added,
--     Started, Rollback, Guard and Unrecorded about the requests and the rollbacks.
--   Streaming: storage-node/internal/service/streaming_service.go; Handler is the streaming calls of
--     storage-node/internal/handler/storage_handler.go, Ranges, Gathered and Life the theorems.
--   Prelude, GoMap, ByteMap, Int64: shared names and lemmas, Go maps and int64.
--   Tests: runs at concrete inputs, and the theorems applied to them.
--
-- How state is modelled: a struct is a record, a method returns the new record beside its result, and a
-- mutex makes a call one step. A handler's goroutines add their responses in some order, an `Arrival`;
-- a `range` over a map visits it in some order, an `Iteration`. The RPCs of the storage nodes are a
-- parameter, `Network`, with `none` for an error; tenants, the replicas of a key and what
-- Redis has are the interface `Services` of the handlers; SHA-256, CRC32 and FNV are parameters. For the
-- storage node the disk is an interface, `Disk`: the commit log, the SSTables, the space left and whether
-- the worker pool takes a flush. float64, the runes of a string and the random numbers of the skip list are parameters.
-- A Go string that is built or ordered is a list of bytes. An operation of the skip list is `none` where
-- Go would panic. Sizes of memtables and caches are natural numbers, since they stay below 2^63; a write
-- to an index of `update` is not checked against MaxLevel, since the level stays below it.
--
-- The node handler is a state machine over a `Cluster`, the rows and the hash ring: an `Action` is a
-- function from a cluster to a cluster and a result, and what it learns from outside (whether a statement
-- reaches the database, the clock, the answers of the storage nodes) comes from an `Environment`, that
-- answers the calls by their number. The requests give back what the source starts the monitor with. The
-- routing service's ticker runs beside a monitor: in any wait of the monitor, as the environment says, the
-- ring is rebuilt from the rows. A rebuild within the calls of a round counts to the wait before them.
--
-- Bounds and fuel: an int64 is the number i + 2^63, and an increment wraps around at 2^64. Counts are
-- natural numbers. Every loop is a structural recursion on a list or on the number of rounds to go. The
-- replay of stored hints is given rounds as fuel, and need not end. The printing of a number has as much
-- fuel as the number is large, and a number has fewer digits. A walk of the skip list has one step more than
-- there are nodes, which is enough; the loop of the cache that evicts has one more than there are entries
-- in the calls of the storage service, and need not end.
--
-- Not modelled: the storage node's commit log, SSTables and compaction, its disk manager and worker pool,
-- and the translation of gRPC requests, but for the streaming calls; the API gateway; Redis itself
-- and the SQL of the hint store; gossip, health checks, metrics, logs, timeouts and
-- configuration; EstimateKeyCount. In the source, the scan of a stream's keys and the sending of one
-- are placeholders, and are modelled as such. The storage service is that of a node without a streaming
-- manager.
-- A monitor has 360 attempts, which is a structural recursion, and no statement of the database runs
-- between two calls of one action but its own.
pub mod Prelude
pub mod GoMap
pub mod Int64
pub mod VectorClock
pub mod SkipList
pub mod ByteMap
pub mod Cache
pub mod Validator
pub mod StorageService
pub mod MemTable
pub mod Topology
pub mod Consistency
pub mod HintedHandoff
pub mod HintReplay
pub mod StorageClient
pub mod Conflict
pub mod Coordinator
pub mod Bytes
pub mod Ring
pub mod Routing
pub mod Cleanup
pub mod Checksum
pub mod BloomFilter
pub mod Tests
pub mod KeyRanges
pub mod Streaming
pub mod MetadataStore
pub mod NodeHandler
pub mod Tenants
