-- ===== src/Lib.antt =====
-- Verification library of OpenDHT: a model of the parts of the program that keep its state, and
-- theorems on them. Paths are those of the repository.
--
-- How the parts interact. Ids of nodes and keys of values are hashes (infohash.h); the XOR
-- distance between them says which nodes keep a value. The routing table (routing_table.h) keeps
-- nodes (node.h) in buckets by ranges of ids and names those that are closest to a key. A node
-- holds the requests (request.h) that wait for its answers; the node cache (node_cache.h) has one
-- node per id. The values that the program keeps for others are in one storage per key
-- (storage.h); quota buckets, shared by all storages, count the bytes per origin, and are read to
-- find the oldest value of an origin that has too many (dht.cpp). The scheduler (scheduler.h)
-- runs what is to be done later, such as the expiration of a value. A listener's values are in a
-- cache (value_cache.h), which calls back with what comes and goes. Queries (value.h) say which
-- values and fields a listener wants; the listeners of a search share a network operation where
-- the query of one satisfies that of another (op_cache.h). Rate limiters (rate_limiter.h) admit
-- packets.
--
-- Where each part is.
--   Hash, Hash/*: include/opendht/infohash.h. A hash is the list of its bytes; its length is the
--     template's N. `cmp` and `xor_cmp` are the members cmp and xorCmp, with the sign of the `int`.
--   Time: the clock of include/opendht/utils.h. A time is the number of ticks since
--     time_point::min().
--   RateLimiter, RateLimiter/*: include/opendht/rate_limiter.h.
--   Value: the data of include/opendht/value.h, Value::size of src/value.cpp, and TypeStore. Two
--     pointers to values are the same if their `ref` is; the size is that of the fields.
--   Filter, Filter/*: Value::Filter of include/opendht/value.h.
--   Query, Query/*: Field, FieldValue, Select, Where, Query and FieldValueIndex of
--     include/opendht/value.h and src/value.cpp. `any` is the member `none` of a query, which any
--     query satisfies. `key_id` is PublicKey::getId.
--   OpCache, OpCache/*: OpValueCache and OpCache of src/op_cache.h and src/op_cache.cpp.
--   SearchCache, SearchCache/*: SearchCache of the same files. The map is by the address of a
--     query.
--   Storage, Storage/*: src/storage.h and src/listener.h. Storage/Bucket is StorageBucket,
--     Storage.antt has get, listen and store, Storage/Removal has refresh, remove, clear and expire.
--     The quota buckets and the jobs of the scheduler are shared by all storages, and every operation
--     that reaches them takes and returns them (`Shared`).
--   Scheduler, Scheduler/*: include/opendht/scheduler.h. Jobs stand in a heap; `run` has fuel, and
--     what the functions of the jobs do to the scheduler is a parameter. Scheduler/Steps has sequences
--     of calls.
--   DhtStore, DhtStore/*: the storages of a node, of include/opendht/dht.h and src/dht.cpp.
--     DhtStore.antt has the members of `Dht` for them and the operations that take values out,
--     DhtStore/Puts has storageStore and storageAddListener, DhtStore/Maintain has maintainStorage,
--     dataPersistence, storageRefresh and what listen and cancelListen do to a storage. Messages and calls of callbacks are
--     notices. The address of a job that the scheduler makes is an argument of storage_store.
--   Request, Request/*: src/request.h.
--   Node, Node/*: include/opendht/node.h and src/node.cpp. A request is shared by its node and the
--     network engine, so a node holds addresses, and `Requests` is the heap of requests.
--   NodeCache, NodeCache/*: include/opendht/node_cache.h and src/node_cache.cpp, the map of one
--     address family. Which weak pointers can be locked is a parameter, and so is what is drawn at
--     random.
--   RoutingTable, RoutingTable/*: include/opendht/routing_table.h and src/routing_table.cpp. A
--     bucket holds addresses of nodes in a heap. An iterator is a place, the table taken apart at a
--     bucket. RoutingTable/Joins has onNewNode; its pings are recorded, and what they do to the nodes,
--     which they may set expired, and whether a node then has a pending message are parameters.
--   ValueCache, ValueCache/*: src/value_cache.h. The callback queue is a list of events. The loop
--     that drops the oldest value has fuel, one round per value, and is out of fuel where the source
--     would not end.
--   Prelude, Prelude/*: names of the libraries, lists, bits, std::map as an association list
--     (Prelude/Map), and size_t (Prelude/Words).
--
-- Numbers. A size_t wraps at 2 ^ 64 and a transaction id at 2 ^ 32, as in the source; where a
-- theorem needs sizes below 2 ^ 64, that is a hypothesis. Loops are recursions on the list that
-- the loop runs over, so that few definitions have fuel: how much is enough is shown in
-- ValueCache/Returns, Scheduler/Runs and DhtStore/Ends, and `nearest` of NodeCache takes as many
-- rounds as there are entries. How many calls of itself `on_new_node` needs is not shown; its
-- theorems hold after any number of calls. std::partition may reorder the elements of either
-- half; the model keeps their order, as the program does not rely on it. Values of callbacks that
-- the user provides are parameters (filters, `get_cb`), or the fact that they are called is
-- recorded (the events of a request).
--
-- Not modelled: sockets, threads and system calls; the cryptography of GnuTLS and the packing of
-- msgpack, which are other libraries; the network engine, the searches, the runner, the secure
-- layer, the prefix hash tree and the proxies; of the routing table, what draws random numbers;
-- callbacks that call back into the object that calls them.
pub mod Prelude
pub mod Hash
pub mod Time
pub mod RateLimiter
pub mod Value
pub mod Storage
pub mod Request
pub mod Node
pub mod RoutingTable
pub mod ValueCache
pub mod Filter
pub mod Query
pub mod OpCache
pub mod SearchCache
pub mod Scheduler
pub mod DhtStore
pub mod NodeCache
