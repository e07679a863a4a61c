-- ===== src/Lib.antt =====
-- ApexDB: a key-value store with strings, sorted sets and deadlines, served over TCP by one process or
-- by shards behind a proxy.
--
-- The parts and their files. A request's frame is read by `parse_req` and answered between
-- `response_begin` and `response_end` (src/protocol.cpp: Protocol, with the bytes in Bytes).
-- `KVStore::execute` dispatches it (src/kv_store.cpp: KvStore for the commands on strings and deadlines,
-- KvStore/Sorted for the sorted set commands, KvStore/Execute for the dispatch and the timers). The
-- store keeps its entries in a hash table with progressive rehashing (src/hashtable.cpp: HashTable) and
-- their deadlines in a binary heap with back references (src/heap.cpp: Heap; `heap_delete`,
-- `heap_upsert` and `entry_set_ttl` of src/kv_store.cpp: Ttl). A sorted set is an AVL tree (src/avl.cpp:
-- Avl) with a hash table by name (src/zset.cpp: ZSet). Texts are read as numbers by `str2int`, `str2dbl`
-- (src/kv_store.cpp) and `parse_port` (include/cli.hpp): Numbers and Floats. Keys are hashed and routed
-- by src/sharding.cpp and include/common.h: Sharding. A connection's buffers are in ServerLoop
-- (src/server_loop.cpp), the table of connections with the idle list (include/list.h) and its timers in
-- ServerLoop/Idle and the rounds of `run_tcp_server` in ServerLoop/Poll. The proxy with its shards'
-- handler is in Proxy (src/proxy.cpp, src/shard_main.cpp), the remote call that it makes in TcpRpc
-- (src/tcp_rpc.cpp), and the command line client in Client (src/client.cpp). ThreadPool
-- (src/thread_pool.cpp) has the turns of the workers and the step relation of a running pool. Prelude
-- has what the modules share.
--
-- State. Functions keep the source's names; a function that changes an object takes it and returns the
-- new one. A pointer to an `Entry` or a `ZNode` is an address, a number, and `entries` and `nodes` are
-- the memory behind the addresses; the table's nodes carry the address in place of the intrusive link,
-- and the field `heap_idx` of the entry at `a` is `refs a`. A bucket's chain is a list. The AVL tree's
-- parent pointers are a path from the node to the root. The clock's readings are arguments, and so are
-- `double` and `strtod`, of which the model assumes that comparison is an order apart from NaN.
-- A connection and its node of the idle list are known by the file descriptor. What the calls of the
-- operating system and of the thread library return is an argument.
-- A machine word is a natural number; where the source can wrap, the remainder is written out.
-- The client's results are of `int32_t`: integers, converted as `static_cast` does.
--
-- `view s k` is what the key `k` is bound to in the store `s`, a string or a sorted set with its
-- deadline, or nothing, and `IsValid` is the invariant of the store.
--
-- Fuel. The rehashing loop has `k_rehashing_work` plus the number of buckets, since a round moves a node
-- or steps to the next bucket. Sifting up has one round for each place down to the root and sifting
-- down one for each place of the array. The loop of `execute` over `process_timers` has the
-- size of the heap, since each round removes an item; the rounds of `process_timers` itself are bounded
-- by the source. The loop over buffered requests has the number of bytes, since a request takes at
-- least four. The walk of `avl_offset` has the length of the way up and the size of the tree, since it
-- goes up at most to the root and then only down; the loop of `do_zquery` has the size of the tree, since
-- a round goes on by one member. The loop of the server's `process_timers` has the length of the idle
-- list, of which a round takes the first. The client's `print_response` has the 65 levels that the
-- source admits.
--
-- Not modelled: the set-up of sockets and the resolution of hosts, the threads' share in `entry_del`
-- (entries handed to the pool are listed in `queued`), the programs' start-up, the formats of `printf`,
-- the user interface (src/ui.cpp, a web page), memory exhaustion, and the freeing of memory.
mod Prelude
pub mod Bytes
pub mod Protocol
pub mod Numbers
pub mod Heap
pub mod Ttl
pub mod HashTable
pub mod Sharding
pub mod Avl
pub mod Floats
pub mod ThreadPool
pub mod TcpRpc
pub mod Client
pub mod ZSet
pub mod KvStore
pub mod ServerLoop
pub mod Proxy
mod Tests
