-- ===== src/Lib.antt =====
-- ConcurrentComputing: a cuckoo hash set for threads, a bank over a map, key-value stores over
-- sockets and over RDMA, and a k-means program.
--
-- Cuckoo hash set (CuckooHash/Cuckoo.hpp). Two tables of buckets with six slots; a value stands in a
-- bucket of one of them. `insert` looks for an empty slot in the two buckets, else a breadth-first
-- search finds a path of values that can each move to the other table, and the path is carried out
-- from its end. One spin lock guards a bucket index of both tables; a global read-write lock is held
-- to read by each method and to write by `resize`.
--   Cuckoo/Table      class `Table`: `find`, `findSlot`, `isAvailable`
--   Cuckoo/State      the object, its locks, and the monad in which methods run
--   Cuckoo/Locks      `lock_two`, `lock_three`, `unlock_one`, `unlock_two`, `unlock_three`
--   Cuckoo/Locks/Threads   any number of threads that take these locks, step by step
--   Cuckoo/Search     `xorshf96`, `nextPoint`, `search`
--   Cuckoo/Insert     the private `insert`
--   Cuckoo/Resize     `resize`
--   Cuckoo/Ops        the public methods and the constructor
--   Cuckoo/Contents, Placement, Edits   the values in the tables, the invariant, writes of one slot
--   Cuckoo/Methods    what the methods do
--
-- Bank (Banker/bankers-map/src). Threads move amounts between accounts of a map and add the accounts
-- up; a read-write lock guards each bucket.
--   Bank/Chain, Map   simplemap.h, the version with chains
--   Bank/VectorMap    simplemap.h, the version with vectors
--   Bank/Locks        locks.cc
--   Bank/Accounts     tests.cc: `applyDeposit`, `deposit`, `balance`
--   Bank/Accounts/Waiting   `deposit` while another thread holds a lock
--   Bank/Threads      tests.cc: `rand_integer`, `do_work`, the first fill; threads.h
--   Bank/Barrier      threads.cc: `barrier_init`, `barrier_cross`
--
-- Distributed store (DistributedKeyValueStore; files without a folder are in Common). Clients and servers send lines of text.
--   Store/Buffer      Connection.cpp, class `Buffer`
--   Store/Connection  Connection.cpp: `socket_get_line`, `stream_data`
--   Store/Message     Message.cpp
--   Store/Parser      Parser.hpp: `parseNodes`; ServerNode.hpp
--   Store/LazyList    Persistence/KeyValueStore/ConcurrentList.cpp, Node.hpp; Common/Result.hpp
--   Store/HashMap     Persistence/KeyValueStore/ConcurrentHashMap.cpp
--   Store/Service     Persistence/Server.cpp: `handleMessage`; App/Remote.cpp: the requests
--   Store/Service/Messages   what `sendMessage` writes and Message.cpp reads
--   Store/Service/Requests   a request, its handling and its answer
--
-- Replicated store (ReplicatedKeyValueStoreRDMA; files without a folder are in Persistence/KeyValueStore).
-- Every node keeps a cuckoo table in memory that the clients read without its help. A client that
-- inserts takes the key's lock on every node by compare and swap, sends the element to every node, and
-- gives the locks back; a lookup is one or two reads of a bucket of one node.
--   Replica/Table     Cuckoo.hpp, class `Table`; Node.hpp
--   Replica/State     the object, its hash functions and spin locks
--   Replica/Locks     `lock_two`, `lock_three`, `unlock_one`, `unlock_two`, `unlock_three`
--   Replica/Search    `nextPoint`, `search`
--   Replica/Insert    the private `insert`
--   Replica/Ops       the public methods and the constructor; Common/Result.hpp
--   Replica/Contents, Edits   the keys and values of the block of nodes, writes of one cell
--   Replica/Methods   what the methods do
--   Replica/Fabric    the RDMA library as a parameter: one-sided reads, compare and swap, messages
--   Replica/Remote    App/Remote.cpp and Remote.hpp: `get`, `prepareMessage`, `release`, `insert`
--   Replica/Remote/Multi     the `insert` of several elements
--   Replica/Remote/Clients   any number of client threads, one compare and swap to a step
--   Replica/Server    Persistence/Server.cpp: `connection_handler`, `populate_store`
--
-- K-means (K-Means/solution.cpp). `run` draws the first centers and then repeats: a pass that moves each
-- point to its nearest cluster, and a loop that makes each center the mean of its points.
--   Clustering        the points, the clusters, `KMeans`
--   Clustering/Nearest   `getIDNearestCenter`
--   Clustering/Members   the lists of points of the clusters
--   Clustering/Centers   the loop over the centers
--   Clustering/Visits    where a pass leaves the points
--   Clustering/Passes, Rounds, Choosing, Running   the pass, the rounds, the first centers, and `main`
--
-- Correspondence. A method is a function of the object that returns its answer and the object
-- afterwards. The model has one thread: a run faults (the outer `none`) where that thread would wait
-- for a lock that it holds itself, release a lock that it does not hold, or write outside a bucket. A
-- value is the 32-bit pattern of an `int`, as the hash functions read it, and 0 is the empty slot. The
-- slot -1 of the source is `none`.
--
-- In the bank the amounts are of any type with the sum and the difference that the program uses on
-- `float`; what is said of sums holds for exact amounts. `rand_r` is a parameter. The product in
-- `rand_integer` is rounded as the 53 bits of a `double` round it.
--
-- A list of the store runs each operation in one piece; nodes may be locked by other threads, and then the
-- operation gives up. A thread at the barrier waits for a broadcast, and `barrier_wake` is a wait that ends
-- without one.
-- A connection is the list of the outcomes of its calls of `read` or `write`; memory behind a message is
-- zero, as the constructor of `Buffer` leaves it. `add` faults where the new size of a buffer wraps to one
-- that has no room, and the parser of the servers where a port overflows an `int` or the text ends
-- behind a port. `serialize` of Message.cpp, which nothing calls, returns the address of a local array
-- and is left out.
--
-- The two tables of the replicated store are the two hash functions into one block. Its `hash` is computed
-- on 32-bit patterns with the wrap-around that the compiler gives; in the store both right shifts are
-- those of an `int`, in the client those of an `unsigned int`. The calls of the RDMA library are waited
-- for, so a client's step is one change of the nodes' memory; what a node does with a message comes
-- after. The library as a parameter also records the nodes' memory at each message sent. An access past `connections` is a fault.
--
-- In K-means `double` with its operations is a parameter, and a vector of values is a function of the
-- index. What is said of the nearest cluster holds for distances that `<` orders, so not for NaN. The
-- values that `rand` gives are a list.
--
-- Fuel. `search_loop` gets one unit for each point that two start points can lead to within seven
-- levels of six slots, plus one; in the replicated store five levels of eight. The retry loop of `insert` gets its fuel from the caller, since
-- other threads decide how often it runs.
--
-- `rand_loop` gets one unit more than its range, of which each round takes away at least one.
-- `iterate` gets one round more than `max_iterations`.
-- `digits` gets one unit more than the number that it prints.
--
-- Not modelled: memory management, `volatile` and the timing of waits; the other programs of the
-- repository, and the copies of other projects' code under ReplicatedKeyValueStoreRDMA.
pub mod Bank
pub mod Clustering
pub mod Cuckoo
pub mod Prelude
pub mod Replica
pub mod Store
pub mod Tests
