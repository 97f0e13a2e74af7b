-- ===== src/Replica.antt =====
-- ReplicatedKeyValueStoreRDMA: the store that each node keeps in registered memory
-- (Persistence/KeyValueStore/Cuckoo.hpp), and the client that reads and writes it (App/Remote.cpp).
pub mod Table
pub mod State
pub mod Locks
pub mod Search
pub mod Insert
pub mod Ops
pub mod Contents
pub mod Edits
pub mod Methods
pub mod Fabric
pub mod Remote
pub mod Server
