-- ===== src/Replica/Methods.antt =====
-- The methods of ReplicatedKeyValueStoreRDMA/Persistence/KeyValueStore/Cuckoo.hpp, run by one thread.
pub mod Slots
pub mod Displace
pub mod Paths
pub mod Insertion
pub mod Rounds
pub mod Room
pub mod Queries
pub mod Backward
