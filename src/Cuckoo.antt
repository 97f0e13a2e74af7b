-- ===== src/Cuckoo.antt =====
-- CuckooHash/Cuckoo.hpp: a concurrent cuckoo hash set.
pub mod Table
pub mod State
pub mod Locks
pub mod Search
pub mod Insert
pub mod Resize
pub mod Ops
pub mod Contents
pub mod Placement
pub mod Edits
pub mod Methods
