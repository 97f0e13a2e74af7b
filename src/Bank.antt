-- ===== src/Bank.antt =====
-- Banker/bankers-map: the map of accounts, the locks, and the threads that move money.
pub mod Chain
pub mod Map
pub mod VectorMap
pub mod Locks
pub mod Accounts
pub mod Threads
pub mod Barrier
