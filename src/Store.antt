-- ===== src/Store.antt =====
-- DistributedKeyValueStore: the messages on the wire, the connection that carries them, the list of
-- servers, and the map that they keep.
pub mod Buffer
pub mod Connection
pub mod Message
pub mod Parser
pub mod LazyList
pub mod HashMap
pub mod Service
