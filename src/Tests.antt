-- ===== src/Tests.antt =====
-- Runs of the definitions on small inputs, and the theorems at concrete inputs.
mod Cuckoo
mod Examples
mod Bank
mod Clustering
mod Store
mod Replica
mod Threads
