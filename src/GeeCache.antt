-- ===== src/GeeCache.antt =====
-- geecache: the distributed cache.
pub mod Lru
pub mod Cache
pub mod Group
pub mod SingleFlight
pub mod ConsistentHash
pub mod HttpPool
pub mod Requests
pub mod Cluster
pub mod Main
