-- ===== src/Cache.antt =====
-- pkg/cache/cache.go: the keys and the eviction of the materialisation cache. SHA-256 is a parameter.
-- A time is a number of nanoseconds, a size a number of bytes; sums of sizes stay below 2^63.
pub mod Evict
pub mod Key
