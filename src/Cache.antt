-- ===== src/Cache.antt =====
-- libs/yukino_cache: the distributed cache.
pub mod Ring
mod Tests
