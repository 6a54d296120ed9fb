-- ===== src/Http.antt =====
-- libs/yukino_http: the HTTP framework.
pub mod Trie
pub mod Router
mod Tests
