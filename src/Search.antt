-- ===== src/Search.antt =====
-- src/core/search: substring search, token matching and the search engine.
pub mod Simd
pub mod Tokens
pub mod Workers
pub mod Engine
