-- ===== src/Dns.antt =====
-- The dns crate: the messages it reads and writes, its cache and its handler.
pub mod Doh
pub mod Tests
pub mod Wire
pub mod Answer
pub mod Upstream
pub mod Local
pub mod Cache
pub mod Handler
