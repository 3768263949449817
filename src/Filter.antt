-- ===== src/Filter.antt =====
-- The filter crate: host patterns and exemptions of the DNS blocklist, and request types.
pub mod Tests
pub mod Wildcard
pub mod Exempt
pub mod RequestType
pub mod Rules
pub mod Trie
pub mod PatternSet
pub mod DomainSet
