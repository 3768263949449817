-- ===== src/Filter/DomainSet.antt =====
-- `DomainSet` of core/crates/filter/src/domain_set.rs: the DNS blocklist file and lookups in it. A
-- file is the list of its bytes, and so is a name, which is ASCII where it comes from lists.
pub mod Hash
pub mod Encode
pub mod Load
pub mod Lookup
pub mod Rising
pub mod SectionLines
pub mod Patterns
pub mod Read
pub mod Loaded
pub mod Listed
pub mod Decides
pub mod Accepted
pub mod Changed
pub mod Damaged
pub mod Tests
use tollgate.Common.{ℕ, Bytes}
use tollgate.Filter.PatternSet.{PatternSet}

-- `Range<usize>`
pub record Range : Type 0 where
  pub from : ℕ
  pub end : ℕ

pub record DomainSet : Type 0 where
  pub bytes : Bytes
  pub hashes_at : ℕ
  pub block : Range
  pub allow : Range
  pub important : Range
  pub wildcard_allow : PatternSet
  pub wildcard_block : PatternSet
