-- ===== src/Filter/DomainSet/Encode.antt =====
-- `DomainRules::encode` of core/crates/filter/src/domain_set.rs. Where a conversion to `u32` fails,
-- the source panics, and the result here is `none`.
use tollgate.Common.{
  ℕ, ◌^◌, Bool, ◌&&◌, Option, none, some, List, [], ◌∷◌, ◌++◌, map, leb, ltb, if◌then◌else◌, length,
  drop, Bytes, codes,
}
use tollgate.Common.Sorting.{sort}
use tollgate.Filter.Wildcard.{next_is}
use tollgate.Filter.Rules.Limits.{DomainRules}
use tollgate.Filter.DomainSet.Hash.{fnv1a64, exact_hash, checksum, to_le_bytes}

abbrev pub magic : Bytes
magic = codes "TGDS"

abbrev pub version : ℕ
version = 2

abbrev pub header_len : ℕ
header_len = 40

-- `Vec::dedup`
unfoldable pub dedup : List ℕ → List ℕ
dedup [] = []
dedup (a ∷ l) = let rest = dedup l in if next_is l a then rest else a ∷ rest

unfoldable pub sorted_hashes : List Bytes → List Bytes → List ℕ
unfolding dedup sort fnv1a64 exact_hash
sorted_hashes names exact = dedup (sort leb (map fnv1a64 names ++ map exact_hash exact))

-- one turn of the loops of `pattern_section`
unfoldable pub pattern_lines : Bytes → List Bytes → Bytes
pattern_lines prefix [] = []
pattern_lines prefix (pattern ∷ list) = prefix ++ pattern ++ 0x0a ∷ pattern_lines prefix list

unfoldable pub pattern_section : List Bytes → List Bytes → Bytes
unfolding pattern_lines
pattern_section parents host = pattern_lines (codes "||") parents ++ pattern_lines (codes "|") host

-- what is written after the header
pub record Sections : Type 0 where
  pub block : List ℕ
  pub allow : List ℕ
  pub important : List ℕ
  pub allow_patterns : Bytes
  pub block_patterns : Bytes

unfoldable pub sections : DomainRules → Sections
unfolding sorted_hashes pattern_section
sections r = record {
  block = sorted_hashes r.block r.exact_block;
  allow = sorted_hashes r.allow r.exact_allow;
  important = sorted_hashes r.important [];
  allow_patterns = pattern_section r.wildcard_allow r.exact_wildcard_allow;
  block_patterns = pattern_section r.wildcard_block r.exact_wildcard_block;
}

unfoldable pub hash_bytes : List ℕ → Bytes
hash_bytes [] = []
hash_bytes (hash ∷ hashes) = to_le_bytes 8 hash ++ hash_bytes hashes

unfoldable pub body : Sections → Bytes
unfolding hash_bytes
body s = hash_bytes (s.block ++ (s.allow ++ s.important)) ++ (s.allow_patterns ++ s.block_patterns)

-- the header with that checksum
abbrev pub header : ℕ → Sections → Bytes
header sum s =
    magic
    ++ to_le_bytes 4 version
    ++ to_le_bytes 4 (length s.block)
    ++ to_le_bytes 4 (length s.allow)
    ++ to_le_bytes 4 (length s.important)
    ++ to_le_bytes 4 (length s.allow_patterns)
    ++ to_le_bytes 8 sum
    ++ to_le_bytes 4 (length s.block_patterns)
    ++ to_le_bytes 4 0

unfoldable pub file_with : ℕ → Sections → Bytes
unfolding body
file_with sum s = header sum s ++ body s

abbrev pub is_u32 : ℕ → Bool
is_u32 n = ltb n (2 ^ 32)

-- the conversions that may fail
abbrev pub fits_u32 : Sections → Bool
fits_u32 s =
    is_u32 (length s.block)
    && is_u32 (length s.allow)
    && is_u32 (length s.important)
    && is_u32 (length s.allow_patterns)
    && is_u32 (length s.block_patterns)

-- the checksum is filled in last
abbrev pub file_of : Sections → Bytes
file_of s = file_with (checksum (drop header_len (file_with 0 s))) s

unfoldable pub encode : DomainRules → Option Bytes
unfolding file_with sections checksum
encode r = if fits_u32 (sections r) then some (file_of (sections r)) else none
