-- ===== src/Filter/DomainSet/Load.antt =====
-- `DomainSet::new` of core/crates/filter/src/domain_set.rs, which `from_bytes` and `load` call: the
-- checks of a file. A slice is read only where the checks before it show that it is there.
use tollgate.Common.{
  ℕ, ◌+◌, ◌*◌, ◌-◌, Bool, true, false, not, ◌&&◌, Option, none, some, List, [], ◌∷◌, leb, ltb, ◌==◌,
  if◌then◌else◌, length, is_empty, take, drop, Bytes, str_eq, split, strip_suffix,
}
use tollgate.Filter.Wildcard
use tollgate.Filter.Wildcard.{Pattern}
use tollgate.Filter.PatternSet
use tollgate.Filter.PatternSet.{PatternSet}
use tollgate.Filter.DomainSet.{Range, DomainSet}
use tollgate.Filter.DomainSet.Hash.{checksum, read_le, read_u32, chunks}
use tollgate.Filter.DomainSet.Encode.{magic, version, header_len}

pub data DomainSetError : Type 0 where
  too_short bad_magic bad_header bad_patterns bad_checksum unsorted : DomainSetError
  unsupported_version : ℕ → DomainSetError
  length_mismatch : ℕ → ℕ → DomainSetError

pub data Result : Type 0 where
  ok : DomainSet → Result
  err : DomainSetError → Result

abbrev pub oldest_version : ℕ
oldest_version = 1

abbrev pub header_len_v1 : ℕ
header_len_v1 = 32

-- the bounds of the bytes that follow a first byte in UTF-8
abbrev pub any_tail : ℕ × ℕ
any_tail = (0x80, 0xbf)

abbrev pub after_first : ℕ → Option (List (ℕ × ℕ))
after_first b =
    if ltb b 0x80
    then some []
    else if ltb b 0xc2
    then none
    else if ltb b 0xe0
    then some (any_tail ∷ [])
    else if b == 0xe0
    then some ((0xa0, 0xbf) ∷ any_tail ∷ [])
    else if b == 0xed
    then some ((0x80, 0x9f) ∷ any_tail ∷ [])
    else if ltb b 0xf0
    then some (any_tail ∷ any_tail ∷ [])
    else if b == 0xf0
    then some ((0x90, 0xbf) ∷ any_tail ∷ any_tail ∷ [])
    else if ltb b 0xf4
    then some (any_tail ∷ any_tail ∷ any_tail ∷ [])
    else if b == 0xf4
    then some ((0x80, 0x8f) ∷ any_tail ∷ any_tail ∷ [])
    else none

-- `str::from_utf8(bytes).is_ok()`, given the bounds of the bytes that must come next
unfoldable pub is_utf8_after : List (ℕ × ℕ) → Bytes → Bool
is_utf8_after [] [] = true
is_utf8_after (bounds ∷ rest) [] = false
is_utf8_after (bounds ∷ rest) (b ∷ bytes) =
    leb bounds.0 b && leb b bounds.1 && is_utf8_after rest bytes
is_utf8_after [] (b ∷ bytes) = elim (after_first b) [
  | none ↦ false
  | some rest ↦ is_utf8_after rest bytes
]

abbrev push_pattern : Option Pattern → Option (List Pattern) → Option (List Pattern)
push_pattern none rest = none
push_pattern (some p) none = none
push_pattern (some p) (some rest) = some (p ∷ rest)

-- `.map(Pattern::parse).collect::<Option<_>>()`
unfoldable pub parse_lines : List Bytes → Option (List Pattern)
unfolding Wildcard.parse
parse_lines [] = some []
parse_lines (line ∷ lines) = push_pattern (Wildcard.parse line) (parse_lines lines)

-- the lines of a wildcard section without its last line end, or of a section that has none
unfoldable pub body_patterns : Option Bytes → Bytes → Option (List Pattern)
unfolding parse_lines split
body_patterns (some body) text = parse_lines (split 0x0a body)
body_patterns none text = if is_empty text then some [] else none

unfoldable pub section_patterns : Bytes → Option (List Pattern)
unfolding body_patterns strip_suffix
section_patterns text = body_patterns (strip_suffix 0x0a text) text

-- `PatternSet::default` is the set of no patterns
abbrev set_of_patterns : Option (List Pattern) → Option PatternSet
set_of_patterns none = none
set_of_patterns (some patterns) = some (PatternSet.new patterns)

unfoldable pub parse_patterns : Bytes → Option PatternSet
unfolding is_utf8_after section_patterns PatternSet.new
parse_patterns section =
    if is_utf8_after [] section then set_of_patterns (section_patterns section) else none

-- `DomainSet::hashes`
unfoldable pub hashes : DomainSet → List ℕ
unfolding chunks
hashes set = chunks set.important.end (drop set.hashes_at set.bytes)

abbrev pub in_range : List ℕ → Range → List ℕ
in_range l range = take (range.end - range.from) (drop range.from l)

-- each hash is below the next one
unfoldable pub is_sorted : List ℕ → Bool
is_sorted [] = true
is_sorted (a ∷ []) = true
is_sorted (a ∷ b ∷ l) = ltb a b && is_sorted (b ∷ l)

-- the last check
unfoldable pub if_sorted : DomainSet → Result
unfolding is_sorted hashes
if_sorted set =
    if is_sorted (in_range (hashes set) set.block)
      && is_sorted (in_range (hashes set) set.allow)
      && is_sorted (in_range (hashes set) set.important)
    then ok set
    else err unsorted

-- what the header says: its length, the counts of hashes and the lengths of the wildcard sections
pub record Header : Type 0 where
  pub header_bytes : ℕ
  pub block_count : ℕ
  pub allow_count : ℕ
  pub important_count : ℕ
  pub allow_patterns_len : ℕ
  pub block_patterns_len : ℕ

abbrev pub hash_total : Header → ℕ
hash_total h = h.block_count + h.allow_count + h.important_count

abbrev pub expected : Header → ℕ
expected h = h.header_bytes + 8 * hash_total h + h.allow_patterns_len + h.block_patterns_len

abbrev pub set_of : Bytes → Header → PatternSet → PatternSet → DomainSet
set_of bytes h wildcard_allow wildcard_block = record {
  bytes = bytes;
  hashes_at = h.header_bytes;
  block = record { from = 0; end = h.block_count };
  allow = record { from = h.block_count; end = h.block_count + h.allow_count };
  important = record { from = h.block_count + h.allow_count; end = hash_total h };
  wildcard_allow = wildcard_allow;
  wildcard_block = wildcard_block;
}

abbrev pub with_patterns : Bytes → Header → Option PatternSet → Option PatternSet → Result
with_patterns bytes h (some allow) (some block) = if_sorted (set_of bytes h allow block)
with_patterns bytes h none block = err bad_patterns
with_patterns bytes h (some allow) none = err bad_patterns

-- the sections, after the checksum
unfoldable pub read_sections : Bytes → Header → Result
unfolding parse_patterns if_sorted
read_sections bytes h =
    let allow_at = h.header_bytes + 8 * hash_total h in
    with_patterns bytes h (parse_patterns (take h.allow_patterns_len (drop allow_at bytes)))
      (parse_patterns (drop (allow_at + h.allow_patterns_len) bytes))

-- the length and the checksum
unfoldable pub check_body : Bytes → Header → Result
unfolding read_sections checksum
check_body bytes h =
    if not (length bytes == expected h)
    then err (length_mismatch (expected h) (length bytes))
    else if not (checksum (drop h.header_bytes bytes) == read_le 8 bytes 24)
    then err bad_checksum
    else read_sections bytes h

abbrev pub read_header : ℕ → ℕ → Bytes → Header
read_header header_bytes block_patterns_len bytes = record {
  header_bytes = header_bytes;
  block_count = read_u32 bytes 8;
  allow_count = read_u32 bytes 12;
  important_count = read_u32 bytes 16;
  allow_patterns_len = read_u32 bytes 20;
  block_patterns_len = block_patterns_len;
}

-- the header of that version, which is supported
unfoldable pub check_header : Bytes → ℕ → Result
unfolding check_body
check_header bytes file_version =
    if file_version == 1
    then check_body bytes (read_header header_len_v1 0 bytes)
    else if ltb (length bytes) header_len
    then err too_short
    else if not (read_u32 bytes 36 == 0)
    then err bad_header
    else check_body bytes (read_header header_len (read_u32 bytes 32) bytes)

-- `DomainSet::new`
unfoldable pub new : Bytes → Result
unfolding check_header str_eq
new bytes =
    if ltb (length bytes) header_len_v1
    then err too_short
    else if not (str_eq (take 4 bytes) magic)
    then err bad_magic
    else if not (leb oldest_version (read_u32 bytes 4) && leb (read_u32 bytes 4) version)
    then err (unsupported_version (read_u32 bytes 4))
    else check_header bytes (read_u32 bytes 4)

-- `DomainSet::len`, `DomainSet::pattern_count` and `DomainSet::is_empty`
abbrev pub len : DomainSet → ℕ
len set = set.important.end

abbrev pub pattern_count : DomainSet → ℕ
pattern_count set = length set.wildcard_allow.patterns + length set.wildcard_block.patterns

abbrev pub is_empty_set : DomainSet → Bool
is_empty_set set = len set == 0
