-- ===== src/Filter/DomainSet/Accepted.antt =====
-- What the checks of `DomainSet::new` have found where it accepts a file
-- (core/crates/filter/src/domain_set.rs).
use tollgate.Common.{
  ℕ, ◌+◌, ◌*◌, ◌≤◌, ◌≡◌, refl, ◌∙◌, sym, ap, Bool, true, false, not, ◌&&◌, ◌⊎◌, inl, inr, Option,
  none, some, arith, leb, ltb, ◌==◌, if◌then◌else◌, length, take, drop, any, subst, Bytes, str_eq,
}
use tollgate.Common.BinarySearch.{binary_search-any}
use tollgate.Filter.PatternSet.{PatternSet}
use tollgate.Filter.DomainSet.{Range, DomainSet}
use tollgate.Filter.DomainSet.Hash.{checksum, read_le, read_u32}
use tollgate.Filter.DomainSet.Encode.{magic, version, header_len}
use tollgate.Filter.DomainSet.Load.{
  DomainSetError, Result, ok, err, too_short, bad_header, oldest_version, header_len_v1, Header,
  expected, set_of, hashes, in_range, is_sorted, if_sorted, with_patterns, read_sections,
  check_body, read_header, check_header, new,
}
use tollgate.Filter.DomainSet.Lookup.{contains_hash}
use tollgate.Filter.DomainSet.Rising.{Rises-is_sorted}

passed :
    (b : Bool) (e : DomainSetError) (r : Result) (set : DomainSet)
    → (if b then err e else r) ≡ ok set
    → (b ≡ false) × (r ≡ ok set)
passed false e r set h = (refl, h)
passed true e r set h = cc

passed_not :
    (b : Bool) (e : DomainSetError) (r : Result) (set : DomainSet)
    → (if not b then err e else r) ≡ ok set
    → (b ≡ true) × (r ≡ ok set)
passed_not true e r set h = (refl, h)
passed_not false e r set h = cc

-- the header of a file of version 1, or of version 2
abbrev pub FirstVersion : Bytes → Header → Type 0
FirstVersion bytes h = ((read_u32 bytes 4 == 1) ≡ true) × (h ≡ read_header header_len_v1 0 bytes)

pub record SecondVersion (bytes : Bytes) (h : Header) : Type 0 where
  pub later : (read_u32 bytes 4 == 1) ≡ false
  pub fits : ltb (length bytes) header_len ≡ false
  pub padding : (read_u32 bytes 36 == 0) ≡ true
  pub is_header : h ≡ read_header header_len (read_u32 bytes 32) bytes

pub record Accepted (bytes : Bytes) (set : DomainSet) : Type 0 where
  pub header : Header
  pub long_enough : ltb (length bytes) header_len_v1 ≡ false
  pub is_magic : str_eq (take 4 bytes) magic ≡ true
  pub supported : (leb oldest_version (read_u32 bytes 4) && leb (read_u32 bytes 4) version) ≡ true
  pub either_version : FirstVersion bytes header ⊎ SecondVersion bytes header
  pub sized : (length bytes == expected header) ≡ true
  pub summed : (checksum (drop header.header_bytes bytes) == read_le 8 bytes 24) ≡ true
  pub sections : read_sections bytes header ≡ ok set

with_body :
    (bytes : Bytes) (h : Header) (set : DomainSet)
    → check_body bytes h ≡ ok set
    → (FirstVersion bytes h ⊎ SecondVersion bytes h)
    → ltb (length bytes) header_len_v1 ≡ false
    → str_eq (take 4 bytes) magic ≡ true
    → (leb oldest_version (read_u32 bytes 4) && leb (read_u32 bytes 4) version) ≡ true
    → Accepted bytes set
unfolding check_body
with_body bytes h set e v long m s =
    let (sized, e') = passed_not _ _ _ set e in
    let (summed, e'') = passed_not _ _ _ set e' in
    record {
      header = h;
      long_enough = long;
      is_magic = m;
      supported = s;
      either_version = v;
      sized = sized;
      summed = summed;
      sections = e'';
    }

pub new-Accepted : (bytes : Bytes) (set : DomainSet) → new bytes ≡ ok set → Accepted bytes set
unfolding new check_header
new-Accepted bytes set e =
    let (long, e') = passed _ _ _ set e in
    let (m, e'') = passed_not _ _ _ set e' in
    let (s, checked) = passed_not _ _ _ set e'' in go (read_u32 bytes 4 == 1) refl long m s checked
  where
    go :
        (b : Bool)
        → (read_u32 bytes 4 == 1) ≡ b
        → ltb (length bytes) header_len_v1 ≡ false
        → str_eq (take 4 bytes) magic ≡ true
        → (leb oldest_version (read_u32 bytes 4) && leb (read_u32 bytes 4) version) ≡ true
        → check_header bytes (read_u32 bytes 4) ≡ ok set
        → Accepted bytes set
    go true first long m s c =
        let h = read_header header_len_v1 0 bytes in
        with_body bytes h set
          (ap
              (λ b.
                if b
                then check_body bytes h
                else if ltb (length bytes) header_len
                then err too_short
                else if not (read_u32 bytes 36 == 0)
                then err bad_header
                else check_body bytes (read_header header_len (read_u32 bytes 32) bytes))
              (sym first)
            ∙ c)
          (inl (first, refl)) long m s
    go false later long m s c =
        let h = read_header header_len (read_u32 bytes 32) bytes in
        let c' =
          ap
            (λ b.
              if b
              then check_body bytes (read_header header_len_v1 0 bytes)
              else if ltb (length bytes) header_len
              then err too_short
              else if not (read_u32 bytes 36 == 0)
              then err bad_header
              else check_body bytes h)
            (sym later)
          ∙ c in
        let (fits, d) = passed _ _ _ set c' in
        let (padding, d') = passed_not _ _ _ set d in
        with_body bytes h set d'
          (inr (record { later = later; fits = fits; padding = padding; is_header = refl })) long m
          s

-- the search of a range finds exactly the hashes in it
abbrev pub Finds : DomainSet → Range → Type 0
Finds set range =
    (hash : ℕ) → contains_hash set range hash ≡ any (λ x. x == hash) (in_range (hashes set) range)

-- A set over these bytes: its hashes are in them, the three ranges follow each other, and a search of
-- one finds exactly the hashes in it.
pub record IsDomainSet (bytes : Bytes) (set : DomainSet) : Type 0 where
  pub is_whole : set.bytes ≡ bytes
  pub fits : set.hashes_at + 8 * set.important.end ≤ length bytes
  pub block_first : set.block.from ≡ 0
  pub allow_next : set.allow.from ≡ set.block.end
  pub important_last : set.important.from ≡ set.allow.end
  pub in_order : (set.block.end ≤ set.allow.end) × (set.allow.end ≤ set.important.end)
  pub block : Finds set set.block
  pub allow : Finds set set.allow
  pub important : Finds set set.important

finds_sorted :
    (set : DomainSet) (range : Range)
    → is_sorted (in_range (hashes set) range) ≡ true
    → Finds set range
unfolding contains_hash
finds_sorted set range h hash =
    let l = in_range (hashes set) range in binary_search-any l hash (Rises-is_sorted l h)

if_sorted-ok :
    (s set : DomainSet)
    → if_sorted s ≡ ok set
    → (s ≡ set)
      × (is_sorted (in_range (hashes s) s.block) ≡ true)
      × (is_sorted (in_range (hashes s) s.allow) ≡ true)
      × (is_sorted (in_range (hashes s) s.important) ≡ true)
unfolding if_sorted
if_sorted-ok s set e = ground arith

with_patterns-ok :
    (bytes : Bytes) (h : Header) (a b : Option PatternSet) (set : DomainSet)
    → (length bytes == expected h) ≡ true
    → with_patterns bytes h a b ≡ ok set
    → (set.hashes_at ≡ h.header_bytes) × IsDomainSet bytes set
with_patterns-ok bytes h none b set sized e = cc
with_patterns-ok bytes h (some a) none set sized e = cc
with_patterns-ok bytes h (some a) (some b) set sized e =
    let s = set_of bytes h a b in
    let (same, sorted_block, sorted_allow, sorted_important) = if_sorted-ok s set e in
    subst (λ t. (t.hashes_at ≡ h.header_bytes) × IsDomainSet bytes t) same
      (
        refl,
        record {
          is_whole = refl;
          fits = ground arith;
          block_first = refl;
          allow_next = refl;
          important_last = refl;
          in_order = (omega arith, omega arith);
          block = finds_sorted s s.block sorted_block;
          allow = finds_sorted s s.allow sorted_allow;
          important = finds_sorted s s.important sorted_important;
        },
      )

pub sections-ok :
    (bytes : Bytes) (set : DomainSet) (a : Accepted bytes set)
    → (set.hashes_at ≡ a.header.header_bytes) × IsDomainSet bytes set
unfolding read_sections
sections-ok bytes set a = with_patterns-ok bytes a.header _ _ set a.sized a.sections

-- Every file that loads is sound: the hashes lie within it, the three ranges follow each other, and a
-- search of a range finds exactly the hashes that are in it.
pub new-IsDomainSet : (bytes : Bytes) (set : DomainSet) → new bytes ≡ ok set → IsDomainSet bytes set
new-IsDomainSet bytes set e = (sections-ok bytes set (new-Accepted bytes set e)).1
