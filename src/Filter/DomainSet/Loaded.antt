-- ===== src/Filter/DomainSet/Loaded.antt =====
-- A file that `encode` makes passes every check of `new` (core/crates/filter/src/domain_set.rs).
use tollgate.Common.{
  ℕ, ◌+◌, ◌*◌, ◌-◌, ◌≤◌, ◌≡◌, refl, ◌∙◌, sym, ap, true, false, not, some, List, ◌++◌, arith, ltb,
  ltb→lt, le→ltb, [], append_nil, ◌==◌, ==_refl, if◌then◌else◌, length, length-append, take, drop,
  drop-append, drop-drop, take-append, All, All-append, Bytes, str_eq,
}
use tollgate.Common.BinarySearch.{Rises}
use tollgate.Filter.PatternSet.{PatternSet}
use tollgate.Filter.DomainSet.{DomainSet}
use tollgate.Filter.DomainSet.Hash.{chunks, checksum, to_le_bytes, from_le_bytes, read_u32, read_le}
use tollgate.Filter.DomainSet.Encode.{
  Sections, header_len, hash_bytes, body, file_with, file_of, is_u32, fits_u32,
}
use tollgate.Filter.DomainSet.Load.{
  Header, ok, err, too_short, bad_checksum, length_mismatch, hash_total, expected, set_of,
  read_header, with_patterns, parse_patterns, hashes, in_range, is_sorted, if_sorted, read_sections,
  check_body, check_header, new,
}
use tollgate.Filter.DomainSet.Rising.{IsU64, checksum-IsU64, is_sorted-Rises}
use tollgate.Filter.DomainSet.Read.{from_le_bytes-to_le_bytes, length-hash_bytes, chunks-hash_bytes}

abbrev pub header_of : Sections → Header
header_of s = record {
  header_bytes = header_len;
  block_count = length s.block;
  allow_count = length s.allow;
  important_count = length s.important;
  allow_patterns_len = length s.allow_patterns;
  block_patterns_len = length s.block_patterns;
}

-- sections of 64-bit hashes, each rising
pub record IsSorted (s : Sections) : Type 0 where
  pub block : Rises s.block
  pub allow : Rises s.allow
  pub important : Rises s.important
  pub block_words : All IsU64 s.block
  pub allow_words : All IsU64 s.allow
  pub important_words : All IsU64 s.important

u32-read : (n : ℕ) → is_u32 n ≡ true → from_le_bytes (to_le_bytes 4 n) ≡ n
u32-read n h = from_le_bytes-to_le_bytes 4 n (omega (arith, ltb→lt n 4294967296 h))

module _ (s : Sections) (sum : ℕ) where
  file : Bytes
  file = file_with sum s

  length-file :
      length file
      ≡ 40
        + (8 * (length s.block + length s.allow + length s.important)
            + length s.allow_patterns
            + length s.block_patterns)
  unfolding file file_with body
  length-file =
      let all = s.block ++ (s.allow ++ s.important) in
      let rest = s.allow_patterns ++ s.block_patterns in
      omega (
        arith,
        length-append (hash_bytes all) rest,
        length-hash_bytes all,
        length-append s.block (s.allow ++ s.important),
        length-append s.allow s.important,
        length-append s.allow_patterns s.block_patterns,
      )

  read_header-file :
      fits_u32 s ≡ true → read_header header_len (read_u32 file 32) file ≡ header_of s
  unfolding file file_with
  read_header-file fits =
      let a = u32-read (length s.block) (ground arith) in
      let b = u32-read (length s.allow) (ground arith) in
      let c = u32-read (length s.important) (ground arith) in
      let d = u32-read (length s.allow_patterns) (ground arith) in
      let e = u32-read (length s.block_patterns) (ground arith) in
      λ i. record {
        header_bytes = header_len;
        block_count = a i;
        allow_count = b i;
        important_count = c i;
        allow_patterns_len = d i;
        block_patterns_len = e i;
      }

  long_enough : (n : ℕ) → n ≤ 40 → ltb (length file) n ≡ false
  long_enough n h = le→ltb (length file) n (omega (arith, length-file))

  new-check_body : new file ≡ check_body file (read_header header_len (read_u32 file 32) file)
  unfolding file file_with new check_header str_eq
  new-check_body =
      ap (λ b. if b then err too_short else check_header file 2) (long_enough 32 (omega arith))
      ∙ ap
          (λ b.
            if b
            then err too_short
            else check_body file (read_header header_len (read_u32 file 32) file))
          (long_enough 40 (omega arith))

  check_body-file :
      sum ≡ checksum (body s) → check_body file (header_of s) ≡ read_sections file (header_of s)
  unfolding check_body file file_with
  check_body-file h =
      let whole : (length file == expected (header_of s)) ≡ true = ground (arith, length-file) in
      let read : read_le 8 file 24 ≡ sum =
        from_le_bytes-to_le_bytes 8 sum (omega (arith, h, checksum-IsU64 (body s))) in
      let same : (checksum (body s) == read_le 8 file 24) ≡ true =
        ap (λ n. checksum (body s) == n) (read ∙ h) ∙ ==_refl (checksum (body s)) in
      ap
        (λ b.
          if not b
          then err (length_mismatch (expected (header_of s)) (length file))
          else if not (checksum (body s) == read_le 8 file 24)
          then err bad_checksum
          else read_sections file (header_of s))
        whole
      ∙ ap (λ b. if not b then err bad_checksum else read_sections file (header_of s)) same

  all_hashes : List ℕ
  all_hashes = s.block ++ (s.allow ++ s.important)

  length-all_hashes : length all_hashes ≡ hash_total (header_of s)
  unfolding all_hashes
  length-all_hashes =
      omega
        (arith, length-append s.block (s.allow ++ s.important), length-append s.allow s.important)

  drop-hashes : drop (40 + 8 * hash_total (header_of s)) file ≡ s.allow_patterns ++ s.block_patterns
  unfolding file file_with body all_hashes
  drop-hashes =
      sym (drop-drop (8 * hash_total (header_of s)) 40 file)
      ∙ drop-append (hash_bytes all_hashes) (s.allow_patterns ++ s.block_patterns)
          (8 * hash_total (header_of s)) 0
          (omega (arith, length-hash_bytes all_hashes, length-all_hashes))

  read_sections-file :
      read_sections file (header_of s)
      ≡ with_patterns file
          (header_of s)
          (parse_patterns s.allow_patterns)
          (parse_patterns s.block_patterns)
  unfolding read_sections
  read_sections-file =
      let at = 40 + 8 * hash_total (header_of s) in
      let n = length s.allow_patterns in
      ap
        (λ t.
          with_patterns file (header_of s) (parse_patterns (take n t))
            (parse_patterns (drop (at + n) file)))
        drop-hashes
      ∙ (ap
            (λ t.
              with_patterns file (header_of s) (parse_patterns t)
                (parse_patterns (drop (at + n) file)))
            (take-append s.allow_patterns s.block_patterns n refl)
          ∙ ap
              (λ t.
                with_patterns file (header_of s) (parse_patterns s.allow_patterns)
                  (parse_patterns t))
              (sym (drop-drop n at file)
                ∙ (ap (drop n) drop-hashes
                    ∙ drop-append s.allow_patterns s.block_patterns n 0 (omega arith))))

  module _ (allow block : PatternSet) where
    set : DomainSet
    set = set_of file (header_of s) allow block

    hashes-file : All IsU64 all_hashes → hashes set ≡ all_hashes
    unfolding hashes set file file_with body all_hashes
    hashes-file h =
        ap (λ n. chunks n (body s)) (sym length-all_hashes)
        ∙ chunks-hash_bytes all_hashes (s.allow_patterns ++ s.block_patterns) h

    in_range-block : in_range all_hashes set.block ≡ s.block
    unfolding all_hashes set
    in_range-block = take-append s.block (s.allow ++ s.important) (length s.block - 0) (omega arith)

    in_range-allow : in_range all_hashes set.allow ≡ s.allow
    unfolding all_hashes set
    in_range-allow =
        ap (take (length s.block + length s.allow - length s.block))
          (drop-append s.block (s.allow ++ s.important) (length s.block) 0 (omega arith))
        ∙ take-append s.allow s.important (length s.block + length s.allow - length s.block)
            (omega arith)

    in_range-important : in_range all_hashes set.important ≡ s.important
    unfolding all_hashes set
    in_range-important =
        let n = length s.block + length s.allow in
        let k = hash_total (header_of s) - n in
        ap (take k) (
          drop-append s.block (s.allow ++ s.important) n (length s.allow) (omega arith)
          ∙ drop-append s.allow s.important (length s.allow) 0 (omega arith))
        ∙ (ap (take k) (sym (append_nil s.important)) ∙ take-append s.important [] k (omega arith))

    if_sorted-file : IsSorted s → if_sorted set ≡ ok set
    unfolding if_sorted
    if_sorted-file r =
        let words =
          All-append IsU64 s.block (s.allow ++ s.important) r.block_words
            (All-append IsU64 s.allow s.important r.allow_words r.important_words) in
        let e : hashes set ≡ all_hashes = unfold all_hashes in hashes-file words in
        let b : is_sorted (in_range (hashes set) set.block) ≡ true =
          ap (λ l. is_sorted (in_range l set.block)) e
          ∙ (ap is_sorted in_range-block ∙ is_sorted-Rises s.block r.block) in
        let a : is_sorted (in_range (hashes set) set.allow) ≡ true =
          ap (λ l. is_sorted (in_range l set.allow)) e
          ∙ (ap is_sorted in_range-allow ∙ is_sorted-Rises s.allow r.allow) in
        let i : is_sorted (in_range (hashes set) set.important) ≡ true =
          ap (λ l. is_sorted (in_range l set.important)) e
          ∙ (ap is_sorted in_range-important ∙ is_sorted-Rises s.important r.important) in
        rw (b, a, i) refl

-- the set that is read from a file
abbrev pub loaded : Sections → PatternSet → PatternSet → DomainSet
loaded s allow block = set_of (file_of s) (header_of s) allow block

-- the three lists of hashes in it
pub record HasHashes (set : DomainSet) (s : Sections) : Type 0 where
  pub block : in_range (hashes set) set.block ≡ s.block
  pub allow : in_range (hashes set) set.allow ≡ s.allow
  pub important : in_range (hashes set) set.important ≡ s.important

pub loaded-HasHashes :
    (s : Sections) (allow block : PatternSet) → IsSorted s → HasHashes (loaded s allow block) s
unfolding set file
loaded-HasHashes s allow block r =
    let sum = checksum (drop header_len (file_with 0 s)) in
    let words =
      All-append IsU64 s.block (s.allow ++ s.important) r.block_words
        (All-append IsU64 s.allow s.important r.allow_words r.important_words) in
    let e : hashes (loaded s allow block) ≡ all_hashes s sum =
      hashes-file s sum allow block (unfold all_hashes in words) in
    record {
      block =
          ap (λ l. in_range l (loaded s allow block).block) e ∙ in_range-block s sum allow block;
      allow =
          ap (λ l. in_range l (loaded s allow block).allow) e ∙ in_range-allow s sum allow block;
      important =
          ap (λ l. in_range l (loaded s allow block).important) e
          ∙ in_range-important s sum allow block;
    }

pub new-file_of :
    (s : Sections) (allow block : PatternSet)
    → fits_u32 s ≡ true
    → IsSorted s
    → parse_patterns s.allow_patterns ≡ some allow
    → parse_patterns s.block_patterns ≡ some block
    → new (file_of s) ≡ ok (loaded s allow block)
unfolding set file
new-file_of s allow block fits r a b =
    let sum = checksum (drop header_len (file_with 0 s)) in
    let f = file_of s in
    let filled : sum ≡ checksum (body s) = unfold file_with in refl in
    new-check_body s sum
    ∙ (ap (check_body f) (read_header-file s sum fits)
        ∙ (check_body-file s sum filled
            ∙ (read_sections-file s sum
                ∙ (ap (λ o. with_patterns f (header_of s) o (parse_patterns s.block_patterns)) a
                    ∙ (ap (with_patterns f (header_of s) (some allow)) b
                        ∙ if_sorted-file s sum allow block r)))))
