-- ===== src/Filter/DomainSet/Damaged.antt =====
-- A file with a changed byte (core/crates/filter/src/domain_set.rs).
use tollgate.Common.{
  ℕ, zero, suc, ◌+◌, ◌≤◌, ◌<◌, ◌≡◌, ◌≢◌, refl, ◌∙◌, sym, ap, true, false, inl, inr, [], ◌∷◌, ◌++◌,
  arith, ltb, leb, ◌&&◌, ◌==◌, ==_iff, length, length-append, length-drop, take, drop, Bytes,
  str_eq, Bool-cases,
}
use tollgate.Filter.PatternSet.Filing.{AllBytes}
use tollgate.Filter.DomainSet.{DomainSet}
use tollgate.Filter.DomainSet.Hash.{
  fnv_offset, checksum_from, checksum, from_le_bytes, read_le, read_u32,
}
use tollgate.Filter.DomainSet.Encode.{magic, version, header_len}
use tollgate.Filter.DomainSet.Load.{
  ok, err, bad_checksum, Header, expected, header_len_v1, oldest_version, read_header, check_body,
  check_header, new,
}
use tollgate.Filter.DomainSet.Accepted.{
  Accepted, FirstVersion, SecondVersion, new-Accepted, sections-ok,
}
use tollgate.Filter.DomainSet.Changed.{checksum_from-byte}

-- what a prefix decides
take-front :
    (n : ℕ) (front s t : Bytes) → n ≤ length front → take n (front ++ s) ≡ take n (front ++ t)
take-front zero front s t h = refl
take-front (suc n) [] s t h = absurd (omega arith)
take-front (suc n) (c ∷ front) s t h = ap (λ l. c ∷ l) (take-front n front s t (omega arith))

drop-front : (n : ℕ) (front s : Bytes) → n ≤ length front → drop n (front ++ s) ≡ drop n front ++ s
drop-front zero front s h = refl
drop-front (suc n) [] s h = absurd (omega arith)
drop-front (suc n) (c ∷ front) s h = drop-front n front s (omega arith)

module _ (front : Bytes) (x y : ℕ) (rest : Bytes) where
  file : Bytes
  file = front ++ x ∷ rest

  damaged : Bytes
  damaged = front ++ y ∷ rest

  read_le-damaged :
      (width at : ℕ) → at + width ≤ length front → read_le width damaged at ≡ read_le width file at
  unfolding damaged file
  read_le-damaged width at h = ap from_le_bytes (
      ap (take width) (drop-front at front (y ∷ rest) (omega arith))
      ∙ (take-front width (drop at front) (y ∷ rest) (x ∷ rest)
            (omega (arith, length-drop at front))
          ∙ ap (take width) (sym (drop-front at front (x ∷ rest) (omega arith)))))

  length-damaged : length damaged ≡ length file
  unfolding damaged file
  length-damaged = omega (arith, length-append front (y ∷ rest), length-append front (x ∷ rest))

  checksum-damaged :
      (at : ℕ)
      → at ≤ length front
      → x < 256
      → y < 256
      → AllBytes rest
      → x ≢ y
      → (checksum (drop at damaged) == checksum (drop at file)) ≡ false
  unfolding damaged file checksum
  checksum-damaged at h k l m differs =
      elim (Bool-cases (checksum (drop at damaged) == checksum (drop at file))) [
        | inr e ↦ e
        | inl e ↦
            let same : checksum (drop at damaged) ≡ checksum (drop at file) = (==_iff _ _).0 e in
            absurd (
              differs (
                sym (
                  checksum_from-byte fnv_offset (drop at front) y x rest (omega arith) l k m (
                    ap (checksum_from fnv_offset) (sym (drop-front at front (y ∷ rest) h))
                    ∙ (same ∙ ap (checksum_from fnv_offset) (drop-front at front (x ∷ rest) h))))))
      ]

  take-damaged : (n : ℕ) → n ≤ length front → take n damaged ≡ take n file
  unfolding damaged file
  take-damaged n h = take-front n front (y ∷ rest) (x ∷ rest) h

  read_header-damaged :
      (header_bytes block_patterns_len : ℕ)
      → 32 ≤ length front
      → read_header header_bytes block_patterns_len damaged
        ≡ read_header header_bytes block_patterns_len file
  read_header-damaged header_bytes block_patterns_len h =
      let block = read_le-damaged 4 8 (omega arith) in
      let allow = read_le-damaged 4 12 (omega arith) in
      let important = read_le-damaged 4 16 (omega arith) in
      let patterns = read_le-damaged 4 20 (omega arith) in
      λ i. record {
        header_bytes = header_bytes;
        block_count = block i;
        allow_count = allow i;
        important_count = important i;
        allow_patterns_len = patterns i;
        block_patterns_len = block_patterns_len;
      }

  module _ (x_byte : x < 256) (y_byte : y < 256) (rest_bytes : AllBytes rest)
      (differs : x ≢ y) where
    check_body-damaged :
        (h : Header)
        → 32 ≤ length front
        → h.header_bytes ≤ length front
        → (length file == expected h) ≡ true
        → (checksum (drop h.header_bytes file) == read_le 8 file 24) ≡ true
        → check_body damaged h ≡ err bad_checksum
    unfolding check_body
    check_body-damaged h long fits sized summed =
        let sized' : (length damaged == expected h) ≡ true =
          ap (λ n. n == expected h) length-damaged ∙ sized in
        let sum : checksum (drop h.header_bytes file) ≡ read_le 8 file 24 = (==_iff _ _).0 summed in
        let summed' : (checksum (drop h.header_bytes damaged) == read_le 8 damaged 24) ≡ false =
          ap (λ n. checksum (drop h.header_bytes damaged) == n)
            (read_le-damaged 8 24 (omega arith) ∙ sym sum)
          ∙ checksum-damaged h.header_bytes fits x_byte y_byte rest_bytes differs in
        rw (sized', summed') refl

    first_version :
        (h : Header)
        → 32 ≤ length front
        → FirstVersion file h
        → check_body damaged h ≡ err bad_checksum
        → check_header damaged (read_u32 damaged 4) ≡ err bad_checksum
    unfolding check_header
    first_version h long v e =
        let first : (read_u32 damaged 4 == 1) ≡ true =
          ap (λ n. n == 1) (read_le-damaged 4 4 (omega arith)) ∙ v.0 in
        rw first (ap (check_body damaged) (read_header-damaged header_len_v1 0 long ∙ sym v.1) ∙ e)

    second_version :
        (h : Header)
        → 40 ≤ length front
        → SecondVersion file h
        → check_body damaged h ≡ err bad_checksum
        → check_header damaged (read_u32 damaged 4) ≡ err bad_checksum
    unfolding check_header
    second_version h long v e =
        let later : (read_u32 damaged 4 == 1) ≡ false =
          ap (λ n. n == 1) (read_le-damaged 4 4 (omega arith)) ∙ v.later in
        let fits : ltb (length damaged) header_len ≡ false =
          ap (λ n. ltb n header_len) length-damaged ∙ v.fits in
        let padding : (read_u32 damaged 36 == 0) ≡ true =
          ap (λ n. n == 0) (read_le-damaged 4 36 (omega arith)) ∙ v.padding in
        let h' : read_header header_len (read_u32 damaged 32) damaged ≡ h =
          ap (λ n. read_header header_len n damaged) (read_le-damaged 4 32 (omega arith))
          ∙ (read_header-damaged header_len (read_u32 file 32) (omega arith) ∙ sym v.is_header) in
        rw (later, fits, padding) (ap (check_body damaged) h' ∙ e)

    new-check_header :
        (set : DomainSet)
        → 32 ≤ length front
        → Accepted file set
        → new damaged ≡ check_header damaged (read_u32 damaged 4)
    unfolding new
    new-check_header set long a =
        let long_enough : ltb (length damaged) header_len_v1 ≡ false =
          ap (λ n. ltb n header_len_v1) length-damaged ∙ a.long_enough in
        let is_magic : str_eq (take 4 damaged) magic ≡ true =
          ap (λ t. str_eq t magic) (take-damaged 4 (omega arith)) ∙ a.is_magic in
        let supported : (leb oldest_version (read_u32 damaged 4)
              && leb (read_u32 damaged 4) version)
            ≡ true =
          ap (λ n. leb oldest_version n && leb n version) (read_le-damaged 4 4 (omega arith))
          ∙ a.supported in
        rw (long_enough, is_magic, supported) refl

    after_header :
        (set : DomainSet) (a : Accepted file set)
        → a.header.header_bytes ≤ length front
        → new damaged ≡ err bad_checksum
    after_header set a fits = elim a.either_version [
      | inl v ↦
          let size : a.header.header_bytes ≡ 32 = ap (λ h. h.header_bytes) v.1 in
          let long : 32 ≤ length front = omega arith in
          new-check_header set long a
          ∙ first_version a.header long v (check_body-damaged a.header long fits a.sized a.summed)
      | inr v ↦
          let size : a.header.header_bytes ≡ 40 = ap (λ h. h.header_bytes) v.is_header in
          let long : 32 ≤ length front = omega arith in
          new-check_header set long a
          ∙ second_version a.header (omega arith) v
              (check_body-damaged a.header long fits a.sized a.summed)
    ]

-- If a file loads, then the same file with one byte after its header changed to any other byte does
-- not: the error is that of the checksum.
pub new-bad_checksum :
    (front : Bytes) (x y : ℕ) (rest : Bytes) (set : DomainSet)
    → x < 256
    → y < 256
    → AllBytes rest
    → x ≢ y
    → new (front ++ x ∷ rest) ≡ ok set
    → set.hashes_at ≤ length front
    → new (front ++ y ∷ rest) ≡ err bad_checksum
unfolding damaged file
new-bad_checksum front x y rest set x_byte y_byte rest_bytes differs e fits =
    let a = new-Accepted (front ++ x ∷ rest) set e in
    after_header front x y rest x_byte y_byte rest_bytes differs set a
      (omega (arith, fits, (sections-ok (front ++ x ∷ rest) set a).0))
