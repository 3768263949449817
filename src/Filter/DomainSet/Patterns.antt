-- ===== src/Filter/DomainSet/Patterns.antt =====
-- The wildcard sections that `pattern_section` writes and `parse_patterns` reads
-- (core/crates/filter/src/domain_set.rs).
use tollgate.Common.{
  ℕ, ◌≡◌, refl, ◌∙◌, ap, Bool, true, false, none, some, List, [], ◌∷◌, ◌++◌, map, arith, ltb, ◌==◌,
  all, All, All-append, Bytes, codes, strip_prefix,
}
use tollgate.Filter.Wildcard
use tollgate.Filter.Wildcard.{
  Pattern, is_pattern_char, is_pattern_label, is_valid_pattern, checked, after_bars,
}
use tollgate.Filter.PatternSet
use tollgate.Filter.DomainSet.Encode.{pattern_lines, pattern_section}
use tollgate.Filter.DomainSet.Load.{is_utf8_after, parse_lines, section_patterns, parse_patterns}
use tollgate.Filter.DomainSet.SectionLines.{
  IsValid, is_stored_char, stored_chars, is_ascii, ascii_pattern, IsLine, pattern-IsLine,
  section_patterns-ended, prefixed, pattern_section-ended,
}

-- the patterns of such lines
abbrev pub pattern_of : Bool → Bytes → Pattern
pattern_of parents glob = record { glob = glob; parents = parents }

abbrev pub patterns_for : List Bytes → List Bytes → List Pattern
patterns_for parents host = map (pattern_of true) parents ++ map (pattern_of false) host

checked-IsValid :
    (above : Bool) (p : Bytes) → IsValid p → checked above p ≡ some (pattern_of above p)
checked-IsValid above p h = rw h refl

parse-parents :
    (p : Bytes) → IsValid p → Wildcard.parse (codes "||" ++ p) ≡ some (pattern_of true p)
unfolding Wildcard.parse strip_prefix
parse-parents p h = checked-IsValid true p h

no_bar : (p : Bytes) → all is_stored_char p ≡ true → strip_prefix b'|' p ≡ none
unfolding strip_prefix
no_bar [] h = refl
no_bar (c ∷ p) h = ground arith

parse-host : (p : Bytes) → IsValid p → Wildcard.parse (codes "|" ++ p) ≡ some (pattern_of false p)
unfolding Wildcard.parse
parse-host p h =
    unfold strip_prefix in
    refl ∙ (ap (λ o. after_bars o p) (no_bar p (stored_chars p h)) ∙ checked-IsValid false p h)

parse_lines-step :
    (s : Bytes) (l : List Bytes) (p : Pattern) (ps : List Pattern)
    → Wildcard.parse s ≡ some p
    → parse_lines l ≡ some ps
    → parse_lines (s ∷ l) ≡ some (p ∷ ps)
unfolding parse_lines
parse_lines-step s l p ps h k = rw (h, k) refl

parse_lines-host :
    (host : List Bytes)
    → All IsValid host
    → parse_lines (prefixed (codes "|") host) ≡ some (map (pattern_of false) host)
unfolding parse_lines
parse_lines-host [] h = refl
parse_lines-host (p ∷ host) h =
    parse_lines-step (codes "|" ++ p) (prefixed (codes "|") host) _ _ (parse-host p h.0)
      (parse_lines-host host h.1)

parse_lines-prefixed :
    (parents host : List Bytes)
    → All IsValid parents
    → All IsValid host
    → parse_lines (prefixed (codes "||") parents ++ prefixed (codes "|") host)
      ≡ some (patterns_for parents host)
parse_lines-prefixed [] host h k = parse_lines-host host k
parse_lines-prefixed (p ∷ parents) host h k =
    parse_lines-step (codes "||" ++ p) (prefixed (codes "||") parents ++ prefixed (codes "|") host)
      _ _ (parse-parents p h.0) (parse_lines-prefixed parents host h.1 k)

IsLine-prefixed :
    (bars : Bytes) (ps : List Bytes)
    → all (λ b. b == b'|') bars ≡ true
    → All IsValid ps
    → All IsLine (prefixed bars ps)
IsLine-prefixed bars [] b h = tt
IsLine-prefixed bars (p ∷ ps) b h = (line bars b, IsLine-prefixed bars ps b h.1)
  where
    line : (bs : Bytes) → all (λ c. c == b'|') bs ≡ true → IsLine (bs ++ p)
    line [] e = pattern-IsLine p h.0
    line (c ∷ bs) e = ground (arith, line bs)

all-append : (f : ℕ → Bool) (s t : Bytes) → all f s ≡ true → all f t ≡ true → all f (s ++ t) ≡ true
all-append f [] t h k = k
all-append f (b ∷ s) t h k = ground (arith, all-append f s t)

ascii_lines :
    (prefix : Bytes) (ps : List Bytes)
    → all is_ascii prefix ≡ true
    → All IsValid ps
    → all is_ascii (pattern_lines prefix ps) ≡ true
unfolding pattern_lines
ascii_lines prefix [] b h = refl
ascii_lines prefix (p ∷ ps) b h =
    all-append is_ascii (prefix ++ p) (0x0a ∷ pattern_lines prefix ps)
      (all-append is_ascii prefix p b (ascii_pattern p h.0)) (ascii_lines prefix ps b h.1)

ascii_utf8 : (s : Bytes) → all is_ascii s ≡ true → is_utf8_after [] s ≡ true
unfolding is_utf8_after
ascii_utf8 [] h = refl
ascii_utf8 (b ∷ s) h =
    let low : ltb b 0x80 ≡ true = ground arith in
    rw (low, is_utf8_after) (ascii_utf8 s (ground arith))

-- A wildcard section that is written is read as the patterns it was written for.
pub parse_patterns-section :
    (parents host : List Bytes)
    → All IsValid parents
    → All IsValid host
    → parse_patterns (pattern_section parents host)
      ≡ some (PatternSet.new (patterns_for parents host))
unfolding parse_patterns
parse_patterns-section parents host h k =
    let text = pattern_section parents host in
    let utf8 : is_utf8_after [] text ≡ true =
      unfold pattern_section in
      ascii_utf8 text (
        all-append is_ascii (pattern_lines (codes "||") parents) (pattern_lines (codes "|") host)
          (ascii_lines (codes "||") parents refl h) (ascii_lines (codes "|") host refl k)) in
    let read : section_patterns text ≡ some (patterns_for parents host) =
      ap section_patterns (pattern_section-ended parents host)
      ∙ (section_patterns-ended _ (
            All-append IsLine (prefixed (codes "||") parents) (prefixed (codes "|") host)
              (IsLine-prefixed (codes "||") parents refl h)
              (IsLine-prefixed (codes "|") host refl k))
          ∙ parse_lines-prefixed parents host h k) in
    rw (utf8, read) refl
