-- ===== src/Filter/DomainSet/SectionLines.antt =====
-- The lines of a wildcard section and their bytes (core/crates/filter/src/domain_set.rs).
use tollgate.Common.{
  ℕ, ◌≡◌, refl, ◌∙◌, sym, ap, Bool, true, false, not, ◌&&◌, ◌||◌, some, List, [], ◌∷◌, ◌++◌, arith,
  ltb, ◌==◌, if◌then◌else◌, all, All, Bytes, codes, split, push_first, strip_suffix, append_assoc,
  append_nil,
}
use tollgate.Filter.Wildcard.{is_pattern_char, is_pattern_label, is_valid_pattern}
use tollgate.Filter.PatternSet.Filing.{AllBytes, all-AllBytes}
use tollgate.Filter.DomainSet.Encode.{pattern_lines, pattern_section}
use tollgate.Filter.DomainSet.Load.{parse_lines, body_patterns, section_patterns}

abbrev pub IsValid : Bytes → Type 0
IsValid pattern = is_valid_pattern pattern ≡ true

-- a byte of a stored pattern
abbrev pub is_stored_char : ℕ → Bool
is_stored_char b = b == b'.' || is_pattern_char b

all-push_first :
    (f : ℕ → Bool) (x : ℕ) (l : List Bytes)
    → all (λ s. all f s) (push_first x l) ≡ (f x && all (λ s. all f s) l)
all-push_first f x [] = ground arith
all-push_first f x (s ∷ l) = ground arith

all-split :
    (f : ℕ → Bool) (c : ℕ) (s : Bytes) → all (λ t. all f t) (split c s) ≡ all (λ b. b == c || f b) s
unfolding split
all-split f c [] = refl
all-split f c (x ∷ s) = go (x == c) (all-split f c s)
  where
    go :
        (b : Bool)
        → all (λ t. all f t) (split c s) ≡ all (λ y. y == c || f y) s
        → all (λ t. all f t) (if b then [] ∷ split c s else push_first x (split c s))
          ≡ ((b || f x) && all (λ y. y == c || f y) s)
    go true e = e
    go false e = all-push_first f x (split c s) ∙ ap (λ b. f x && b) e

label_chars :
    (l : List Bytes) → all is_pattern_label l ≡ true → all (λ t. all is_pattern_char t) l ≡ true
label_chars [] h = refl
label_chars (s ∷ l) h = ground (arith, label_chars l)

pub stored_chars : (p : Bytes) → IsValid p → all is_stored_char p ≡ true
unfolding is_valid_pattern
stored_chars p h =
    sym (all-split is_pattern_char b'.' p) ∙ label_chars (split b'.' p) (ground arith)

all-implied :
    (f g : ℕ → Bool) (s : Bytes)
    → ((b : ℕ) → f b ≡ true → g b ≡ true)
    → all f s ≡ true
    → all g s ≡ true
all-implied f g [] i h = refl
all-implied f g (b ∷ s) i h = ground (arith, i b, all-implied f g s i)

abbrev pub is_ascii : ℕ → Bool
is_ascii b = ltb b 0x80

pub ascii_pattern : (p : Bytes) → IsValid p → all is_ascii p ≡ true
ascii_pattern p h = all-implied is_stored_char is_ascii p (λ b e. ground arith) (stored_chars p h)

pub valid-AllBytes : (p : Bytes) → IsValid p → AllBytes p
valid-AllBytes p h =
    all-AllBytes p
      (all-implied is_stored_char (λ b. ltb b 256) p (λ b e. ground arith) (stored_chars p h))

-- no line end in a line
abbrev pub IsLine : Bytes → Type 0
IsLine s = all (λ b. not (b == 0x0a)) s ≡ true

pub pattern-IsLine : (p : Bytes) → IsValid p → IsLine p
pattern-IsLine p h =
    all-implied is_stored_char (λ b. not (b == 0x0a)) p (λ b e. ground arith) (stored_chars p h)

strip_suffix-cons :
    (c x : ℕ) (u b : Bytes) → strip_suffix c u ≡ some b → strip_suffix c (x ∷ u) ≡ some (x ∷ b)
unfolding strip_suffix
strip_suffix-cons c x [] b h = absurd (ground arith)
strip_suffix-cons c x (y ∷ u) b h = rw h refl

strip_suffix-prefix :
    (c : ℕ) (s t b : Bytes) → strip_suffix c t ≡ some b → strip_suffix c (s ++ t) ≡ some (s ++ b)
strip_suffix-prefix c [] t b h = h
strip_suffix-prefix c (x ∷ s) t b h =
    strip_suffix-cons c x (s ++ t) (s ++ b) (strip_suffix-prefix c s t b h)

split-line : (s rest : Bytes) → IsLine s → split 0x0a (s ++ 0x0a ∷ rest) ≡ s ∷ split 0x0a rest
unfolding split
split-line [] rest h = refl
split-line (x ∷ s) rest h =
    let other : (x == 0x0a) ≡ false = ground arith in
    rw other (ap (push_first x) (split-line s rest (ground arith)))

split-last : (s : Bytes) → IsLine s → split 0x0a s ≡ s ∷ []
unfolding split
split-last [] h = refl
split-last (x ∷ s) h =
    let other : (x == 0x0a) ≡ false = ground arith in
    rw other (ap (push_first x) (split-last s (ground arith)))

-- lines, each with its end
abbrev ended : List Bytes → Bytes
ended [] = []
ended (s ∷ l) = s ++ 0x0a ∷ ended l

record Body (text : Bytes) (l : List Bytes) : Type 0 where
  body : Bytes
  stripped : strip_suffix 0x0a text ≡ some body
  pieces : split 0x0a body ≡ l

ended-Body : (s : Bytes) (l : List Bytes) → IsLine s → All IsLine l → Body (ended (s ∷ l)) (s ∷ l)
unfolding strip_suffix
ended-Body s [] h k = record {
  body = s ++ [];
  stripped = strip_suffix-prefix 0x0a s (0x0a ∷ []) [] refl;
  pieces = ap (split 0x0a) (append_nil s) ∙ split-last s h;
}
ended-Body s (t ∷ l) h k =
    let r = ended-Body t l k.0 k.1 in
    record {
      body = s ++ 0x0a ∷ r.body;
      stripped =
          strip_suffix-prefix 0x0a s (0x0a ∷ ended (t ∷ l)) (0x0a ∷ r.body)
            (strip_suffix-cons 0x0a 0x0a (ended (t ∷ l)) r.body r.stripped);
      pieces = split-line s r.body h ∙ ap (λ m. s ∷ m) r.pieces;
    }

pub section_patterns-ended :
    (l : List Bytes) → All IsLine l → section_patterns (ended l) ≡ parse_lines l
unfolding section_patterns body_patterns
section_patterns-ended [] h = unfold parse_lines strip_suffix in refl
section_patterns-ended (s ∷ l) h =
    let r = ended-Body s l h.0 h.1 in
    ap (λ o. body_patterns o (ended (s ∷ l))) r.stripped ∙ ap parse_lines r.pieces

-- the lines of patterns after that prefix
abbrev pub prefixed : Bytes → List Bytes → List Bytes
prefixed prefix [] = []
prefixed prefix (p ∷ ps) = (prefix ++ p) ∷ prefixed prefix ps

ended-append : (k l : List Bytes) → ended (k ++ l) ≡ ended k ++ ended l
ended-append [] l = refl
ended-append (s ∷ k) l =
    ap (λ t. s ++ 0x0a ∷ t) (ended-append k l) ∙ sym (append_assoc s (0x0a ∷ ended k) (ended l))

pattern_lines-ended :
    (prefix : Bytes) (ps : List Bytes) → pattern_lines prefix ps ≡ ended (prefixed prefix ps)
unfolding pattern_lines
pattern_lines-ended prefix [] = refl
pattern_lines-ended prefix (p ∷ ps) =
    ap (λ t. (prefix ++ p) ++ 0x0a ∷ t) (pattern_lines-ended prefix ps)

pub pattern_section-ended :
    (parents host : List Bytes)
    → pattern_section parents host
      ≡ ended (prefixed (codes "||") parents ++ prefixed (codes "|") host)
unfolding pattern_section
pattern_section-ended parents host =
    ap (λ t. t ++ pattern_lines (codes "|") host) (pattern_lines-ended (codes "||") parents)
    ∙ (ap (λ t. ended (prefixed (codes "||") parents) ++ t) (pattern_lines-ended (codes "|") host)
        ∙ sym (ended-append (prefixed (codes "||") parents) (prefixed (codes "|") host)))
