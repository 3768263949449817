-- ===== src/Policy/Pattern/Parsing.antt =====
-- The patterns that `HostPattern::parse` (core/crates/policy/src/pattern.rs) makes, and what
-- `Display` writes of them.
use tollgate.Common.{
  ℕ, ◌≤◌, ◌≡◌, refl, Bool, true, false, ◌||◌, none, List, [], ◌∷◌, map, arith, all, All, Bytes,
  Text, byte_length, trim, split, lower, lower-idempotent, strip_suffix, trim_start, trim_end,
  is_whitespace, push_first, byte_length-lower, is_empty-lower, split-lower, contains_char,
  is_empty, ◌==◌, strip_dot,
}
use tollgate.Policy.Pattern.{
  Parsed, ok, invalid, HostPattern, check_labels, validate_name, strip_wildcard, parse_rest, parse,
  display, is_label_char, split_wildcard,
}

abbrev pub IsLabel : Text → Type 0
IsLabel label =
    (is_empty label ≡ false) × (byte_length label ≤ 63) × (all is_label_char label ≡ true)

-- A pattern in the stored form.
pub record IsStored (p : HostPattern) : Type 0 where
  pub fits : byte_length p.name ≤ 253
  pub labels : All IsLabel (split b'.' p.name)
  pub lowercase : lower p.name ≡ p.name

labels_of_checked : (l : List Text) → check_labels l ≡ none → All IsLabel l
unfolding check_labels
labels_of_checked [] h = tt
labels_of_checked (label ∷ rest) h = ground (arith, labels_of_checked rest)

checked_of_labels : (l : List Text) → All IsLabel l → check_labels l ≡ none
unfolding check_labels
checked_of_labels [] h = refl
checked_of_labels (label ∷ rest) h = ground (arith, checked_of_labels rest)

all_label_char-lower : (s : Text) → all is_label_char (lower s) ≡ all is_label_char s
unfolding lower
all_label_char-lower [] = refl
all_label_char-lower (c ∷ s) = ground (arith, all_label_char-lower s)

map-lower-labels : (l : List Text) → All IsLabel l → All IsLabel (map lower l)
map-lower-labels [] h = tt
map-lower-labels (label ∷ rest) h = ground (
  arith,
  byte_length-lower label,
  all_label_char-lower label,
  is_empty-lower label,
  map-lower-labels rest,
)

validated :
    (s : Text) {n : Bytes}
    → validate_name s ≡ ok n
    → (n ≡ lower s) × (byte_length s ≤ 253) × All IsLabel (split b'.' s)
unfolding validate_name
validated s h = ground (arith, labels_of_checked (split b'.' s))

validated-IsStored :
    (s : Text) (w : Bool) {n : Bytes}
    → validate_name s ≡ ok n
    → IsStored (record { name = n; wildcard = w })
validated-IsStored s w h =
    let (e, fits, labels) = validated s h in
    rw e (record {
      fits = rw byte_length-lower fits;
      labels = rw split-lower (map-lower-labels _ labels);
      lowercase = lower-idempotent s;
    })

parse_rest-IsStored : (w : Bool) (s : Text) {p : HostPattern} → parse_rest w s ≡ ok p → IsStored p
unfolding parse_rest
parse_rest-IsStored w s {p} h = go (validate_name s) refl
  where
    go : (r : Parsed Bytes) → validate_name s ≡ r → IsStored p
    go (ok n) e =
        let q : p ≡ record { name = n; wildcard = w } = ground arith in
        rw q (validated-IsStored s w e)
    go (invalid reason) e = absurd (ground arith)

-- Whatever text `parse` accepts, the pattern is in the stored form: at most 253 bytes, labels of 1
-- to 63 letters, digits, `-` and `_`, and no upper case letter.
pub parse-IsStored : (s : Text) (p : HostPattern) → parse s ≡ ok p → IsStored p
unfolding parse
parse-IsStored s p h =
    parse_rest-IsStored (split_wildcard (trim s)).0 (strip_dot (split_wildcard (trim s)).1) h

-- the characters of a name: those of its labels, and the dots
abbrev is_name_char : ℕ → Bool
is_name_char c = is_label_char c || c == b'.'

abbrev LabelChars : List Text → Type 0
LabelChars = All (λ label. all is_label_char label ≡ true)

LabelChars-of_labels : (l : List Text) → All IsLabel l → LabelChars l
LabelChars-of_labels [] h = tt
LabelChars-of_labels (label ∷ rest) h = (h.0.2, LabelChars-of_labels rest h.1)

LabelChars-push_first :
    (c : ℕ) (l : List Text) → LabelChars (push_first c l) → (is_label_char c ≡ true) × LabelChars l
LabelChars-push_first c [] h = ground arith
LabelChars-push_first c (label ∷ rest) h = ground arith

name_chars : (s : Text) → LabelChars (split b'.' s) → all is_name_char s ≡ true
unfolding split
name_chars [] h = refl
name_chars (c ∷ s) h = ground (arith, LabelChars-push_first c (split b'.' s), name_chars s)

abbrev NonEmpty : List Text → Type 0
NonEmpty = All (λ label. is_empty label ≡ false)

abbrev NonEmptyTail : List Text → Type 0
NonEmptyTail [] = Unit
NonEmptyTail (label ∷ rest) = NonEmpty rest

NonEmpty-of_labels : (l : List Text) → All IsLabel l → NonEmpty l
NonEmpty-of_labels [] h = tt
NonEmpty-of_labels (label ∷ rest) h = (h.0.0, NonEmpty-of_labels rest h.1)

NonEmptyTail-of : (l : List Text) → NonEmpty l → NonEmptyTail l
NonEmptyTail-of [] h = tt
NonEmptyTail-of (label ∷ rest) h = h.1

NonEmptyTail-push_first : (c : ℕ) (l : List Text) → NonEmptyTail (push_first c l) → NonEmptyTail l
NonEmptyTail-push_first c [] h = tt
NonEmptyTail-push_first c (label ∷ rest) h = h

no_final_dot : (s : Text) → NonEmptyTail (split b'.' s) → strip_suffix b'.' s ≡ none
unfolding split strip_suffix
no_final_dot [] h = refl
no_final_dot (x ∷ []) h = ground arith
no_final_dot (x ∷ y ∷ s) h = ground (
  arith,
  NonEmptyTail-of (split b'.' (y ∷ s)),
  NonEmptyTail-push_first x (split b'.' (y ∷ s)),
  no_final_dot (y ∷ s),
)

no_star : (s : Text) → all is_name_char s ≡ true → contains_char s b'*' ≡ false
no_star [] h = refl
no_star (c ∷ s) h = ground (arith, no_star s)

trim_start_kept : (s : Text) → all is_name_char s ≡ true → trim_start s ≡ s
unfolding trim_start is_whitespace
trim_start_kept [] h = refl
trim_start_kept (c ∷ s) h = ground arith

trim_end_kept : (s : Text) → all is_name_char s ≡ true → trim_end s ≡ s
unfolding trim_end is_whitespace
trim_end_kept [] h = refl
trim_end_kept (c ∷ s) h = ground (arith, trim_end_kept s)

trim_kept : (s : Text) → all is_name_char s ≡ true → trim s ≡ s
unfolding trim
trim_kept s h = rw (trim_start_kept s h) (trim_end_kept s h)

trim_wildcard : (s : Text) → all is_name_char s ≡ true → trim (b'*' ∷ b'.' ∷ s) ≡ b'*' ∷ b'.' ∷ s
unfolding trim is_whitespace
trim_wildcard s h = rw (trim_end_kept s h)

not_wildcard : (s : Text) → all is_name_char s ≡ true → split_wildcard s ≡ (false, s)
unfolding strip_wildcard
not_wildcard [] h = refl
not_wildcard (c ∷ s) h = ground arith

stored_nonempty : (n : Bytes) → All IsLabel (split b'.' n) → is_empty n ≡ false
unfolding split
stored_nonempty [] h = ground arith
stored_nonempty (c ∷ n) h = refl

module _ (n : Bytes) (w : Bool) (v : IsStored (record { name = n; wildcard = w })) where
  stored_chars : all is_name_char n ≡ true
  stored_chars = name_chars n (LabelChars-of_labels _ v.labels)

  stored_dot : strip_dot n ≡ n
  stored_dot = rw (no_final_dot n (NonEmptyTail-of _ (NonEmpty-of_labels _ v.labels)))

  stored_validate : validate_name n ≡ ok n
  unfolding validate_name
  stored_validate = ground (arith, v.fits, v.lowercase, checked_of_labels (split b'.' n) v.labels)

  parse_rest_stored : parse_rest w n ≡ ok (record { name = n; wildcard = w })
  unfolding parse_rest
  parse_rest_stored =
      ground (arith, stored_nonempty n v.labels, no_star n stored_chars, stored_validate)

parse_exact :
    (n : Bytes)
    → IsStored (record { name = n; wildcard = false })
    → parse n ≡ ok (record { name = n; wildcard = false })
unfolding parse
parse_exact n v =
    rw
      (
        trim_kept n (stored_chars n false v),
        not_wildcard n (stored_chars n false v),
        stored_dot n false v,
      )
      (parse_rest_stored n false v)

parse_suffix :
    (n : Bytes)
    → IsStored (record { name = n; wildcard = true })
    → parse (b'*' ∷ b'.' ∷ n) ≡ ok (record { name = n; wildcard = true })
unfolding parse strip_wildcard
parse_suffix n v =
    rw (trim_wildcard n (stored_chars n true v), stored_dot n true v) (parse_rest_stored n true v)

display_parses :
    (n : Bytes) (w : Bool)
    → IsStored (record { name = n; wildcard = w })
    → parse (display (record { name = n; wildcard = w })) ≡ ok (record { name = n; wildcard = w })
unfolding display
display_parses n true v = parse_suffix n v
display_parses n false v = parse_exact n v

-- A pattern in the stored form, written by `Display` and parsed again, is the same pattern.
pub parse-display : (p : HostPattern) → IsStored p → parse (display p) ≡ ok p
parse-display p v = display_parses p.name p.wildcard v
