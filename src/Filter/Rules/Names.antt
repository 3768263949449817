-- ===== src/Filter/Rules/Names.antt =====
-- Names and patterns in a rule: `normalize_name`, `wildcard_domain` and `wildcard_pattern` of
-- core/crates/filter/src/domain_rules.rs.
use tollgate.Common.{
  ℕ, Bool, true, false, not, ◌&&◌, ◌||◌, Option, none, some, [], ◌∷◌, ◌++◌, leb, ltb, ◌==◌,
  if◌then◌else◌, unwrap_or, is_empty, all, Text, byte_length, split, lower, strip_dot, strip_suffix,
  strip_text, codes, contains_char, is_ascii_alphanumeric, to_ascii_lowercase,
}
use tollgate.Filter.Wildcard.{is_digit, is_valid_pattern, last_label}

abbrev pub is_name_char : ℕ → Bool
is_name_char b = is_ascii_alphanumeric b || b == b'-' || b == b'_'

abbrev pub is_valid_label : Text → Bool
is_valid_label label = not (is_empty label) && leb (byte_length label) 63 && all is_name_char label

-- a name without its final dot
unfoldable pub normalize : Text → Option Text
unfolding split lower byte_length
normalize name =
    if ltb 253 (byte_length name) || not (contains_char name b'.')
    then none
    else if not (all is_valid_label (split b'.' name))
    then none
    else if all is_digit (last_label (split b'.' name))
    then none
    else some (lower name)

unfoldable pub normalize_name : Text → Option Text
unfolding normalize strip_suffix
normalize_name name = normalize (strip_dot name)

-- `rest.strip_suffix("^|").or_else(|| rest.strip_suffix('^'))`
unfoldable pub strip_caret : Text → Option Text
unfolding strip_suffix
strip_caret rest = elim (strip_suffix b'|' rest) [
  | none ↦ strip_suffix b'^' rest
  | some s ↦ elim (strip_suffix b'^' s) [ none ↦ strip_suffix b'^' rest | some name ↦ some name ]
]

unfoldable pub wildcard_domain : Text → Option Text
unfolding strip_caret strip_text
wildcard_domain pattern = elim (strip_text (codes "*.") pattern) [
  | none ↦ none
  | some rest ↦
      let name = unwrap_or (strip_caret rest) rest in
      if contains_char name b'*' then none else some name
]

-- where the pattern of a rule may start: whether `||` covers parents, the start, and the rest
unfoldable pub anchor : Text → Bool × Text × Text
unfolding strip_text
anchor pattern = elim (strip_text (codes "||") pattern) [
  | some rest ↦ (true, [], rest)
  | none ↦ elim (strip_text (codes "://") pattern) [
    | some rest ↦ (false, [], rest)
    | none ↦ elim (strip_text (codes "|") pattern) [
      | some rest ↦ (false, [], rest)
      | none ↦ (false, b'*' ∷ [], pattern)
    ]
  ]
]

-- the loop that fills `merged`, given whether it ends with a `*` so far
unfoldable pub merge_stars : Bool → Text → Text
merge_stars starred [] = []
merge_stars starred (c ∷ s) =
    let rest = merge_stars (c == b'*') s in
    if not (c == b'*') || not starred then to_ascii_lowercase c ∷ rest else rest

unfoldable pub glob_of : Text → Text → Text
unfolding strip_caret
glob_of start rest = elim (strip_caret rest) [
  | some name ↦ start ++ strip_dot name
  | none ↦ start ++ rest ++ b'*' ∷ []
]

abbrev pub if_valid : Bool → Text → Option (Bool × Text)
if_valid above glob = if is_valid_pattern glob then some (above, glob) else none

unfoldable pub wildcard_pattern : Text → Option (Bool × Text)
unfolding anchor merge_stars glob_of is_valid_pattern
wildcard_pattern pattern =
    let (above, start, rest) = anchor pattern in
    if_valid above (merge_stars false (glob_of start rest))
