-- ===== src/Policy/Pattern.antt =====
-- core/crates/policy/src/pattern.rs: host patterns of the passthrough and allow lists. A pattern
-- is read as text, that is a list of code points; its name and a host are compared as bytes. The
-- name that is kept is ASCII, where the two are the same.
pub mod Parsing
pub mod Matching
use tollgate.Common.{
  ℕ, ◌-◌, Bool, true, false, ◌&&◌, ◌||◌, not, Option, none, some, List, [], ◌∷◌, ◌++◌, ltb, leb,
  ◌==◌, if◌then◌else◌, length, is_empty, get_or, drop, all, Bytes, Text, byte_length, trim, split,
  lower, strip_prefix, strip_suffix, strip_dot, is_ascii_alphanumeric, contains_char,
  eq_ignore_ascii_case, unwrap_or,
}

-- The reasons of `PolicyError::InvalidPattern`, in the order in which they are tested.
pub data Reason : Type 0 where
  empty_host_name misplaced_wildcard name_too_long empty_label label_too_long bad_character : Reason

pub data Parsed (A : Type 0) : Type 0 where
  ok : A → Parsed A
  invalid : Reason → Parsed A

infixl 5 ◌>>=◌
abbrev pub ◌>>=◌ : {A B : Type 0} → Parsed A → (A → Parsed B) → Parsed B
ok a >>= f = f a
invalid r >>= f = invalid r

pub record HostPattern : Type 0 where
  pub name : Bytes
  pub wildcard : Bool

abbrev pub is_label_char : ℕ → Bool
is_label_char c = is_ascii_alphanumeric c || c == b'-' || c == b'_'

-- the first label that is refused, with the reason
unfoldable pub check_labels : List Text → Option Reason
check_labels [] = none
check_labels (label ∷ rest) =
    let later = check_labels rest in
    if is_empty label
    then some empty_label
    else if ltb 63 (byte_length label)
    then some label_too_long
    else if all is_label_char label
    then later
    else some bad_character

abbrev after_labels : Text → Option Reason → Parsed Bytes
after_labels name none = ok (lower name)
after_labels name (some reason) = invalid reason

unfoldable pub validate_name : Text → Parsed Bytes
unfolding check_labels
validate_name name =
    if ltb 253 (byte_length name)
    then invalid name_too_long
    else after_labels name (check_labels (split b'.' name))

-- `trimmed.strip_prefix("*.")`
unfoldable pub strip_wildcard : Text → Option Text
unfolding strip_prefix
strip_wildcard s = elim (strip_prefix b'*' s) [ none ↦ none | some t ↦ strip_prefix b'.' t ]

parse_rest : Bool → Text → Parsed HostPattern
parse_rest wildcard rest =
    if is_empty rest
    then invalid empty_host_name
    else if contains_char rest b'*'
    then invalid misplaced_wildcard
    else do name ← validate_name rest; ok (record { name = name; wildcard = wildcard })

abbrev split_wildcard : Text → Bool × Text
split_wildcard trimmed = elim (strip_wildcard trimmed) [
  | none ↦ (false, trimmed)
  | some rest ↦ (true, rest)
]

unfoldable pub parse : Text → Parsed HostPattern
unfolding parse_rest
parse s = let (wildcard, rest) = split_wildcard (trim s) in parse_rest wildcard (strip_dot rest)

-- `HostPattern`'s `Display`
unfoldable pub display : HostPattern → Text
display p = if p.wildcard then b'*' ∷ b'.' ∷ p.name else p.name

unfoldable pub matches : HostPattern → Bytes → Bool
matches p given =
    let host = strip_dot given in
    let split_at = length host - length p.name in
    if length host == length p.name
    then eq_ignore_ascii_case host p.name
    else if not p.wildcard || leb (length host) (length p.name)
    then false
    else get_or host (split_at - 1) 0 == b'.' && eq_ignore_ascii_case (drop split_at host) p.name
