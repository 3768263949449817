-- ===== src/Filter/Rules/Stored.antt =====
-- The form of the names and patterns that core/crates/filter/src/domain_rules.rs keeps.
use tollgate.Common.{
  if◌then◌else◌, ◌≤◌, ◌≡◌, refl, Bool, true, false, Option, none, some, List, [], ◌∷◌, map, arith,
  all, Text, byte_length, split, lower, lower-idempotent, byte_length-lower, is_empty-lower,
  split-lower, contains_char, strip_dot, Bool-cases, inl, inr, codes, strip_text, trim, split_once,
}
use tollgate.Filter.Wildcard.{is_digit, last_label, is_valid_pattern}
use tollgate.Filter.Rules.Names.{
  is_name_char, is_valid_label, normalize, normalize_name, wildcard_domain, anchor, glob_of,
  merge_stars, if_valid, wildcard_pattern,
}
use tollgate.Filter.Rules.Lines.{
  Kind, Line, comment, skip, rule, is_pattern, important, allow, block, exact_allow, exact_block,
  is_comment, read_options, named, domain_kind, host_name, host_rule, pattern_rule, read_pattern,
  options_of, read_rule, read_exception, parse_adblock_line,
}

-- A name that DNS asks for, in the stored form.
pub record IsName (s : Text) : Type 0 where
  pub fits : byte_length s ≤ 253
  pub dotted : contains_char s b'.' ≡ true
  pub labels : all is_valid_label (split b'.' s) ≡ true
  pub not_address : all is_digit (last_label (split b'.' s)) ≡ false
  pub lowercase : lower s ≡ s

all_name_char-lower : (s : Text) → all is_name_char (lower s) ≡ all is_name_char s
unfolding lower
all_name_char-lower [] = refl
all_name_char-lower (c ∷ s) = ground (arith, all_name_char-lower s)

all_digit-lower : (s : Text) → all is_digit (lower s) ≡ all is_digit s
unfolding lower
all_digit-lower [] = refl
all_digit-lower (c ∷ s) = ground (arith, all_digit-lower s)

valid_labels-lower : (l : List Text) → all is_valid_label (map lower l) ≡ all is_valid_label l
valid_labels-lower [] = refl
valid_labels-lower (s ∷ l) =
    ground
      (arith, all_name_char-lower s, byte_length-lower s, is_empty-lower s, valid_labels-lower l)

last_label-lower : (l : List Text) → last_label (map lower l) ≡ lower (last_label l)
unfolding lower
last_label-lower [] = refl
last_label-lower (s ∷ []) = refl
last_label-lower (s ∷ t ∷ l) = last_label-lower (t ∷ l)

dotted-lower : (s : Text) → contains_char (lower s) b'.' ≡ contains_char s b'.'
unfolding lower
dotted-lower [] = refl
dotted-lower (c ∷ s) = ground (arith, dotted-lower s)

normalize-IsName : (s n : Text) → normalize s ≡ some n → IsName n
unfolding normalize
normalize-IsName s n h =
    let e : n ≡ lower s = ground arith in
    rw e (record {
      fits = rw byte_length-lower (ground arith);
      dotted = rw dotted-lower (ground arith);
      labels = rw (split-lower, valid_labels-lower) (ground arith);
      not_address = rw (split-lower, last_label-lower, all_digit-lower) (ground arith);
      lowercase = lower-idempotent s;
    })

pub normalize_name-IsName : (s n : Text) → normalize_name s ≡ some n → IsName n
unfolding normalize_name
normalize_name-IsName s n h = normalize-IsName (strip_dot s) n h

-- A name or a pattern as rules of that kind have it.
abbrev FitsIf : Bool → Text → Type 0
FitsIf true name = is_valid_pattern name ≡ true
FitsIf false name = IsName name

abbrev pub Fits : Kind → Text → Type 0
Fits kind name = FitsIf (is_pattern kind) name

abbrev pub LineFits : Line → Type 0
LineFits (rule kind name badfilter) = Fits kind name
LineFits comment = Unit
LineFits skip = Unit

Fits-of_name : (kind : Kind) (name : Text) → is_pattern kind ≡ false → IsName name → Fits kind name
Fits-of_name kind name e h = rw e h

Fits-of_pattern :
    (kind : Kind) (name : Text)
    → is_pattern kind ≡ true
    → is_valid_pattern name ≡ true
    → Fits kind name
Fits-of_pattern kind name e h = rw e h

named_name :
    (badfilter : Bool) (kind : Kind) (name : Text)
    → is_pattern kind ≡ false
    → LineFits (named badfilter (some kind) (normalize_name name))
named_name badfilter kind name host = go (normalize_name name) refl
  where
    go : (o : Option Text) → normalize_name name ≡ o → LineFits (named badfilter (some kind) o)
    go none e = tt
    go (some n) e = Fits-of_name kind n host (normalize_name-IsName name n e)

domain_kind-name :
    (exception important? : Bool) → is_pattern (domain_kind exception important?) ≡ false
domain_kind-name exception important? = ground arith

host_rule-LineFits :
    (exception important? badfilter : Bool) (o : Option (Bool × Text))
    → LineFits (host_rule exception important? badfilter o)
host_rule-LineFits exception important? badfilter none = tt
host_rule-LineFits true important? badfilter (some (true, name)) =
    named_name badfilter exact_allow name refl
host_rule-LineFits true important? badfilter (some (false, name)) =
    named_name badfilter allow name refl
host_rule-LineFits false true badfilter (some (true, name)) = tt
host_rule-LineFits false true badfilter (some (false, name)) =
    named_name badfilter important name refl
host_rule-LineFits false false badfilter (some (true, name)) =
    named_name badfilter exact_block name refl
host_rule-LineFits false false badfilter (some (false, name)) = named_name badfilter block name refl

if_valid-valid :
    (under above : Bool) (merged glob : Text)
    → if_valid under merged ≡ some (above, glob)
    → is_valid_pattern glob ≡ true
if_valid-valid under above merged glob h = ground arith

wildcard_pattern-valid :
    (pattern : Text) (above : Bool) (glob : Text)
    → wildcard_pattern pattern ≡ some (above, glob)
    → is_valid_pattern glob ≡ true
unfolding wildcard_pattern
wildcard_pattern-valid pattern above glob h =
    let (under, start, rest) = anchor pattern in
    if_valid-valid under above (merge_stars false (glob_of start rest)) glob h

pattern_rule-LineFits :
    (exception important? badfilter : Bool) (o : Option (Bool × Text))
    → ((above : Bool) (glob : Text) → o ≡ some (above, glob) → is_valid_pattern glob ≡ true)
    → LineFits (pattern_rule exception important? badfilter o)
pattern_rule-LineFits exception important? badfilter none h = tt
pattern_rule-LineFits true important? badfilter (some (true, glob)) h = h true glob refl
pattern_rule-LineFits true important? badfilter (some (false, glob)) h = h false glob refl
pattern_rule-LineFits false true badfilter (some (above, glob)) h = tt
pattern_rule-LineFits false false badfilter (some (true, glob)) h = h true glob refl
pattern_rule-LineFits false false badfilter (some (false, glob)) h = h false glob refl

read_pattern-LineFits :
    (exception important? badfilter : Bool) (pattern : Text)
    → LineFits (read_pattern exception important? badfilter pattern)
unfolding read_pattern
read_pattern-LineFits exception important? badfilter pattern =
    elim (wildcard_domain pattern)
      as (λ o. LineFits (elim o [
        | some name ↦
            named badfilter (some (domain_kind exception important?)) (normalize_name name)
        | none ↦
            if contains_char pattern b'*'
            then pattern_rule exception important? badfilter (wildcard_pattern pattern)
            else host_rule exception important? badfilter (host_name pattern)
      ])) [
        | some name ↦
            named_name badfilter (domain_kind exception important?) name
              (domain_kind-name exception important?)
        | none ↦ elim (Bool-cases (contains_char pattern b'*')) [
          | inl e ↦ rw e (
              pattern_rule-LineFits exception important? badfilter (wildcard_pattern pattern)
                (wildcard_pattern-valid pattern))
          | inr e ↦ rw e (host_rule-LineFits exception important? badfilter (host_name pattern))
        ]
      ]

read_rule-LineFits : (exception : Bool) (rest : Text) → LineFits (read_rule exception rest)
unfolding read_rule
read_rule-LineFits exception rest =
    elim (read_options (false, false) (options_of (split_once b'$' rest).1))
      as (λ o. LineFits (elim o [
        | none ↦ skip
        | some (important?, badfilter) ↦
            read_pattern exception important? badfilter (split_once b'$' rest).0
      ])) [
        | none ↦ tt
        | some (important?, badfilter) ↦
            read_pattern-LineFits exception important? badfilter (split_once b'$' rest).0
      ]

read_exception-LineFits : (line : Text) → LineFits (read_exception line)
unfolding read_exception
read_exception-LineFits line =
    elim (strip_text (codes "@@") line)
      as (λ o.
        LineFits (elim o [ some rest ↦ read_rule true rest | none ↦ read_rule false line ])) [
          | some rest ↦ read_rule-LineFits true rest
          | none ↦ read_rule-LineFits false line
        ]

pub parse_adblock_line-LineFits : (line : Text) → LineFits (parse_adblock_line line)
unfolding parse_adblock_line
parse_adblock_line-LineFits line = elim (Bool-cases (is_comment (trim line))) [
  | inl e ↦ rw e tt
  | inr e ↦ rw e (read_exception-LineFits (trim line))
]
