-- ===== src/Filter/Rules/Lines.antt =====
-- `Kind`, `Line` and `parse_adblock_line` of core/crates/filter/src/domain_rules.rs.
use tollgate.Common.{
  ℕ, Bool, true, false, ◌||◌, Option, none, some, List, [], ◌∷◌, ◌==◌, if◌then◌else◌, is_empty,
  Text, trim, split, split_once, strip_text, strip_prefix, strip_suffix, codes, str_eq,
  contains_char, is_ascii_alphanumeric,
}
use tollgate.Filter.Exempt.{Exemption, covers_subtree, covers_host, covers_pattern}
use tollgate.Filter.Rules.Names.{normalize_name, strip_caret, wildcard_domain, wildcard_pattern}

pub data Kind : Type 0 where
  important allow block exact_allow exact_block wildcard_allow exact_wildcard_allow : Kind
  wildcard_block exact_wildcard_block : Kind

unfoldable pub covers_exempt : Kind → Text → Exemption → Bool
covers_exempt important name exempt = covers_subtree exempt name
covers_exempt block name exempt = covers_subtree exempt name
covers_exempt exact_block name exempt = covers_host exempt name
covers_exempt wildcard_block name exempt = covers_pattern exempt name true
covers_exempt exact_wildcard_block name exempt = covers_pattern exempt name false
covers_exempt allow name exempt = false
covers_exempt exact_allow name exempt = false
covers_exempt wildcard_allow name exempt = false
covers_exempt exact_wildcard_allow name exempt = false

abbrev pub is_pattern : Kind → Bool
is_pattern wildcard_allow = true
is_pattern exact_wildcard_allow = true
is_pattern wildcard_block = true
is_pattern exact_wildcard_block = true
is_pattern important = false
is_pattern allow = false
is_pattern block = false
is_pattern exact_allow = false
is_pattern exact_block = false

abbrev pub is_exception : Kind → Bool
is_exception allow = true
is_exception exact_allow = true
is_exception wildcard_allow = true
is_exception exact_wildcard_allow = true
is_exception important = false
is_exception block = false
is_exception exact_block = false
is_exception wildcard_block = false
is_exception exact_wildcard_block = false

pub data Line : Type 0 where
  comment skip : Line
  rule : Kind → Text → Bool → Line

-- the first character, tested
abbrev pub starts : (ℕ → Bool) → Text → Bool
starts p [] = false
starts p (c ∷ s) = p c

abbrev pub is_comment : Text → Bool
is_comment line = is_empty line || starts (λ c. c == b'!' || c == b'#' || c == b'[') line

-- `important` and `badfilter`, after one more option
abbrev pub set_option : Bool × Bool → Text → Option (Bool × Bool)
set_option flags option =
    if str_eq option (codes "important")
    then some (true, flags.1)
    else if str_eq option (codes "badfilter")
    then some (flags.0, true)
    else none

-- the loop on the options, `none` where one is not known
unfoldable pub read_options : Bool × Bool → List Text → Option (Bool × Bool)
unfolding str_eq trim
read_options flags [] = some flags
read_options flags (option ∷ options) = elim (set_option flags (trim option)) [
  | none ↦ none
  | some flags' ↦ read_options flags' options
]

abbrev pub named : Bool → Option Kind → Option Text → Line
named badfilter none name = skip
named badfilter (some kind) none = skip
named badfilter (some kind) (some name) = rule kind name badfilter

abbrev pub domain_kind : Bool → Bool → Kind
domain_kind exception important? =
    if exception then allow else if important? then important else block

-- `none` for an important block, which is skipped
abbrev pub pattern_kind : Bool → Bool → Bool → Option Kind
pattern_kind exception important? above =
    if exception
    then (if above then some wildcard_allow else some exact_wildcard_allow)
    else if important?
    then none
    else if above
    then some wildcard_block
    else some exact_wildcard_block

abbrev pub host_kind : Bool → Bool → Bool → Option Kind
host_kind exception important? exact =
    if exception
    then (if exact then some exact_allow else some allow)
    else if important?
    then (if exact then none else some important)
    else if exact
    then some exact_block
    else some block

abbrev exactly : Option Text → Option (Bool × Text)
exactly none = none
exactly (some name) = some (true, name)

abbrev inexactly : Option Text → Option (Bool × Text)
inexactly none = none
inexactly (some name) = some (false, name)

-- after `||`
unfoldable pub after_bars : Text → Option (Bool × Text)
unfolding strip_caret strip_suffix
after_bars rest = elim (strip_caret rest) [
  | some name ↦ some (false, name)
  | none ↦ elim (strip_suffix b'.' rest) [ some _ ↦ none | none ↦ some (false, rest) ]
]

-- the name of a rule without a `*`, and whether it is of that host only
unfoldable pub host_name : Text → Option (Bool × Text)
unfolding after_bars strip_caret strip_suffix strip_text strip_prefix
host_name pattern = elim (strip_text (codes "||") pattern) [
  | some rest ↦ after_bars rest
  | none ↦ elim (strip_prefix b'.' pattern) [
    | some rest ↦ inexactly (strip_suffix b'^' rest)
    | none ↦ elim (strip_prefix b'|' pattern) [
      | some rest ↦ exactly (strip_caret rest)
      | none ↦ elim (strip_text (codes "://") pattern) [
        | some rest ↦ exactly (strip_caret rest)
        | none ↦
            if starts is_ascii_alphanumeric pattern then inexactly (strip_caret pattern) else none
      ]
    ]
  ]
]

abbrev pub host_rule : Bool → Bool → Bool → Option (Bool × Text) → Line
host_rule exception important? badfilter none = skip
host_rule exception important? badfilter (some (exact, name)) =
    named badfilter (host_kind exception important? exact) (normalize_name name)

abbrev pub pattern_rule : Bool → Bool → Bool → Option (Bool × Text) → Line
pattern_rule exception important? badfilter none = skip
pattern_rule exception important? badfilter (some (above, glob)) =
    named badfilter (pattern_kind exception important? above) (some glob)

-- a rule whose options are known
unfoldable pub read_pattern : Bool → Bool → Bool → Text → Line
unfolding normalize_name wildcard_domain wildcard_pattern host_name
read_pattern exception important? badfilter pattern = elim (wildcard_domain pattern) [
  | some name ↦ named badfilter (some (domain_kind exception important?)) (normalize_name name)
  | none ↦
      if contains_char pattern b'*'
      then pattern_rule exception important? badfilter (wildcard_pattern pattern)
      else host_rule exception important? badfilter (host_name pattern)
]

abbrev pub options_of : Option Text → List Text
options_of none = []
options_of (some options) = split b',' options

-- a line that is no comment, after its `@@`
unfoldable pub read_rule : Bool → Text → Line
unfolding split_once read_options read_pattern split
read_rule exception rest =
    let (pattern, options) = split_once b'$' rest in
    elim (read_options (false, false) (options_of options)) [
      | none ↦ skip
      | some (important?, badfilter) ↦ read_pattern exception important? badfilter pattern
    ]

unfoldable pub read_exception : Text → Line
unfolding read_rule strip_text
read_exception line = elim (strip_text (codes "@@") line) [
  | some rest ↦ read_rule true rest
  | none ↦ read_rule false line
]

unfoldable pub parse_adblock_line : Text → Line
unfolding read_exception trim
parse_adblock_line line =
    let line' = trim line in if is_comment line' then comment else read_exception line'
