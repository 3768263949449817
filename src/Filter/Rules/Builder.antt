-- ===== src/Filter/Rules/Builder.antt =====
-- `Builder` and `DomainRules` of core/crates/filter/src/domain_rules.rs. A hash set is the list of
-- its members, and a method returns the new state.
use tollgate.Common.{
  ℕ, ◌+◌, ◌-◌, ◌*◌, Bool, false, not, ◌&&◌, ◌||◌, Option, none, some, List, [], ◌∷◌, ◌++◌, leb,
  ◌==◌, if◌then◌else◌, is_some_and, unwrap_or, length, is_empty, any, all, Text, codes, str_eq,
  contains, trim, split, split_once, split_whitespace, lines, strip_prefix, contains_char,
  eq_ignore_ascii_case,
}
use tollgate.Policy.PatternSet.{set_insert}
use tollgate.Filter.Wildcard.{is_digit}
use tollgate.Filter.Exempt.{Exemption}
use tollgate.Filter.Rules.Names.{normalize_name}
use tollgate.Filter.Rules.Lines.{
  Kind, important, allow, block, exact_allow, exact_block, wildcard_allow, exact_wildcard_allow,
  wildcard_block, exact_wildcard_block, Line, comment, skip, rule, covers_exempt, is_pattern,
  parse_adblock_line,
}

pub record Builder : Type 0 where
  pub exempt : Option Exemption
  pub important_set : List Text
  pub allow_set : List Text
  pub block_set : List Text
  pub exact_allow_set : List Text
  pub exact_block_set : List Text
  pub wildcard_allow_set : List Text
  pub exact_wildcard_allow_set : List Text
  pub wildcard_block_set : List Text
  pub exact_wildcard_block_set : List Text
  pub badfilter : List (Kind × Text)
  pub pattern_order : List (Kind × Text)
  pub skipped : ℕ
  pub exempted : ℕ

-- `Builder::default`
abbrev pub no_rules : Builder
no_rules = record {
  exempt = none;
  important_set = [];
  allow_set = [];
  block_set = [];
  exact_allow_set = [];
  exact_block_set = [];
  wildcard_allow_set = [];
  exact_wildcard_allow_set = [];
  wildcard_block_set = [];
  exact_wildcard_block_set = [];
  badfilter = [];
  pattern_order = [];
  skipped = 0;
  exempted = 0;
}

-- `Builder::set` read
abbrev pub set : Builder → Kind → List Text
set b important = b.important_set
set b allow = b.allow_set
set b block = b.block_set
set b exact_allow = b.exact_allow_set
set b exact_block = b.exact_block_set
set b wildcard_allow = b.wildcard_allow_set
set b exact_wildcard_allow = b.exact_wildcard_allow_set
set b wildcard_block = b.wildcard_block_set
set b exact_wildcard_block = b.exact_wildcard_block_set

-- `Builder::set` written through
abbrev pub set_to : Builder → Kind → List Text → Builder
set_to b important s = record b { important_set = s }
set_to b allow s = record b { allow_set = s }
set_to b block s = record b { block_set = s }
set_to b exact_allow s = record b { exact_allow_set = s }
set_to b exact_block s = record b { exact_block_set = s }
set_to b wildcard_allow s = record b { wildcard_allow_set = s }
set_to b exact_wildcard_allow s = record b { exact_wildcard_allow_set = s }
set_to b wildcard_block s = record b { wildcard_block_set = s }
set_to b exact_wildcard_block s = record b { exact_wildcard_block_set = s }

abbrev pub insert : Builder → Kind → Text → Builder
insert b kind name = set_to b kind (set_insert (set b kind) name)

-- `Builder::exempts`, with the count as the new state
abbrev pub is_exempt : Builder → Kind → Text → Bool
is_exempt b kind name = is_some_and b.exempt (covers_exempt kind name)

abbrev pub count_exempted : Builder → Builder
count_exempted b = record b { exempted = b.exempted + 1 }

abbrev pub count_skipped : ℕ → Builder → Builder
count_skipped n b = record b { skipped = b.skipped + n }

abbrev pub kind_index : Kind → ℕ
kind_index important = 0
kind_index allow = 1
kind_index block = 2
kind_index exact_allow = 3
kind_index exact_block = 4
kind_index wildcard_allow = 5
kind_index exact_wildcard_allow = 6
kind_index wildcard_block = 7
kind_index exact_wildcard_block = 8

-- the derived equality of kinds
abbrev pub kind_eq : Kind → Kind → Bool
kind_eq k j = kind_index k == kind_index j

unfoldable pub note_badfilter : Builder → Kind → Text → Builder
unfolding str_eq
note_badfilter b kind name =
    if any (λ e. kind_eq e.0 kind && str_eq e.1 name) b.badfilter
    then b
    else record b { badfilter = b.badfilter ++ (kind, name) ∷ [] }

-- a pattern is noted in the order of the lists the first time
unfoldable pub file : Builder → Kind → Text → Builder
unfolding set_insert str_eq
file b kind name = record (insert b kind name) {
  pattern_order = b.pattern_order ++ (kind, name) ∷ [];
}

unfoldable pub insert_pattern : Builder → Kind → Text → Builder
insert_pattern b kind name = if contains (set b kind) name then b else file b kind name

unfoldable pub add_rule : Builder → Kind → Text → Bool → Builder
unfolding covers_exempt insert_pattern set_insert note_badfilter file str_eq
add_rule b kind name badfilter =
    if badfilter
    then note_badfilter b kind name
    else if is_exempt b kind name
    then count_exempted b
    else if is_pattern kind
    then insert_pattern b kind name
    else insert b kind name

unfoldable pub add_line : Builder → Line → Builder
unfolding add_rule
add_line b comment = b
add_line b skip = count_skipped 1 b
add_line b (rule kind name badfilter) = add_rule b kind name badfilter

unfoldable pub add_adblock_line : Builder → Text → Builder
unfolding add_line parse_adblock_line
add_adblock_line b line = add_line b (parse_adblock_line line)

-- `Ipv4Addr::from_str`: four numbers up to 255 without leading zeros
abbrev pub number_from : ℕ → Text → ℕ
number_from n [] = n
number_from n (c ∷ s) = number_from (10 * n + (c - b'0')) s

abbrev pub is_octet : Text → Bool
is_octet [] = false
is_octet (c ∷ s) =
    all is_digit (c ∷ s)
    && leb (length s) 2
    && (is_empty s || not (c == b'0'))
    && leb (number_from 0 (c ∷ s)) 255

unfoldable pub is_ipv4 : Text → Bool
unfolding split
is_ipv4 s =
    leb (length (split b'.' s)) 4 && leb 4 (length (split b'.' s)) && all is_octet (split b'.' s)

-- `first.parse::<IpAddr>().is_ok() || first.contains(':')`: every IPv6 address has a `:`
abbrev pub starts_with_address : Text → Bool
starts_with_address first = is_ipv4 first || contains_char first b':'

-- the body of the loop on the names, past the name that is left out
unfoldable pub add_host : Builder → Text → Builder
unfolding covers_exempt set_insert
add_host b name = if is_exempt b block name then count_exempted b else insert b block name

-- a name of a hosts line that is accepted
unfoldable pub host_to_add : Text → Option Text
unfolding normalize_name str_eq
host_to_add name =
    if eq_ignore_ascii_case name (codes "localhost.localdomain") then none else normalize_name name

unfoldable pub add_hosts : Builder → ℕ → List Text → Builder × ℕ
unfolding add_host host_to_add
add_hosts b accepted [] = (b, accepted)
add_hosts b accepted (name ∷ names) = elim (host_to_add name) [
  | none ↦ add_hosts b accepted names
  | some name' ↦ add_hosts (add_host b name') (accepted + 1) names
]

unfoldable pub add_fields : Builder → List Text → Builder
unfolding add_hosts is_ipv4
add_fields b [] = b
add_fields b (first ∷ fields) =
    let (b', accepted) =
      add_hosts b 0 (if starts_with_address first then fields else first ∷ fields) in
    if accepted == 0 then count_skipped 1 b' else b'

unfoldable pub add_hosts_line : Builder → Text → Builder
unfolding add_fields split_once trim split_whitespace
add_hosts_line b line = add_fields b (split_whitespace (trim (split_once b'#' line).0))

pub data ListFormat : Type 0 where
  adblock hosts : ListFormat

pub record ListSource : Type 0 where
  pub text : Text
  pub format : ListFormat

pub record DnsList : Type 0 where
  pub source : ListSource
  pub exempt : Option Exemption

unfoldable pub add_lines : (Builder → Text → Builder) → Builder → List Text → Builder
add_lines add b [] = b
add_lines add b (line ∷ rest) = add_lines add (add b line) rest

abbrev pub adder : ListFormat → Builder → Text → Builder
adder adblock = add_adblock_line
adder hosts = add_hosts_line

-- the text without its byte order mark
abbrev pub without_mark : Text → Text
without_mark text = unwrap_or (strip_prefix 0xfeff text) text

unfoldable pub add_list : Builder → DnsList → Builder
unfolding add_lines add_adblock_line add_hosts_line strip_prefix lines
add_list b list =
    add_lines (adder list.source.format) (record b { exempt = list.exempt })
      (lines (without_mark list.source.text))

unfoldable pub add_lists : Builder → List DnsList → Builder
unfolding add_list
add_lists b [] = b
add_lists b (list ∷ lists) = add_lists (add_list b list) lists
