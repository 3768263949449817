-- ===== src/Filter/Rules/Limits.antt =====
-- `limit_patterns` and `finish` of `Builder`, and `DomainRules`, of
-- core/crates/filter/src/domain_rules.rs.
use tollgate.Common.{
  ℕ, ◌+◌, Bool, true, false, not, ◌&&◌, ◌||◌, List, [], ◌∷◌, ◌++◌, ltb, if◌then◌else◌, any, retain,
  Text, str_eq, contains, parents,
}
use tollgate.Common.Sorting.{bytes_le, sort}
use tollgate.Filter.Wildcard.{is_unkeyed}
use tollgate.Filter.Rules.Lines.{Kind, is_exception}
use tollgate.Filter.Rules.Builder.{
  Builder, DnsList, no_rules, set, set_to, count_skipped, add_lists,
}

pub record DomainRules : Type 0 where
  pub important : List Text
  pub allow : List Text
  pub block : List Text
  pub exact_allow : List Text
  pub exact_block : List Text
  pub wildcard_allow : List Text
  pub exact_wildcard_allow : List Text
  pub wildcard_block : List Text
  pub exact_wildcard_block : List Text
  pub skipped : ℕ
  pub exempted : ℕ

abbrev pub max_wildcard_patterns : ℕ
max_wildcard_patterns = 4096

abbrev pub max_unkeyed_patterns : ℕ
max_unkeyed_patterns = 64

-- `HashSet::remove`
unfoldable pub set_remove : List Text → Text → List Text
unfolding str_eq
set_remove s name = retain (λ n. not (str_eq n name)) s

pub record Limited : Type 0 where
  pub builder : Builder
  pub kept : ℕ
  pub kept_unkeyed : ℕ
  pub left_out : ℕ

abbrev pub one_if : Bool → ℕ
one_if true = 1
one_if false = 0

-- one turn of the loop
unfoldable pub limit : Limited → Kind → Text → Limited
unfolding set_remove is_unkeyed
limit s kind pattern =
    if not (contains (set s.builder kind) pattern)
    then s
    else if ltb s.kept max_wildcard_patterns
        && (not (is_unkeyed pattern) || ltb s.kept_unkeyed max_unkeyed_patterns)
    then record s { kept = s.kept + 1; kept_unkeyed = s.kept_unkeyed + one_if (is_unkeyed pattern) }
    else record s {
      builder = set_to s.builder kind (set_remove (set s.builder kind) pattern);
      left_out = s.left_out + 1;
    }

unfoldable pub limit_all : Limited → List (Kind × Text) → Limited
unfolding limit
limit_all s [] = s
limit_all s ((kind, pattern) ∷ rest) = limit_all (limit s kind pattern) rest

-- exceptions first
abbrev pub in_order : List (Kind × Text) → List (Kind × Text)
in_order order = retain (λ e. is_exception e.0) order ++ retain (λ e. not (is_exception e.0)) order

abbrev pub unlimited : Builder → Limited
unlimited b = record {
  builder = record b { pattern_order = [] };
  kept = 0;
  kept_unkeyed = 0;
  left_out = 0;
}

unfoldable pub limit_patterns : Builder → Builder
unfolding limit_all retain
limit_patterns b =
    let s = limit_all (unlimited b) (in_order b.pattern_order) in count_skipped s.left_out s.builder

-- the loop of `finish` on the rules that `$badfilter` cancels
unfoldable pub cancel : Builder → List (Kind × Text) → Builder
unfolding set_remove
cancel b [] = b
cancel b ((kind, name) ∷ rest) = cancel (set_to b kind (set_remove (set b kind) name)) rest

unfoldable pub sorted : List Text → List Text
unfolding sort bytes_le
sorted names = sort bytes_le names

unfoldable pub without_redundant_children : List Text → List Text
unfolding sort bytes_le retain parents str_eq
without_redundant_children names =
    sort bytes_le (retain (λ name. not (any (contains names) (parents name))) names)

unfoldable pub finish : Builder → DomainRules
unfolding cancel limit_patterns sorted without_redundant_children
finish b0 =
    let b = limit_patterns (cancel (record b0 { badfilter = [] }) b0.badfilter) in
    record {
      important = without_redundant_children b.important_set;
      allow = without_redundant_children b.allow_set;
      block = without_redundant_children b.block_set;
      exact_allow = sorted b.exact_allow_set;
      exact_block = sorted b.exact_block_set;
      wildcard_allow = sorted b.wildcard_allow_set;
      exact_wildcard_allow = sorted b.exact_wildcard_allow_set;
      wildcard_block = sorted b.wildcard_block_set;
      exact_wildcard_block = sorted b.exact_wildcard_block_set;
      skipped = b.skipped;
      exempted = b.exempted;
    }

-- `DomainRules::parse_exempting`
unfoldable pub parse_exempting : List DnsList → DomainRules
unfolding finish add_lists
parse_exempting lists = finish (add_lists no_rules lists)
