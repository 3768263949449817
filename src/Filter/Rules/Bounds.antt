-- ===== src/Filter/Rules/Bounds.antt =====
-- The limits on patterns of core/crates/filter/src/domain_rules.rs.
use tollgate.Common.{◌+◌, ◌≤◌, ◌≡◌, true, List, [], arith, length, Text, contains, str_eq}
use tollgate.Common.Sorting.{bytes_le, any-sort}
use tollgate.Filter.Rules.Lines.{
  Kind, important, allow, block, exact_allow, exact_block, wildcard_allow, exact_wildcard_allow,
  wildcard_block, exact_wildcard_block, is_pattern,
}
use tollgate.Filter.Rules.Builder.{Builder, set, DnsList, no_rules, count_skipped, add_lists}
use tollgate.Filter.Rules.Limits.{
  DomainRules, in_order, unlimited, limit_patterns, cancel, sorted, finish, parse_exempting,
  max_wildcard_patterns, max_unkeyed_patterns, limit_all,
}
use tollgate.Filter.Rules.Invariants.{add_lists-keeps}
use tollgate.Filter.Rules.Kept.{set-with_others}
use tollgate.Filter.Rules.Keeping.{
  listed, unkeyed_of, kept_patterns, limit_all_sub, listed_kept, length-kept_patterns,
  length-unkeyed_of,
}
use tollgate.Filter.Rules.Noted.{
  Noted, Noted-Closed, no_rules-Noted, cancel-Noted, others-Noted, listed-in_order,
}

-- the four lists of patterns of the rules
abbrev pub patterns_of : DomainRules → Kind → List Text
patterns_of r wildcard_allow = r.wildcard_allow
patterns_of r exact_wildcard_allow = r.exact_wildcard_allow
patterns_of r wildcard_block = r.wildcard_block
patterns_of r exact_wildcard_block = r.exact_wildcard_block
patterns_of r important = []
patterns_of r allow = []
patterns_of r block = []
patterns_of r exact_allow = []
patterns_of r exact_block = []

contains-sorted : (l : List Text) (x : Text) → contains (sorted l) x ≡ contains l x
unfolding sorted
contains-sorted l x = any-sort (λ t. str_eq t x) bytes_le l

-- the builder whose sets become the rules
abbrev settled : Builder → Builder
settled b = cancel (record b { badfilter = [] }) b.badfilter

pattern_left :
    (b : Builder) (k : Kind) (x : Text)
    → contains (sorted (set (limit_patterns (settled b)) k)) x ≡ true
    → contains
        (set (limit_all (unlimited (settled b)) (in_order (settled b).pattern_order)).builder k)
        x
      ≡ true
unfolding limit_patterns
pattern_left b k x h =
    let s = limit_all (unlimited (settled b)) (in_order (settled b).pattern_order) in
    let c = s.builder in
    rw
      (← set-with_others c c.exempt c.badfilter c.pattern_order (c.skipped + s.left_out) c.exempted
        k)
      (rw (← contains-sorted (set (count_skipped s.left_out c) k) x) h)

contains-patterns_of :
    (b : Builder) (k : Kind) (x : Text)
    → contains (patterns_of (finish b) k) x ≡ true
    → contains
        (set (limit_all (unlimited (settled b)) (in_order (settled b).pattern_order)).builder k)
        x
      ≡ true
unfolding finish
contains-patterns_of b important x h = absurd (ground arith)
contains-patterns_of b allow x h = absurd (ground arith)
contains-patterns_of b block x h = absurd (ground arith)
contains-patterns_of b exact_allow x h = absurd (ground arith)
contains-patterns_of b exact_block x h = absurd (ground arith)
contains-patterns_of b wildcard_allow x h = pattern_left b wildcard_allow x h
contains-patterns_of b exact_wildcard_allow x h = pattern_left b exact_wildcard_allow x h
contains-patterns_of b wildcard_block x h = pattern_left b wildcard_block x h
contains-patterns_of b exact_wildcard_block x h = pattern_left b exact_wildcard_block x h

finish-limits :
    (b : Builder)
    → Noted b
    → (kept : List (Kind × Text)) × (length kept ≤ max_wildcard_patterns)
      × (length (unkeyed_of kept) ≤ max_unkeyed_patterns)
      × ((k : Kind) (name : Text)
          → is_pattern k ≡ true
          → contains (patterns_of (finish b) k) name ≡ true
          → listed kept k name ≡ true)
finish-limits b h =
    let c = settled b in
    let s = unlimited c in
    let order = in_order c.pattern_order in
    let noted : Noted c =
      cancel-Noted (record b { badfilter = [] }) b.badfilter
        (others-Noted b b.exempt [] b.skipped b.exempted h) in
    (
      kept_patterns s order,
      omega (arith, length-kept_patterns s order (omega arith)),
      omega (arith, length-unkeyed_of s order (omega arith)),
      λ k name p m.
          let left = contains-patterns_of b k name m in
          let there : contains (set c k) name ≡ true =
            rw (← set-with_others c c.exempt c.badfilter [] c.skipped c.exempted k)
              (limit_all_sub s order k name left) in
          listed_kept s order k name left
            (listed-in_order c.pattern_order k name (noted k name p there)),
    )

-- Whatever the lists say, there are at most 4096 patterns, of which at most 64 start and end with a
-- `*`, such that every wildcard exception and block of the rules is one of them.
pub parse_exempting-limits :
    (lists : List DnsList)
    → (kept : List (Kind × Text)) × (length kept ≤ max_wildcard_patterns)
      × (length (unkeyed_of kept) ≤ max_unkeyed_patterns)
      × ((k : Kind) (name : Text)
          → is_pattern k ≡ true
          → contains (patterns_of (parse_exempting lists) k) name ≡ true
          → listed kept k name ≡ true)
unfolding parse_exempting
parse_exempting-limits lists = finish-limits (add_lists no_rules lists) (
    add_lists-keeps lists Noted Noted (Noted-Closed lists) no_rules lists (λ l m. m) no_rules-Noted)
