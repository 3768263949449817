-- ===== src/Filter/Tests.antt =====
-- Concrete inputs for the theorems on core/crates/filter.
use tollgate.Common.{◌≡◌, some, true, none, codes}
use tollgate.Common.{Bytes, List, [], ◌∷◌, refl, lower}
use tollgate.Common.{false, ℕ, ◌≤◌, ◌==◌, length, any, contains, parents, Text}
use tollgate.Filter.Exempt
use tollgate.Filter.Exempt.{covers, covers_subtree, matches_some_name_under}
use tollgate.Filter.Exempt.Covers.{covers-new, covers_subtree-new}
use tollgate.Filter.Exempt.Under.{matches_some_name_under-safe}
use tollgate.Filter.RequestType.{request_type}
use tollgate.Filter.Wildcard.{Pattern, turns, glob_fuel, glob_matches, matches}
use tollgate.Filter.Wildcard.Ends.{is_prefix}
use tollgate.Filter.Rules.Lines.{Kind, is_pattern}
use tollgate.Filter.Rules.Builder.{DnsList, adblock, hosts}
use tollgate.Filter.Rules.Limits.{
  parse_exempting, without_redundant_children, max_wildcard_patterns, max_unkeyed_patterns,
}
use tollgate.Filter.Rules.Kept.{RulesHold}
use tollgate.Filter.Rules.Exempted.{Allowed, parse_exempting-Harmless}
use tollgate.Filter.Rules.Keeping.{listed, unkeyed_of}
use tollgate.Filter.Rules.Bounds.{patterns_of, parse_exempting-limits}
use tollgate.Filter.Rules.Children.{without_redundant_children-lookup}
use tollgate.Filter.Trie
use tollgate.Filter.Trie.{Entry, any_id}
use tollgate.Filter.Trie.Lookup.{any_id-new}
use tollgate.Filter.PatternSet
use tollgate.Filter.PatternSet.{matches_any}
use tollgate.Filter.PatternSet.Filing.{all-AllBytes}
use tollgate.Filter.PatternSet.Tried.{matches_any-new}
use tollgate.Filter.Wildcard.Globs.{glob_matches-fits}

glob_matches-fits_example :
    (turns (glob_fuel (codes "a*b*.x") (codes "AcbdB.x")) (codes "a*b*.x") (codes "AcbdB.x") none
      ≡ some true)
    × (glob_matches (codes "a*b*.x") (codes "AcbdB.x") ≡ true)
unfolding tollgate.Filter.Wildcard.Stars.fits
glob_matches-fits_example = glob_matches-fits (codes "a*b*.x") (codes "AcbdB.x")

-- `*.mil` and `a.example`, and names that they exempt or have under them
abbrev exempt_patterns : List Bytes
exempt_patterns = codes "*.mil" ∷ codes "a.example." ∷ []

covers-new_example : covers (Exempt.new exempt_patterns) (codes "army.MIL.") ≡ true
unfolding tollgate.Common.strip_prefix tollgate.Common.trim tollgate.Common.is_whitespace lower
    tollgate.Common.strip_suffix tollgate.Common.str_eq tollgate.Common.parents
covers-new_example = covers-new exempt_patterns (codes "army.MIL.")

covers_subtree-new_example : covers_subtree (Exempt.new exempt_patterns) (codes "example") ≡ true
unfolding tollgate.Common.strip_prefix tollgate.Common.trim tollgate.Common.is_whitespace lower
    tollgate.Common.strip_suffix tollgate.Common.str_eq tollgate.Common.parents
covers_subtree-new_example = covers_subtree-new exempt_patterns (codes "example")

matches_some_name_under-safe_example :
    matches_some_name_under (codes "ads*.x.mil") (codes "mil") ≡ true
unfolding lower glob_matches
matches_some_name_under-safe_example =
    matches_some_name_under-safe (codes "ads*.x.mil") (codes "mil") (codes "ads1.x") refl refl

-- the path decides when neither header does
request_type_script :
    request_type (some (codes "future")) (some (codes "*/*")) (codes "/a/app.JS?x=/b.css")
    ≡ codes "script"
unfolding request_type tollgate.Common.is_whitespace
request_type_script = refl

-- a list with a rule, a redundant child, an exception, a wildcard block, and a block of a name that
-- the list exempts
abbrev exempting_list : DnsList
exempting_list = record {
  source = record {
    text =
        codes
          "||Ads.example^\n||x.ads.example^$important\n@@|ok.ads.example^|\n||log*.example.com^\n||army.mil^";
    format = adblock;
  };
  exempt = some (Exempt.new (codes "*.mil" ∷ []));
}

abbrev rule_lists : List DnsList
rule_lists =
    exempting_list
    ∷ record {
      source = record {
        text = codes "0.0.0.0 mil.example ads.army.mil # two names\n";
        format = hosts;
      };
      exempt = none;
    }
    ∷ []

parse_exempting-Harmless_example : RulesHold (Allowed rule_lists) (parse_exempting rule_lists)
parse_exempting-Harmless_example =
    parse_exempting-Harmless rule_lists ((codes "*.mil" ∷ [], refl), (tt, tt))

parse_exempting-limits_example :
    (kept : List (Kind × Text)) × (length kept ≤ max_wildcard_patterns)
    × (length (unkeyed_of kept) ≤ max_unkeyed_patterns)
    × ((k : Kind) (name : Text)
        → is_pattern k ≡ true
        → contains (patterns_of (parse_exempting rule_lists) k) name ≡ true
        → listed kept k name ≡ true)
parse_exempting-limits_example = parse_exempting-limits rule_lists

-- the subtree of `x.ads.example` is in that of `ads.example`
abbrev redundant_names : List Text
redundant_names = codes "x.ads.example" ∷ codes "ads.example" ∷ codes "b.example" ∷ []

without_redundant_children-lookup_example :
    any
      (contains (without_redundant_children redundant_names))
      (codes "y.x.ads.example" ∷ parents (codes "y.x.ads.example"))
    ≡ true
unfolding parents tollgate.Common.str_eq
without_redundant_children-lookup_example =
    without_redundant_children-lookup redundant_names (codes "y.x.ads.example")

abbrev keys : List Entry
keys = (codes "log", 0) ∷ (codes "ad", 1) ∷ (codes "lo", 2) ∷ []

any_id-new_example : any_id (Trie.new keys) (codes "log1") (λ id. id == 0) ≡ true
unfolding is_prefix
any_id-new_example =
    any_id-new keys (codes "log1") (λ id. id == 0)
      (
        (refl, all-AllBytes (codes "log") refl),
        ((refl, all-AllBytes (codes "ad") refl), ((refl, all-AllBytes (codes "lo") refl), tt)),
      )

abbrev some_patterns : List Pattern
some_patterns =
    record { glob = codes "log*.example.com"; parents = true }
    ∷ record { glob = codes "*ads*"; parents = false }
    ∷ []

matches_any-new_example :
    matches_any (PatternSet.new some_patterns) (codes "x.LOG1.example.com") ≡ true
unfolding matches parents glob_matches
matches_any-new_example =
    matches_any-new some_patterns (codes "x.LOG1.example.com")
      (all-AllBytes (codes "log*.example.com") refl, (all-AllBytes (codes "*ads*") refl, tt))
