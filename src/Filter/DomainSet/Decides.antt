-- ===== src/Filter/DomainSet/Decides.antt =====
-- What `DomainSet::is_blocked` answers from a file that `DomainRules::encode` made
-- (core/crates/filter/src/domain_set.rs).
use tollgate.Common.{
  ℕ, ◌≡◌, refl, ◌∙◌, ap, Bool, true, false, not, ◌&&◌, ◌||◌, some, List, [], ◌∷◌, map, arith,
  if◌then◌else◌, is_empty, any, any-append, All, All-append, Bool-cases, inl, inr, Bytes, strip_dot,
}
use tollgate.Filter.Wildcard.{matches}
use tollgate.Filter.PatternSet
use tollgate.Filter.PatternSet.{PatternSet, matches_any}
use tollgate.Filter.PatternSet.Filing.{AllBytes}
use tollgate.Filter.PatternSet.Tried.{matches_any-new}
use tollgate.Filter.Rules.Lines.{
  wildcard_allow, exact_wildcard_allow, wildcard_block, exact_wildcard_block,
}
use tollgate.Filter.Rules.Limits.{DomainRules, parse_exempting}
use tollgate.Filter.Rules.Builder.{DnsList}
use tollgate.Filter.Rules.Spared.{Spared, parse_exempting-RulesHold}
use tollgate.Filter.DomainSet.{DomainSet}
use tollgate.Filter.DomainSet.Hash.{exact_hash}
use tollgate.Filter.DomainSet.Encode.{sections, sorted_hashes, file_of, fits_u32, encode}
use tollgate.Filter.DomainSet.Load.{ok, hashes, in_range, new}
use tollgate.Filter.DomainSet.Lookup.{
  covered, exactly, dotted_names, max_names, name_hashes, decide, is_blocked,
}
use tollgate.Filter.DomainSet.Rising.{sorted_hashes-Rises, sorted_hashes-IsU64}
use tollgate.Filter.DomainSet.SectionLines.{IsValid, valid-AllBytes}
use tollgate.Filter.DomainSet.Patterns.{pattern_of, patterns_for, parse_patterns-section}
use tollgate.Filter.DomainSet.Loaded.{IsSorted, HasHashes, loaded, loaded-HasHashes, new-file_of}
use tollgate.Filter.DomainSet.Listed.{patterns_cover, rules_block, not_empty_and, covered-listed}

any-map :
    (above : Bool) (host : Bytes) (l : List Bytes)
    → any (λ p. matches p host) (map (pattern_of above) l)
      ≡ any (λ p. matches (pattern_of above p) host) l
any-map above host [] = refl
any-map above host (p ∷ l) = ap (λ b. matches (pattern_of above p) host || b) (any-map above host l)

map-AllBytes :
    (above : Bool) (l : List Bytes)
    → All IsValid l
    → All (λ p. AllBytes p.glob) (map (pattern_of above) l)
map-AllBytes above [] h = tt
map-AllBytes above (p ∷ l) h = (valid-AllBytes p h.0, map-AllBytes above l h.1)

matches_any-patterns :
    (parents only : List Bytes) (host : Bytes)
    → All IsValid parents
    → All IsValid only
    → matches_any (PatternSet.new (patterns_for parents only)) host
      ≡ patterns_cover parents only host
matches_any-patterns parents only host h k =
    matches_any-new (patterns_for parents only) host (
      All-append (λ p. AllBytes p.glob) (map (pattern_of true) parents)
        (map (pattern_of false) only) (map-AllBytes true parents h) (map-AllBytes false only k))
    ∙ (any-append (λ p. matches p host) (map (pattern_of true) parents)
          (map (pattern_of false) only)
        ∙ (ap (λ b. b || any (λ p. matches p host) (map (pattern_of false) only))
              (any-map true host parents)
            ∙ ap (λ b. any (λ p. matches (pattern_of true p) host) parents || b)
                (any-map false host only)))

-- Rules whose patterns are in the stored form.
pub record PatternsValid (r : DomainRules) : Type 0 where
  pub allow : All IsValid r.wildcard_allow
  pub exact_allow : All IsValid r.exact_wildcard_allow
  pub block : All IsValid r.wildcard_block
  pub exact_block : All IsValid r.exact_wildcard_block

sections-IsSorted : (r : DomainRules) → IsSorted (sections r)
unfolding sections
sections-IsSorted r = record {
  block = sorted_hashes-Rises r.block r.exact_block;
  allow = sorted_hashes-Rises r.allow r.exact_allow;
  important = sorted_hashes-Rises r.important [];
  block_words = sorted_hashes-IsU64 r.block r.exact_block;
  allow_words = sorted_hashes-IsU64 r.allow r.exact_allow;
  important_words = sorted_hashes-IsU64 r.important [];
}

abbrev pub loaded_rules : DomainRules → DomainSet
loaded_rules r =
    loaded (sections r) (PatternSet.new (patterns_for r.wildcard_allow r.exact_wildcard_allow))
      (PatternSet.new (patterns_for r.wildcard_block r.exact_wildcard_block))

new-sections :
    (r : DomainRules)
    → PatternsValid r
    → fits_u32 (sections r) ≡ true
    → new (file_of (sections r)) ≡ ok (loaded_rules r)
new-sections r v fits =
    new-file_of (sections r) _ _ fits (sections-IsSorted r)
      (unfold sections in
        parse_patterns-section r.wildcard_allow r.exact_wildcard_allow v.allow v.exact_allow)
      (unfold sections in
        parse_patterns-section r.wildcard_block r.exact_wildcard_block v.block v.exact_block)

in_order :
    (found : Bool) (imp exact_allowed allowed exact_blocked blocked matched excepted : Bool)
    → (if found
        then false
        else if imp
        then true
        else if exact_allowed || allowed
        then false
        else (exact_blocked || blocked || matched) && not excepted)
      ≡ (not found
          && (imp
              || not (exact_allowed || allowed)
                && not excepted
                && (exact_blocked || blocked || matched)))
in_order true imp exact_allowed allowed exact_blocked blocked matched excepted = refl
in_order false true exact_allowed allowed exact_blocked blocked matched excepted = refl
in_order false false exact_allowed allowed exact_blocked blocked matched excepted = ground arith

decide-rules :
    (r : DomainRules) (found : List ℕ) (host : Bytes)
    → PatternsValid r
    → decide (loaded_rules r) found host ≡ rules_block r found host
unfolding decide
decide-rules r found host v =
    let set = loaded_rules r in
    let h : HasHashes set (sections r) = loaded-HasHashes (sections r) _ _ (sections-IsSorted r) in
    let exact = exact_hash host in
    let block : in_range (hashes set) set.block ≡ sorted_hashes r.block r.exact_block =
      unfold sections in h.block in
    let allow : in_range (hashes set) set.allow ≡ sorted_hashes r.allow r.exact_allow =
      unfold sections in h.allow in
    let important : in_range (hashes set) set.important ≡ sorted_hashes r.important [] =
      unfold sections in h.important in
    in_order (is_empty found) (covered set found set.important) (exactly set exact set.allow)
      (covered set found set.allow) (exactly set exact set.block) (covered set found set.block)
      (matches_any set.wildcard_block host) (matches_any set.wildcard_allow host)
    ∙ (λ i.
        not (is_empty found)
        && (covered-listed set set.important r.important [] important found i
            || not (
                not_empty_and set set.allow r.allow r.exact_allow allow exact i
                || covered-listed set set.allow r.allow r.exact_allow allow found i)
              && not (
                  matches_any-patterns r.wildcard_allow r.exact_wildcard_allow host v.allow
                    v.exact_allow i)
              && (not_empty_and set set.block r.block r.exact_block block exact i
                  || covered-listed set set.block r.block r.exact_block block found i
                  || matches_any-patterns r.wildcard_block r.exact_wildcard_block host v.block
                      v.exact_block i)))

encode-file_of :
    (r : DomainRules) (bytes : Bytes)
    → encode r ≡ some bytes
    → (fits_u32 (sections r) ≡ true) × (bytes ≡ file_of (sections r))
unfolding encode
encode-file_of r bytes h = elim (Bool-cases (fits_u32 (sections r))) [
  | inl e ↦ (e, ground arith)
  | inr e ↦ absurd (ground arith)
]

-- A file made of rules whose patterns are in the stored form loads, and decides as the rules.
pub new-encode :
    (r : DomainRules) (bytes : Bytes)
    → PatternsValid r
    → encode r ≡ some bytes
    → (set : DomainSet) × (new bytes ≡ ok set)
      × ((host : Bytes)
          → is_blocked set host
            ≡ rules_block r
                (name_hashes (dotted_names max_names (strip_dot host)))
                (strip_dot host))
unfolding is_blocked
new-encode r bytes v h =
    let (fits, same) = encode-file_of r bytes h in
    (
      loaded_rules r,
      ap new same ∙ new-sections r v fits,
      λ host.
          decide-rules r (name_hashes (dotted_names max_names (strip_dot host))) (strip_dot host) v,
    )

All-first : (P Q : Bytes → Type 0) (l : List Bytes) → All (λ n. P n × Q n) l → All P l
All-first P Q [] h = tt
All-first P Q (n ∷ l) h = (h.0.0, All-first P Q l h.1)

parse_exempting-PatternsValid : (lists : List DnsList) → PatternsValid (parse_exempting lists)
parse_exempting-PatternsValid lists =
    let r = parse_exempting lists in
    let h = parse_exempting-RulesHold lists in
    record {
      allow =
          All-first IsValid (Spared lists wildcard_allow) r.wildcard_allow h.wildcard_allow_names;
      exact_allow =
          All-first IsValid (Spared lists exact_wildcard_allow) r.exact_wildcard_allow
            h.exact_wildcard_allow_names;
      block =
          All-first IsValid (Spared lists wildcard_block) r.wildcard_block h.wildcard_block_names;
      exact_block =
          All-first IsValid (Spared lists exact_wildcard_block) r.exact_wildcard_block
            h.exact_wildcard_block_names;
    }

-- If the rules that lists give can be encoded, the file loads without an error, and the set that is
-- loaded answers for every host as the rules say: a host that has a dot once its final dot is gone is
-- blocked exactly when an important block covers it, or when a block and no exception does. A rule of
-- a name covers a host where the hashes agree for the host, for one of the parents with a dot among
-- the first 127 names, or, if the rule is for one host only, for that host; a rule with a `*`, where
-- its pattern matches the host or, for `||`, a parent.
pub encode-is_blocked :
    (lists : List DnsList) (bytes : Bytes)
    → encode (parse_exempting lists) ≡ some bytes
    → (set : DomainSet) × (new bytes ≡ ok set)
      × ((host : Bytes)
          → is_blocked set host
            ≡ rules_block
                (parse_exempting lists)
                (name_hashes (dotted_names max_names (strip_dot host)))
                (strip_dot host))
encode-is_blocked lists bytes h =
    new-encode (parse_exempting lists) bytes (parse_exempting-PatternsValid lists) h
