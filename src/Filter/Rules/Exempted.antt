-- ===== src/Filter/Rules/Exempted.antt =====
-- The hosts that the blocks made by `parse_exempting` (core/crates/filter/src/domain_rules.rs)
-- leave alone.
use tollgate.Common.{
  ◌≡◌, refl, ◌∙◌, ◌⊎◌, inl, inr, Bool, true, false, ◌&&◌, Option, none, some, List, [], ◌∷◌, All,
  arith, Bytes, Text, any, contains, str_eq, str_eq_iff, lower, lower-idempotent, strip_dot,
  parents, is_some_and, Bool-cases,
}
use tollgate.Filter.Wildcard.Stars.{fits}
use tollgate.Filter.Wildcard.Globs.{glob_matches-fits}
use tollgate.Filter.Wildcard.{glob_matches}
use tollgate.Filter.Exempt
use tollgate.Filter.Exempt.{Exemption, covers_host, covers, covers_pattern}
use tollgate.Filter.Exempt.Hosts.{
  any-find, covers_subtree-safe, covers_pattern-safe, covers_pattern-safe_above,
}
use tollgate.Filter.Rules.Lines.{
  Kind, covers_exempt, important, allow, block, exact_allow, exact_block, wildcard_allow,
  exact_wildcard_allow, wildcard_block, exact_wildcard_block,
}
use tollgate.Filter.Rules.Builder.{DnsList}
use tollgate.Filter.Rules.Limits.{DomainRules, parse_exempting}
use tollgate.Filter.Rules.Stored.{Fits}
use tollgate.Filter.Rules.Kept.{RulesHold}
use tollgate.Filter.Rules.Spared.{Spared, parse_exempting-RulesHold}

-- Whether a rule blocks a host, by the meaning of its kind: `||name^` the name and every name under
-- it, `|name^` the name alone, a pattern a host that it fits, or for `||` one with a parent that it
-- fits. An exception blocks nothing.
abbrev pub blocks : Kind → Text → Bytes → Bool
blocks important name host = contains (host ∷ parents host) name
blocks block name host = contains (host ∷ parents host) name
blocks exact_block name host = str_eq host name
blocks wildcard_block glob host = any (fits glob) (host ∷ parents host)
blocks exact_wildcard_block glob host = fits glob host
blocks allow name host = false
blocks exact_allow name host = false
blocks wildcard_allow name host = false
blocks exact_wildcard_allow name host = false

-- An exemption is made from a list's patterns: the fields of `Exemption` are private.
abbrev pub IsMade : Option Exemption → Type 0
IsMade none = Unit
IsMade (some e) = (patterns : List Bytes) × (e ≡ Exempt.new patterns)

abbrev pub exempts_host : DnsList → Bytes → Bool
exempts_host l host = is_some_and l.exempt (λ e. covers e host)

-- One of the lists exempts no host that the rule blocks.
abbrev pub Harmless : List DnsList → Kind → Text → Type 0
Harmless [] kind name = ⊥
Harmless (l ∷ lists) kind name =
    ((host : Bytes) → (exempts_host l host && blocks kind name (lower (strip_dot host))) ≡ false)
    ⊎ Harmless lists kind name

-- A name or pattern in the stored form, whose rule is harmless to what some list exempts.
abbrev pub Allowed : List DnsList → Kind → Text → Type 0
Allowed lists kind name = Fits kind name × Harmless lists kind name

matched : (glob host : Bytes) → fits glob host ≡ true → glob_matches glob host ≡ true
matched glob host h = (glob_matches-fits glob host).1 ∙ h

-- a rule that blocks an exempt host is found to cover one
covers_exempt-safe :
    (kind : Kind) (name k : Bytes) (e : Exemption)
    → IsMade (some e)
    → lower k ≡ k
    → covers_host e k ≡ true
    → blocks kind name k ≡ true
    → covers_exempt kind name e ≡ true
unfolding covers_exempt
covers_exempt-safe important name k e (ps, made) low h m =
    rw made (covers_subtree-safe ps k name (rw (← made) h) m)
covers_exempt-safe block name k e (ps, made) low h m =
    rw made (covers_subtree-safe ps k name (rw (← made) h) m)
covers_exempt-safe exact_block name k e made low h m = rw (← (str_eq_iff k name).0 m) h
covers_exempt-safe wildcard_block name k e made low h m =
    let (y, under, fit) = any-find (fits name) (k ∷ parents k) m in
    elim (Bool-cases (str_eq k y)) [
      | inl same ↦
          covers_pattern-safe e name true k low h
            (matched name k (rw ((str_eq_iff k y).0 same) fit))
      | inr other ↦
          covers_pattern-safe_above e name true k y low refl h (ground (arith, other, under))
            (matched name y fit)
    ]
covers_exempt-safe exact_wildcard_block name k e made low h m =
    covers_pattern-safe e name false k low h (matched name k m)
covers_exempt-safe allow name k e made low h m = absurd (ground arith)
covers_exempt-safe exact_allow name k e made low h m = absurd (ground arith)
covers_exempt-safe wildcard_allow name k e made low h m = absurd (ground arith)
covers_exempt-safe exact_wildcard_allow name k e made low h m = absurd (ground arith)

harmless_one :
    (o : Option Exemption) (kind : Kind) (name host : Bytes)
    → IsMade o
    → is_some_and o (covers_exempt kind name) ≡ false
    → (is_some_and o (λ e. covers e host) && blocks kind name (lower (strip_dot host))) ≡ false
unfolding covers
harmless_one none kind name host made h = refl
harmless_one (some e) kind name host made h =
    let k = lower (strip_dot host) in
    elim (Bool-cases (covers_host e k && blocks kind name k)) [
      | inl both ↦
          (let found =
              covers_exempt-safe kind name k e made (lower-idempotent (strip_dot host))
                (ground (arith, both)) (ground (arith, both)) in
            absurd (ground (arith, found, h)))
      | inr free ↦ free
    ]

Spared-Harmless :
    (lists : List DnsList) (kind : Kind) (name : Text)
    → All (λ l. IsMade l.exempt) lists
    → Spared lists kind name
    → Harmless lists kind name
Spared-Harmless [] kind name made s = s
Spared-Harmless (l ∷ lists) kind name made (inl h) =
    inl (λ host. harmless_one l.exempt kind name host made.0 h)
Spared-Harmless (l ∷ lists) kind name made (inr s) = inr (Spared-Harmless lists kind name made.1 s)

All-weaken : {P Q : Text → Type 0} (l : List Text) → ((x : Text) → P x → Q x) → All P l → All Q l
All-weaken [] f h = tt
All-weaken (x ∷ l) f h = (f x h.0, All-weaken l f h.1)

RulesHold-weaken :
    {P Q : Kind → Text → Type 0} (r : DomainRules)
    → ((kind : Kind) (x : Text) → P kind x → Q kind x)
    → RulesHold P r
    → RulesHold Q r
RulesHold-weaken r f h = record {
  important_names = All-weaken r.important (f important) h.important_names;
  allow_names = All-weaken r.allow (f allow) h.allow_names;
  block_names = All-weaken r.block (f block) h.block_names;
  exact_allow_names = All-weaken r.exact_allow (f exact_allow) h.exact_allow_names;
  exact_block_names = All-weaken r.exact_block (f exact_block) h.exact_block_names;
  wildcard_allow_names = All-weaken r.wildcard_allow (f wildcard_allow) h.wildcard_allow_names;
  exact_wildcard_allow_names =
      All-weaken r.exact_wildcard_allow (f exact_wildcard_allow) h.exact_wildcard_allow_names;
  wildcard_block_names = All-weaken r.wildcard_block (f wildcard_block) h.wildcard_block_names;
  exact_wildcard_block_names =
      All-weaken r.exact_wildcard_block (f exact_wildcard_block) h.exact_wildcard_block_names;
}

-- Every name and pattern of the rules made from lists is in the stored form: a name in lower case of
-- at most 253 bytes with two or more labels of 1 to 63 letters, digits, `-` and `_`, the last not all
-- digits, or a pattern that is valid. And where each list's exemption is made from patterns, for each
-- kept rule there is a list none of whose exempt hosts the rule blocks, by the meaning of the rule's
-- kind; so no block of a single list blocks a host that the list exempts.
pub parse_exempting-Harmless :
    (lists : List DnsList)
    → All (λ l. IsMade l.exempt) lists
    → RulesHold (Allowed lists) (parse_exempting lists)
parse_exempting-Harmless lists made =
    RulesHold-weaken (parse_exempting lists)
      (λ kind name h. (h.0, Spared-Harmless lists kind name made h.1))
      (parse_exempting-RulesHold lists)
