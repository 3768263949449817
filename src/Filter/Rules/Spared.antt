-- ===== src/Filter/Rules/Spared.antt =====
-- The names that `parse_exempting` (core/crates/filter/src/domain_rules.rs) keeps, and the hosts
-- that the lists exempt.
use tollgate.Common.{
  ℕ, ◌+◌, ◌++◌, ◌&&◌, any, str_eq, Bool-cases, ◌⊎◌, inl, inr, ◌≡◌, false, is_some_and, List, [],
  ◌∷◌, Text,
}
use tollgate.Policy.PatternSet.{set_insert}
use tollgate.Filter.Rules.Lines.{
  Kind, covers_exempt, important, allow, block, exact_allow, exact_block, wildcard_allow,
  exact_wildcard_allow, wildcard_block, exact_wildcard_block,
}
use tollgate.Filter.Rules.Builder.{
  kind_eq, Builder, DnsList, no_rules, set, insert, file, is_exempt, note_badfilter, add_lists,
}
use tollgate.Filter.Rules.Limits.{parse_exempting}
use tollgate.Filter.Rules.Stored.{Fits}
use tollgate.Filter.Rules.Invariants.{Among, Closed, add_lists-keeps}
use tollgate.Filter.Rules.Kept.{
  Holds, RulesHold, with_others, with_others-Holds, exempt-set_to, insert-Holds, finish-RulesHold,
}

-- For one of the lists, `covers_exempt` finds no exempt host that the rule covers.
abbrev pub Spared : List DnsList → Kind → Text → Type 0
Spared [] kind name = ⊥
Spared (l ∷ lists) kind name =
    (is_some_and l.exempt (covers_exempt kind name) ≡ false) ⊎ Spared lists kind name

Spared-Among :
    (lists : List DnsList) (l : DnsList) (kind : Kind) (name : Text)
    → Among l lists
    → is_some_and l.exempt (covers_exempt kind name) ≡ false
    → Spared lists kind name
Spared-Among [] l kind name m h = m
Spared-Among (l' ∷ lists) l kind name (inl e) h = inl (rw (← e) h)
Spared-Among (l' ∷ lists) l kind name (inr m) h = inr (Spared-Among lists l kind name m h)

-- A name or pattern in the stored form, that the exemption of some list lets through.
abbrev pub Keepable : List DnsList → Kind → Text → Type 0
Keepable lists kind name = Fits kind name × Spared lists kind name

module _ (lists : List DnsList) where
  abbrev AllKeepable : Builder → Type 0
  AllKeepable = Holds (Keepable lists)

  -- while a list is added
  record Adding (b : Builder) : Type 0 where
    spares : (kind : Kind) (name : Text) → is_exempt b kind name ≡ false → Spared lists kind name
    keepable : AllKeepable b

  keeping_one :
      (b : Builder) (kind : Kind) (name : Text)
      → Fits kind name
      → is_exempt b kind name ≡ false
      → Adding b
      → AllKeepable (insert b kind name)
  keeping_one b kind name fits spared a =
      insert-Holds (Keepable lists) b kind name a.keepable (fits, a.spares kind name spared)

  -- the exemption decides what is spared
  spares-of :
      (b c : Builder)
      → c.exempt ≡ b.exempt
      → Adding b
      → (kind : Kind) (name : Text) → is_exempt c kind name ≡ false
      → Spared lists kind name
  spares-of b c e a kind name h = a.spares kind name (rw (← e) h)

  others-Adding :
      (b : Builder) (f o : List (Kind × Text)) (s x : ℕ)
      → Adding b
      → Adding (with_others b b.exempt f o s x)
  others-Adding b f o s x a = record {
    spares = a.spares;
    keepable = with_others-Holds (Keepable lists) b b.exempt f o s x a.keepable;
  }

  insert-Adding :
      (b : Builder) (kind : Kind) (name : Text)
      → Fits kind name
      → is_exempt b kind name ≡ false
      → Adding b
      → Adding (insert b kind name)
  insert-Adding b kind name fits spared a = record {
    spares =
        spares-of b (insert b kind name) (exempt-set_to b kind (set_insert (set b kind) name)) a;
    keepable = keeping_one b kind name fits spared a;
  }

  note_badfilter-Adding :
      (b : Builder) (kind : Kind) (name : Text) → Adding b → Adding (note_badfilter b kind name)
  unfolding note_badfilter
  note_badfilter-Adding b kind name a =
      elim (Bool-cases (any (λ e. kind_eq e.0 kind && str_eq e.1 name) b.badfilter)) [
        | inl e ↦ rw e a
        | inr e ↦ rw e (
            others-Adding b (b.badfilter ++ (kind, name) ∷ []) b.pattern_order b.skipped b.exempted
              a)
      ]

  Adding-Closed : Closed lists AllKeepable Adding
  unfolding file
  Adding-Closed = record {
    resting = λ b a. a.keepable;
    starting = λ b l m h. record {
      spares = λ kind name. Spared-Among lists l kind name m;
      keepable =
          with_others-Holds (Keepable lists) b l.exempt b.badfilter b.pattern_order b.skipped
            b.exempted h;
    };
    skipping = λ b a. others-Adding b b.badfilter b.pattern_order (b.skipped + 1) b.exempted a;
    exempting = λ b a. others-Adding b b.badfilter b.pattern_order b.skipped (b.exempted + 1) a;
    cancelling = note_badfilter-Adding;
    keeping = λ b kind name fits spared host a. insert-Adding b kind name fits spared a;
    filing = λ b kind name fits spared pattern new a.
        let c = insert b kind name in
        others-Adding c c.badfilter (b.pattern_order ++ (kind, name) ∷ []) c.skipped c.exempted
          (insert-Adding b kind name fits spared a);
  }

  no_rules-AllKeepable : AllKeepable no_rules
  no_rules-AllKeepable important = tt
  no_rules-AllKeepable allow = tt
  no_rules-AllKeepable block = tt
  no_rules-AllKeepable exact_allow = tt
  no_rules-AllKeepable exact_block = tt
  no_rules-AllKeepable wildcard_allow = tt
  no_rules-AllKeepable exact_wildcard_allow = tt
  no_rules-AllKeepable wildcard_block = tt
  no_rules-AllKeepable exact_wildcard_block = tt

  -- each kept name or pattern has its form, and the test of the exemption let it through
  pub parse_exempting-RulesHold : RulesHold (Keepable lists) (parse_exempting lists)
  unfolding parse_exempting
  parse_exempting-RulesHold = finish-RulesHold (Keepable lists) (add_lists no_rules lists) (
      add_lists-keeps lists AllKeepable Adding Adding-Closed no_rules lists (λ l m. m)
        no_rules-AllKeepable)
