-- ===== src/Filter/Rules/Noted.antt =====
-- The order of the patterns in `Builder` of core/crates/filter/src/domain_rules.rs.
use tollgate.Common.{
  ap, Option, ℕ, ◌+◌, inl, inr, ◌≡◌, true, false, ◌&&◌, ◌||◌, List, [], ◌∷◌, ◌++◌, arith, any,
  any-append, any-partition, Text, contains, str_eq, Bool-cases,
}
use tollgate.Policy.PatternSet.{set_insert}
use tollgate.Policy.PatternSet.Refines.{contains-set_insert}
use tollgate.Filter.Exempt.{Exemption}
use tollgate.Filter.Rules.Lines.{
  Kind, important, allow, block, exact_allow, exact_block, wildcard_allow, exact_wildcard_allow,
  wildcard_block, exact_wildcard_block, is_pattern, is_exception,
}
use tollgate.Filter.Rules.Builder.{
  Builder, set, set_to, insert, file, kind_eq, DnsList, note_badfilter, no_rules,
}
use tollgate.Filter.Rules.Limits.{in_order, cancel, set_remove}
use tollgate.Filter.Rules.Invariants.{Closed}
use tollgate.Filter.Rules.Kept.{with_others, set-with_others, pattern_order-set_to, kind_eq-eq}
use tollgate.Filter.Rules.Keeping.{listed, contains_removed, contains-set_to}

-- Every pattern in the sets is noted in the order of the lists.
abbrev pub Noted : Builder → Type 0
Noted b =
    (k : Kind) (name : Text)
    → is_pattern k ≡ true
    → contains (set b k) name ≡ true
    → listed b.pattern_order k name ≡ true

contains-insert :
    (b : Builder) (k j : Kind) (name x : Text)
    → contains (set (insert b k name) j) x ≡ (contains (set b j) x || kind_eq k j && str_eq name x)
contains-insert b k j name x = elim (Bool-cases (kind_eq k j)) [
  | inl e ↦
      let same : contains (set b k) x ≡ contains (set b j) x =
        ap (λ i. contains (set b i) x) (kind_eq-eq k j e) in
      ground (
        arith,
        contains-set_to b k j (set_insert (set b k) name) x,
        contains-set_insert (set b k) name x,
      )
  | inr e ↦ ground (arith, contains-set_to b k j (set_insert (set b k) name) x)
]

pub others-Noted :
    (b : Builder) (e : Option Exemption) (f : List (Kind × Text)) (s x : ℕ)
    → Noted b
    → Noted (with_others b e f b.pattern_order s x)
others-Noted b e f s x h k name p m =
    h k name p (rw (← set-with_others b e f b.pattern_order s x k) m)

kinds_differ : (k j : Kind) → is_pattern k ≡ false → is_pattern j ≡ true → kind_eq k j ≡ false
kinds_differ k j host pattern = elim (Bool-cases (kind_eq k j)) [
  | inl e ↦ absurd (ground (arith, ap is_pattern (kind_eq-eq k j e)))
  | inr e ↦ e
]

insert-Noted :
    (b : Builder) (k : Kind) (name : Text)
    → is_pattern k ≡ false
    → Noted b
    → Noted (insert b k name)
insert-Noted b k name host h j x p m =
    let other : kind_eq k j ≡ false = kinds_differ k j host p in
    rw (pattern_order-set_to b k (set_insert (set b k) name))
      (h j x p (ground (arith, contains-insert b k j name x)))

file-Noted : (b : Builder) (k : Kind) (name : Text) → Noted b → Noted (file b k name)
unfolding file
file-Noted b k name h j x p m =
    let c = insert b k name in
    let order = b.pattern_order ++ (k, name) ∷ [] in
    let m' : contains (set c j) x ≡ true =
      rw (← set-with_others c c.exempt c.badfilter order c.skipped c.exempted j) m in
    ground (
      arith,
      contains-insert b k j name x,
      h j x p,
      any-append (λ e. kind_eq e.0 j && str_eq e.1 x) b.pattern_order ((k, name) ∷ []),
    )

note_badfilter-Noted :
    (b : Builder) (k : Kind) (name : Text) → Noted b → Noted (note_badfilter b k name)
unfolding note_badfilter
note_badfilter-Noted b k name h =
    elim (Bool-cases (any (λ e. kind_eq e.0 k && str_eq e.1 name) b.badfilter)) [
      | inl e ↦ rw e h
      | inr e ↦
          rw e (others-Noted b b.exempt (b.badfilter ++ (k, name) ∷ []) b.skipped b.exempted h)
    ]

pub Noted-Closed : (lists : List DnsList) → Closed lists Noted Noted
Noted-Closed lists = record {
  resting = λ b h. h;
  starting = λ b l m h. others-Noted b l.exempt b.badfilter b.skipped b.exempted h;
  skipping = λ b h. others-Noted b b.exempt b.badfilter (b.skipped + 1) b.exempted h;
  exempting = λ b h. others-Noted b b.exempt b.badfilter b.skipped (b.exempted + 1) h;
  cancelling = note_badfilter-Noted;
  keeping = λ b k name fits spared host h. insert-Noted b k name host h;
  filing = λ b k name fits spared pattern new h. file-Noted b k name h;
}

pub no_rules-Noted : Noted no_rules
no_rules-Noted k name p m = go k m
  where
    go : (j : Kind) → contains (set no_rules j) name ≡ true → listed [] k name ≡ true
    go important e = cc
    go allow e = cc
    go block e = cc
    go exact_allow e = cc
    go exact_block e = cc
    go wildcard_allow e = cc
    go exact_wildcard_allow e = cc
    go wildcard_block e = cc
    go exact_wildcard_block e = cc

set_remove-Noted :
    (b : Builder) (k : Kind) (name : Text)
    → Noted b
    → Noted (set_to b k (set_remove (set b k) name))
set_remove-Noted b k name h j x p m =
    rw (pattern_order-set_to b k (set_remove (set b k) name))
      (h j x p (ground (arith, contains_removed b k j name x)))

pub cancel-Noted : (b : Builder) (l : List (Kind × Text)) → Noted b → Noted (cancel b l)
unfolding cancel
cancel-Noted b [] h = h
cancel-Noted b ((k, name) ∷ l) h =
    cancel-Noted (set_to b k (set_remove (set b k) name)) l (set_remove-Noted b k name h)

-- exceptions first, none left out
pub listed-in_order :
    (order : List (Kind × Text)) (k : Kind) (name : Text)
    → listed order k name ≡ true
    → listed (in_order order) k name ≡ true
listed-in_order order k name h =
    rw (any-partition (λ e. kind_eq e.0 k && str_eq e.1 name) (λ e. is_exception e.0) order) h
