-- ===== src/Filter/Rules/Keeping.antt =====
-- The loop of `limit_patterns` of core/crates/filter/src/domain_rules.rs, and what it keeps.
use tollgate.Common.{
  ap, sym, subst, ◌+◌, ◌≤◌, inl, inr, ◌≡◌, ◌∙◌, Bool, true, false, not, ◌&&◌, ◌||◌, List, [], ◌∷◌,
  arith, any, any-retain, retain, ltb, length, if◌then◌else◌, Text, contains, str_eq, str_eq_iff,
  Bool-cases,
}
use tollgate.Filter.Wildcard.{is_unkeyed}
use tollgate.Filter.Rules.Lines.{Kind}
use tollgate.Filter.Rules.Builder.{Builder, set, set_to, kind_eq}
use tollgate.Filter.Rules.Limits.{
  max_wildcard_patterns, max_unkeyed_patterns, set_remove, Limited, limit, limit_all,
}
use tollgate.Filter.Rules.Children.{any_same}
use tollgate.Filter.Rules.Kept.{set-set_to, kind_eq-eq, limit-elim}

abbrev pub listed : List (Kind × Text) → Kind → Text → Bool
listed l k name = any (λ e. kind_eq e.0 k && str_eq e.1 name) l

-- whether a pattern has a place under the limits
abbrev has_room : Limited → Text → Bool
has_room s name =
    ltb s.kept max_wildcard_patterns
    && (not (is_unkeyed name) || ltb s.kept_unkeyed max_unkeyed_patterns)

-- the patterns that the loop keeps
pub kept_patterns : Limited → List (Kind × Text) → List (Kind × Text)
kept_patterns s [] = []
kept_patterns s ((k, name) ∷ l) =
    let rest = kept_patterns (limit s k name) l in
    if contains (set s.builder k) name && has_room s name then (k, name) ∷ rest else rest

abbrev pub unkeyed_of : List (Kind × Text) → List (Kind × Text)
unkeyed_of = retain (λ e. is_unkeyed e.1)

pub length-kept_patterns :
    (s : Limited) (l : List (Kind × Text))
    → s.kept ≤ max_wildcard_patterns
    → length (kept_patterns s l) + s.kept ≤ max_wildcard_patterns
unfolding kept_patterns limit
length-kept_patterns s [] h = omega arith
length-kept_patterns s ((k, name) ∷ l) h = ground (arith, length-kept_patterns (limit s k name) l)

pub length-unkeyed_of :
    (s : Limited) (l : List (Kind × Text))
    → s.kept_unkeyed ≤ max_unkeyed_patterns
    → length (unkeyed_of (kept_patterns s l)) + s.kept_unkeyed ≤ max_unkeyed_patterns
unfolding kept_patterns limit retain
length-unkeyed_of s [] h = omega arith
length-unkeyed_of s ((k, name) ∷ l) h = ground (arith, length-unkeyed_of (limit s k name) l)

contains-set_remove :
    (s : List Text) (name x : Text)
    → contains (set_remove s name) x ≡ (not (str_eq x name) && contains s x)
unfolding set_remove
contains-set_remove s name x =
    let other : Text → Bool = λ n. not (str_eq n name) in
    any-retain (λ t. str_eq t x) other s ∙ any_same other s x

pub contains-set_to :
    (b : Builder) (k j : Kind) (s : List Text) (x : Text)
    → contains (set (set_to b k s) j) x
      ≡ (if kind_eq k j then contains s x else contains (set b j) x)
contains-set_to b k j s x = elim (Bool-cases (kind_eq k j)) [
  | inl e ↦ rw (set-set_to b k j s, e)
  | inr e ↦ rw (set-set_to b k j s, e)
]

-- a pattern taken from its set, in whatever set one looks
pub contains_removed :
    (b : Builder) (k j : Kind) (name x : Text)
    → contains (set (set_to b k (set_remove (set b k) name)) j) x
      ≡ (contains (set b j) x && not (kind_eq k j && str_eq x name))
contains_removed b k j name x = elim (Bool-cases (kind_eq k j)) [
  | inl e ↦
      let same : contains (set b k) x ≡ contains (set b j) x =
        ap (λ i. contains (set b i) x) (kind_eq-eq k j e) in
      ground (
        arith,
        contains-set_to b k j (set_remove (set b k) name) x,
        contains-set_remove (set b k) name x,
      )
  | inr e ↦ ground (arith, contains-set_to b k j (set_remove (set b k) name) x)
]

-- the loop adds no pattern
limit_sub :
    (s : Limited) (k j : Kind) (name x : Text)
    → contains (set (limit s k name).builder j) x ≡ true
    → contains (set s.builder j) x ≡ true
limit_sub s k j name x =
    limit-elim (λ t. contains (set t.builder j) x ≡ true → contains (set s.builder j) x ≡ true) s k
      name (λ h. h) (λ h. h) (λ h. ground (arith, contains_removed s.builder k j name x))

pub limit_all_sub :
    (s : Limited) (l : List (Kind × Text)) (j : Kind) (x : Text)
    → contains (set (limit_all s l).builder j) x ≡ true
    → contains (set s.builder j) x ≡ true
unfolding limit_all
limit_all_sub s [] j x h = h
limit_all_sub s ((k, name) ∷ l) j x h =
    limit_sub s k j name x (limit_all_sub (limit s k name) l j x h)

-- a pattern that has no room is gone
limit_dropped :
    (s : Limited) (k : Kind) (name : Text)
    → has_room s name ≡ false
    → contains (set (limit s k name).builder k) name ≡ false
limit_dropped s k name full = elim (Bool-cases (contains (set s.builder k) name)) [
  | inr e ↦ unfold limit in rw e e
  | inl e ↦
      unfold limit in
      rw (e, full) (ground (arith, contains_removed s.builder k k name name, str_eq_iff name name))
]

-- a pattern that is left at the end was kept
kept_self :
    (s : Limited) (k : Kind) (name : Text) (l : List (Kind × Text))
    → contains (set (limit_all (limit s k name) l).builder k) name ≡ true
    → (contains (set s.builder k) name && has_room s name) ≡ true
kept_self s k name l h =
    let h' = limit_all_sub (limit s k name) l k name h in
    ground (arith, limit_sub s k k name name h', limit_dropped s k name)

pub listed_kept :
    (s : Limited) (l : List (Kind × Text)) (j : Kind) (x : Text)
    → contains (set (limit_all s l).builder j) x ≡ true
    → listed l j x ≡ true
    → listed (kept_patterns s l) j x ≡ true
unfolding limit_all kept_patterns
listed_kept s [] j x h m = m
listed_kept s ((k, name) ∷ l) j x h m = elim (Bool-cases (kind_eq k j && str_eq name x)) [
  | inr other ↦ ground (arith, listed_kept (limit s k name) l j x h)
  | inl same ↦
      let b = (limit_all (limit s k name) l).builder in
      let h' : contains (set b k) name ≡ true =
        subst (λ n. contains (set b k) n ≡ true) (sym ((str_eq_iff name x).0 (ground arith)))
          (subst (λ i. contains (set b i) x ≡ true) (sym (kind_eq-eq k j (ground arith))) h) in
      rw (kept_self s k name l h') (ground arith)
]
