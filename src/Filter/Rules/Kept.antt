-- ===== src/Filter/Rules/Kept.antt =====
-- What the sets of `Builder` (core/crates/filter/src/domain_rules.rs) hold, and so the rules.
use tollgate.Common.{
  Option, ℕ, ◌+◌, ◌&&◌, ◌||◌, ltb, ◌≡◌, refl, true, not, List, [], ◌∷◌, Text, All, All-append,
  All-retain, retain, Bool-cases, inl, inr, contains, any, parents, str_eq, if◌then◌else◌, arith,
  subst,
}
use tollgate.Common.Sorting.{bytes_le, All-sort}
use tollgate.Policy.PatternSet.{set_insert}
use tollgate.Filter.Wildcard.{is_unkeyed}
use tollgate.Filter.Exempt.{Exemption}
use tollgate.Filter.Rules.Lines.{
  Kind, important, allow, block, exact_allow, exact_block, wildcard_allow, exact_wildcard_allow,
  wildcard_block, exact_wildcard_block,
}
use tollgate.Filter.Rules.Builder.{Builder, set, set_to, insert, kind_eq}
use tollgate.Filter.Rules.Limits.{
  DomainRules, max_wildcard_patterns, max_unkeyed_patterns, one_if, set_remove, Limited, limit,
  limit_all, in_order, unlimited, limit_patterns, cancel, sorted, without_redundant_children,
  finish,
}

pub set-set_to :
    (b : Builder) (k j : Kind) (s : List Text)
    → set (set_to b k s) j ≡ (if kind_eq k j then s else set b j)
set-set_to b important important s = refl
set-set_to b allow allow s = refl
set-set_to b block block s = refl
set-set_to b exact_allow exact_allow s = refl
set-set_to b exact_block exact_block s = refl
set-set_to b wildcard_allow wildcard_allow s = refl
set-set_to b exact_wildcard_allow exact_wildcard_allow s = refl
set-set_to b wildcard_block wildcard_block s = refl
set-set_to b exact_wildcard_block exact_wildcard_block s = refl
set-set_to b _ _ s = refl

pub kind_eq-eq : (k j : Kind) → kind_eq k j ≡ true → k ≡ j
kind_eq-eq important important h = refl
kind_eq-eq allow allow h = refl
kind_eq-eq block block h = refl
kind_eq-eq exact_allow exact_allow h = refl
kind_eq-eq exact_block exact_block h = refl
kind_eq-eq wildcard_allow wildcard_allow h = refl
kind_eq-eq exact_wildcard_allow exact_wildcard_allow h = refl
kind_eq-eq wildcard_block wildcard_block h = refl
kind_eq-eq exact_wildcard_block exact_wildcard_block h = refl
kind_eq-eq _ _ h = ground arith

-- the fields that are no sets
abbrev pub with_others :
    Builder → Option Exemption → List (Kind × Text) → List (Kind × Text) → ℕ → ℕ → Builder
with_others b e f o s x = record b {
  exempt = e;
  badfilter = f;
  pattern_order = o;
  skipped = s;
  exempted = x;
}

pub set-with_others :
    (b : Builder) (e : Option Exemption) (f o : List (Kind × Text)) (s x : ℕ) (k : Kind)
    → set (with_others b e f o s x) k ≡ set b k
set-with_others b e f o s x important = refl
set-with_others b e f o s x allow = refl
set-with_others b e f o s x block = refl
set-with_others b e f o s x exact_allow = refl
set-with_others b e f o s x exact_block = refl
set-with_others b e f o s x wildcard_allow = refl
set-with_others b e f o s x exact_wildcard_allow = refl
set-with_others b e f o s x wildcard_block = refl
set-with_others b e f o s x exact_wildcard_block = refl

pub exempt-set_to : (b : Builder) (k : Kind) (s : List Text) → (set_to b k s).exempt ≡ b.exempt
exempt-set_to b important s = refl
exempt-set_to b allow s = refl
exempt-set_to b block s = refl
exempt-set_to b exact_allow s = refl
exempt-set_to b exact_block s = refl
exempt-set_to b wildcard_allow s = refl
exempt-set_to b exact_wildcard_allow s = refl
exempt-set_to b wildcard_block s = refl
exempt-set_to b exact_wildcard_block s = refl

pub pattern_order-set_to :
    (b : Builder) (k : Kind) (s : List Text) → (set_to b k s).pattern_order ≡ b.pattern_order
pattern_order-set_to b important s = refl
pattern_order-set_to b allow s = refl
pattern_order-set_to b block s = refl
pattern_order-set_to b exact_allow s = refl
pattern_order-set_to b exact_block s = refl
pattern_order-set_to b wildcard_allow s = refl
pattern_order-set_to b exact_wildcard_allow s = refl
pattern_order-set_to b wildcard_block s = refl
pattern_order-set_to b exact_wildcard_block s = refl

-- what holds of every way through a turn holds of the turn
pub limit-elim :
    (Q : Limited → Type 0) (s : Limited) (k : Kind) (name : Text)
    → Q s
    → Q (record s { kept = s.kept + 1; kept_unkeyed = s.kept_unkeyed + one_if (is_unkeyed name) })
    → Q (record s {
      builder = set_to s.builder k (set_remove (set s.builder k) name);
      left_out = s.left_out + 1;
    })
    → Q (limit s k name)
unfolding limit
limit-elim Q s k name gone kept dropped = elim (Bool-cases (contains (set s.builder k) name)) [
  | inr e ↦ rw e gone
  | inl e ↦
      rw e
        (elim (Bool-cases (
          ltb s.kept max_wildcard_patterns
          && (not (is_unkeyed name) || ltb s.kept_unkeyed max_unkeyed_patterns))) [
            | inl room ↦ rw room kept
            | inr full ↦ rw full dropped
          ])
]

module _ (P : Kind → Text → Type 0) where
  -- Every member of a set of `b` is as `P` says for its kind.
  abbrev pub Holds : Builder → Type 0
  Holds b = (k : Kind) → All (P k) (set b k)

  pub set_to-Holds :
      (b : Builder) (k : Kind) (s : List Text) → Holds b → All (P k) s → Holds (set_to b k s)
  set_to-Holds b k s h new j = elim (Bool-cases (kind_eq k j)) [
    | inl e ↦ rw (set-set_to b k j s, e) (subst (λ i. All (P i) s) (kind_eq-eq k j e) new)
    | inr e ↦ rw (set-set_to b k j s, e) (h j)
  ]

  All-set_insert :
      (k : Kind) (l : List Text) (name : Text)
      → All (P k) l
      → P k name
      → All (P k) (set_insert l name)
  unfolding set_insert
  All-set_insert k l name h p = elim (Bool-cases (contains l name)) [
    | inl e ↦ rw e h
    | inr e ↦ rw e (All-append (P k) l (name ∷ []) h (p, tt))
  ]

  pub insert-Holds :
      (b : Builder) (k : Kind) (name : Text) → Holds b → P k name → Holds (insert b k name)
  insert-Holds b k name h p =
      set_to-Holds b k (set_insert (set b k) name) h (All-set_insert k (set b k) name (h k) p)

  -- the other fields hold no names of the sets
  pub with_others-Holds :
      (b : Builder) (e : Option Exemption) (f o : List (Kind × Text)) (s x : ℕ)
      → Holds b
      → Holds (with_others b e f o s x)
  with_others-Holds b e f o s x h k = rw (set-with_others b e f o s x k) (h k)

  set_remove-Holds :
      (b : Builder) (k : Kind) (name : Text)
      → Holds b
      → Holds (set_to b k (set_remove (set b k) name))
  unfolding set_remove
  set_remove-Holds b k name h =
      set_to-Holds b k (retain (λ n. not (str_eq n name)) (set b k)) h
        (All-retain (P k) (λ n. not (str_eq n name)) (set b k) (h k))

  cancel-Holds : (b : Builder) (l : List (Kind × Text)) → Holds b → Holds (cancel b l)
  unfolding cancel
  cancel-Holds b [] h = h
  cancel-Holds b ((kind, name) ∷ l) h =
      cancel-Holds (set_to b kind (set_remove (set b kind) name)) l (set_remove-Holds b kind name h)

  limit-Holds :
      (s : Limited) (k : Kind) (name : Text) → Holds s.builder → Holds (limit s k name).builder
  limit-Holds s k name h =
      limit-elim (λ t. Holds t.builder) s k name h h (set_remove-Holds s.builder k name h)

  limit_all-Holds :
      (s : Limited) (l : List (Kind × Text)) → Holds s.builder → Holds (limit_all s l).builder
  unfolding limit_all
  limit_all-Holds s [] h = h
  limit_all-Holds s ((kind, name) ∷ l) h =
      limit_all-Holds (limit s kind name) l (limit-Holds s kind name h)

  limit_patterns-Holds : (b : Builder) → Holds b → Holds (limit_patterns b)
  unfolding limit_patterns
  limit_patterns-Holds b h =
      let s = limit_all (unlimited b) (in_order b.pattern_order) in
      let kept =
        limit_all-Holds (unlimited b) (in_order b.pattern_order)
          (with_others-Holds b b.exempt b.badfilter [] b.skipped b.exempted h) in
      let b' = s.builder in
      with_others-Holds b' b'.exempt b'.badfilter b'.pattern_order (b'.skipped + s.left_out)
        b'.exempted kept

  sorted-All : (k : Kind) (l : List Text) → All (P k) l → All (P k) (sorted l)
  unfolding sorted
  sorted-All k l h = All-sort (P k) bytes_le l h

  without_redundant_children-All :
      (k : Kind) (l : List Text) → All (P k) l → All (P k) (without_redundant_children l)
  unfolding without_redundant_children
  without_redundant_children-All k l h =
      All-sort (P k) bytes_le (retain (λ name. not (any (contains l) (parents name))) l)
        (All-retain (P k) (λ name. not (any (contains l) (parents name))) l h)

  -- Every name and every pattern of the rules is as `P` says for its kind.
  pub record RulesHold (r : DomainRules) : Type 0 where
    pub important_names : All (P important) r.important
    pub allow_names : All (P allow) r.allow
    pub block_names : All (P block) r.block
    pub exact_allow_names : All (P exact_allow) r.exact_allow
    pub exact_block_names : All (P exact_block) r.exact_block
    pub wildcard_allow_names : All (P wildcard_allow) r.wildcard_allow
    pub exact_wildcard_allow_names : All (P exact_wildcard_allow) r.exact_wildcard_allow
    pub wildcard_block_names : All (P wildcard_block) r.wildcard_block
    pub exact_wildcard_block_names : All (P exact_wildcard_block) r.exact_wildcard_block

  pub finish-RulesHold : (b : Builder) → Holds b → RulesHold (finish b)
  unfolding finish
  finish-RulesHold b h =
      let cancelled = cancel (record b { badfilter = [] }) b.badfilter in
      let h' = limit_patterns-Holds cancelled (
        cancel-Holds (record b { badfilter = [] }) b.badfilter
          (with_others-Holds b b.exempt [] b.pattern_order b.skipped b.exempted h)) in
      record {
        important_names = without_redundant_children-All important _ (h' important);
        allow_names = without_redundant_children-All allow _ (h' allow);
        block_names = without_redundant_children-All block _ (h' block);
        exact_allow_names = sorted-All exact_allow _ (h' exact_allow);
        exact_block_names = sorted-All exact_block _ (h' exact_block);
        wildcard_allow_names = sorted-All wildcard_allow _ (h' wildcard_allow);
        exact_wildcard_allow_names = sorted-All exact_wildcard_allow _ (h' exact_wildcard_allow);
        wildcard_block_names = sorted-All wildcard_block _ (h' wildcard_block);
        exact_wildcard_block_names = sorted-All exact_wildcard_block _ (h' exact_wildcard_block);
      }
