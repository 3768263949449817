-- ===== src/Filter/Rules/Children.antt =====
-- Looking up a host and its parents in the names without redundant children, of
-- core/crates/filter/src/domain_rules.rs.
use tollgate.Common.{
  ◌≡◌, refl, ◌∙◌, Bool, not, ◌&&◌, List, [], ◌∷◌, arith, any, any-retain, retain, Text, contains,
  parents, str_eq, str_eq_iff,
}
use tollgate.Common.Sorting.{bytes_le, any-sort}
use tollgate.Filter.Rules.Limits.{without_redundant_children}

-- only one member can be the name that is looked up
pub any_same :
    (p : Text → Bool) (names : List Text) (s : Text)
    → any (λ t. p t && str_eq t s) names ≡ (p s && contains names s)
any_same p [] s = ground arith
any_same p (t ∷ names) s = ground (arith, str_eq_iff t s, any_same p names s)

contains-without_redundant_children :
    (names : List Text) (s : Text)
    → contains (without_redundant_children names) s
      ≡ (not (any (contains names) (parents s)) && contains names s)
unfolding without_redundant_children
contains-without_redundant_children names s =
    let p : Text → Bool = λ name. not (any (contains names) (parents name)) in
    any-sort (λ t. str_eq t s) bytes_le (retain p names)
    ∙ (any-retain (λ t. str_eq t s) p names ∙ any_same p names s)

any-parents-without_redundant_children :
    (names : List Text) (host : Text)
    → any (contains (without_redundant_children names)) (parents host)
      ≡ any (contains names) (parents host)
unfolding parents
any-parents-without_redundant_children names [] = refl
any-parents-without_redundant_children names (c ∷ s) = ground (
  arith,
  any-parents-without_redundant_children names s,
  contains-without_redundant_children names s,
)

-- A host or one of its parents is among the names without redundant children exactly when it is among
-- all the names: what is left out changes no lookup.
pub without_redundant_children-lookup :
    (names : List Text) (host : Text)
    → any (contains (without_redundant_children names)) (host ∷ parents host)
      ≡ any (contains names) (host ∷ parents host)
without_redundant_children-lookup names host = ground (
  arith,
  any-parents-without_redundant_children names host,
  contains-without_redundant_children names host,
)
