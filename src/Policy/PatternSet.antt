-- ===== src/Policy/PatternSet.antt =====
-- `PatternSet` and `lookup_key` of core/crates/policy/src/policy.rs: patterns looked up by hash.
-- A `HashSet` is the list of its members.
pub mod Refines
use tollgate.Common.{
  Bool, true, false, Option, none, some, List, [], ◌∷◌, ◌++◌, if◌then◌else◌, is_empty, any, Bytes,
  contains, lower, strip_prefix, strip_suffix, strip_dot, parents, unwrap_or,
}
use tollgate.Policy.Pattern.{HostPattern}

-- `HashSet::insert`
unfoldable pub set_insert : List Bytes → Bytes → List Bytes
set_insert l s = if contains l s then l else l ++ s ∷ []

pub record PatternSet : Type 0 where
  pub exact : List Bytes
  pub suffix : List Bytes

abbrev pub empty : PatternSet
empty = record { exact = []; suffix = [] }

unfoldable pub add : PatternSet → HostPattern → PatternSet
add set p =
    if p.wildcard
    then record set { suffix = set_insert set.suffix p.name }
    else record set { exact = set_insert set.exact p.name }

-- the loop of `PatternSet::new`
unfoldable pub add_all : PatternSet → List HostPattern → PatternSet
add_all set [] = set
add_all set (p ∷ rest) = add_all (add set p) rest

unfoldable pub new : List HostPattern → PatternSet
unfolding add_all
new patterns = add_all empty patterns

unfoldable pub matches : PatternSet → Bytes → Bool
matches set key =
    if contains set.exact key
    then true
    else if is_empty set.suffix
    then false
    else any (contains set.suffix) (key ∷ parents key)

-- `host.strip_prefix('[').and_then(|h| h.strip_suffix(']'))`
unfoldable pub strip_brackets : Bytes → Option Bytes
strip_brackets host = elim (strip_prefix b'[' host) [ none ↦ none | some h ↦ strip_suffix b']' h ]

unfoldable pub lookup_key : Bytes → Bytes
lookup_key given = let host = strip_dot given in lower (unwrap_or (strip_brackets host) host)
