-- ===== src/Filter/Exempt.antt =====
-- The hosts that the blocks of a list leave alone, of core/crates/filter/src/exempt.rs. Patterns and
-- names are lists of bytes.
pub mod Covers
pub mod Under
pub mod Hosts
use tollgate.Common.{
  ℕ, ◌-◌, Bool, true, false, ◌&&◌, ◌||◌, Option, none, some, List, [], ◌∷◌, ◌==◌, leb,
  if◌then◌else◌, length, is_empty, any, contains, drop, Bytes, str_eq, lower, strip_dot, parents,
  trim, strip_prefix,
}
use tollgate.Policy.PatternSet.{set_insert}
use tollgate.Filter.Wildcard.{glob_matches, tail}

pub record Exemption : Type 0 where
  pub domains : List Bytes
  pub hosts : List Bytes
  pub ancestors : List Bytes

abbrev pub no_exemption : Exemption
no_exemption = record { domains = []; hosts = []; ancestors = [] }

-- the name of a pattern that starts with `*.`
abbrev pub without_star : Option Bytes → Option Bytes
without_star none = none
without_star (some rest) = strip_prefix b'.' rest

abbrev pub domain_and_name : Bytes → Bool × Bytes
domain_and_name pattern = elim (without_star (strip_prefix b'*' pattern)) [
  | none ↦ (false, lower (strip_dot pattern))
  | some name ↦ (true, lower (strip_dot name))
]

abbrev pub insert_all : List Bytes → List Bytes → List Bytes
insert_all set [] = set
insert_all set (name ∷ names) = insert_all (set_insert set name) names

-- a pattern whose name is not empty
unfoldable pub add_name : Exemption → Bool → Bytes → Exemption
add_name e domain name =
    let ancestors = insert_all e.ancestors (parents name) in
    if domain
    then record e { ancestors = ancestors; domains = set_insert e.domains name }
    else record e { ancestors = ancestors; hosts = set_insert e.hosts name }

-- one turn of the loop of `Exemption::new`
unfoldable pub add : Exemption → Bytes → Exemption
unfolding add_name
add e pattern =
    let (domain, name) = domain_and_name (trim pattern) in
    if is_empty name then e else add_name e domain name

unfoldable pub add_all : Exemption → List Bytes → Exemption
unfolding add
add_all e [] = e
add_all e (p ∷ patterns) = add_all (add e p) patterns

unfoldable pub new : List Bytes → Exemption
unfolding add_all
new patterns = add_all no_exemption patterns

unfoldable pub covers_host : Exemption → Bytes → Bool
covers_host e name = contains e.hosts name || any (contains e.domains) (name ∷ parents name)

unfoldable pub covers : Exemption → Bytes → Bool
unfolding covers_host
covers e host = covers_host e (lower (strip_dot host))

unfoldable pub covers_subtree : Exemption → Bytes → Bool
unfolding covers_host
covers_subtree e name = covers_host e name || contains e.ancestors name

-- `[u8]::ends_with`
abbrev pub ends_with : Bytes → Bytes → Bool
ends_with s t = leb (length t) (length s) && str_eq (drop (length s - length t) s) t

unfoldable pub matches_some_name_under : Bytes → Bytes → Bool
unfolding tail
matches_some_name_under glob name =
    let dotted = b'.' ∷ name in
    if any (λ b. b == b'*') glob
    then ends_with dotted (tail glob) || ends_with (tail glob) dotted
    else ends_with glob dotted

abbrev pub matches_above : Bytes → Bool → Bytes → Bool
matches_above glob above name = above && any (glob_matches glob) (parents name)

unfoldable pub covers_pattern : Exemption → Bytes → Bool → Bool
unfolding glob_matches matches_some_name_under
covers_pattern e glob above =
    any
      (λ name.
        glob_matches glob name
        || (matches_some_name_under glob name || matches_above glob above name))
      e.domains
    || any (λ name. glob_matches glob name || matches_above glob above name) e.hosts
