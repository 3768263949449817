-- ===== src/Filter/PatternSet.antt =====
-- `PatternSet` of core/crates/filter/src/wildcard.rs: patterns filed for lookup under their literal
-- heads and tails.
pub mod Filing
pub mod Tried
use tollgate.Common.{
  ℕ, suc, Bool, true, false, not, ◌&&◌, ◌||◌, Option, List, [], ◌∷◌, ◌++◌, leb, if◌then◌else◌,
  is_some_and, length, is_empty, get_elem?, any, Bytes, lower, parents,
}
use mathlib.Core.List.{reverse}
use tollgate.Filter.Wildcard.{Pattern, head, tail, glob_matches, matches}
use tollgate.Filter.Trie
use tollgate.Filter.Trie.{Trie, Entry, any_id}

pub record PatternSet : Type 0 where
  pub patterns : List Pattern
  pub heads : Trie
  pub tails : Trie
  pub unkeyed : List ℕ

-- the entries that the loop of `PatternSet::new` makes
pub record Filed : Type 0 where
  pub head_entries : List Entry
  pub tail_entries : List Entry
  pub unkeyed : List ℕ

-- one turn of the loop, for the pattern of that number
unfoldable pub file : ℕ → Pattern → Filed → Filed
unfolding head tail
file id p s =
    if not (is_empty (tail p.glob)) && leb (length (head p.glob)) (length (tail p.glob))
    then record s { tail_entries = s.tail_entries ++ (reverse (tail p.glob), id) ∷ [] }
    else if not (is_empty (head p.glob))
    then record s { head_entries = s.head_entries ++ (head p.glob, id) ∷ [] }
    else record s { unkeyed = s.unkeyed ++ id ∷ [] }

unfoldable pub file_all : ℕ → List Pattern → Filed → Filed
unfolding file
file_all id [] s = s
file_all id (p ∷ rest) s = file_all (suc id) rest (file id p s)

abbrev pub nothing_filed : Filed
nothing_filed = record { head_entries = []; tail_entries = []; unkeyed = [] }

unfoldable pub new : List Pattern → PatternSet
unfolding file_all Trie.new
new patterns =
    let filed = file_all 0 patterns nothing_filed in
    record {
      patterns = patterns;
      heads = Trie.new filed.head_entries;
      tails = Trie.new filed.tail_entries;
      unkeyed = filed.unkeyed;
    }

abbrev pub pattern_matches : PatternSet → Bytes → ℕ → Bool
pattern_matches s host id = is_some_and (get_elem? s.patterns id) (λ p. matches p host)

-- a pattern found under its head, for a name that is the host or not
abbrev pub head_matches : PatternSet → Bool → Bytes → ℕ → Bool
head_matches s is_host name id =
    is_some_and (get_elem? s.patterns id) (λ p. (is_host || p.parents) && glob_matches p.glob name)

abbrev pub head_found : PatternSet → Bool → Bytes → Bool
head_found s is_host name = any_id s.heads (lower name) (head_matches s is_host name)

-- `PatternSet::matches`
unfoldable pub matches_any : PatternSet → Bytes → Bool
unfolding any_id lower parents matches glob_matches
matches_any s host =
    any_id s.tails (lower (reverse host)) (pattern_matches s host)
    || not (is_empty s.heads.root)
      && (head_found s true host || any (head_found s false) (parents host))
    || any (pattern_matches s host) s.unkeyed
