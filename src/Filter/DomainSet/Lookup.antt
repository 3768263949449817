-- ===== src/Filter/DomainSet/Lookup.antt =====
-- `DomainSet::contains` and `DomainSet::is_blocked` of core/crates/filter/src/domain_set.rs.
use tollgate.Common.{
  ℕ, zero, suc, Bool, true, false, not, ◌&&◌, ◌||◌, none, some, List, [], ◌∷◌, leb, if◌then◌else◌,
  is_some, is_empty, any, Bytes, split_once, strip_dot,
}
use tollgate.Common.BinarySearch.{binary_search}
use tollgate.Filter.PatternSet.{matches_any}
use tollgate.Filter.DomainSet.{Range, DomainSet}
use tollgate.Filter.DomainSet.Hash.{fnv1a64, exact_hash}
use tollgate.Filter.DomainSet.Load.{hashes, in_range}

-- `DomainSet::contains`
unfoldable pub contains_hash : DomainSet → Range → ℕ → Bool
unfolding hashes binary_search
contains_hash set range hash = is_some (binary_search (in_range (hashes set) range) hash)

abbrev pub is_empty_range : Range → Bool
is_empty_range range = leb range.end range.from

-- the closure `covered`
abbrev pub covered : DomainSet → List ℕ → Range → Bool
covered set found range =
    not (is_empty_range range) && any (λ hash. contains_hash set range hash) found

-- the closure `exactly`
abbrev pub exactly : DomainSet → ℕ → Range → Bool
exactly set exact range = not (is_empty_range range) && contains_hash set range exact

-- the host and each parent that still has a dot, at most so many
unfoldable pub dotted_names : ℕ → Bytes → List Bytes
unfolding split_once
dotted_names zero rest = []
dotted_names (suc n) rest = elim (split_once b'.' rest).1 [
  | none ↦ []
  | some parent ↦ rest ∷ dotted_names n parent
]

abbrev pub max_names : ℕ
max_names = 127

unfoldable pub name_hashes : List Bytes → List ℕ
unfolding fnv1a64
name_hashes [] = []
name_hashes (name ∷ names) = fnv1a64 name ∷ name_hashes names

-- the rule kinds in their order, for a host without its final dot
unfoldable pub decide : DomainSet → List ℕ → Bytes → Bool
unfolding contains_hash exact_hash matches_any
decide set found host =
    if is_empty found
    then false
    else if covered set found set.important
    then true
    else if exactly set (exact_hash host) set.allow || covered set found set.allow
    then false
    else (exactly set (exact_hash host) set.block
        || covered set found set.block
        || matches_any set.wildcard_block host)
      && not (matches_any set.wildcard_allow host)

-- `DomainSet::is_blocked`
unfoldable pub is_blocked : DomainSet → Bytes → Bool
unfolding decide name_hashes dotted_names
is_blocked set host =
    decide set (name_hashes (dotted_names max_names (strip_dot host))) (strip_dot host)
