-- ===== src/Filter/DomainSet/Listed.antt =====
-- What rules say of the hashes of a host, and what a search of their sections finds
-- (core/crates/filter/src/domain_set.rs).
use tollgate.Common.{
  ℕ, ◌-◌, ◌≡◌, refl, ◌∙◌, sym, ap, Bool, true, false, not, ◌&&◌, ◌||◌, List, [], ◌∷◌, arith, ◌==◌,
  is_some, is_empty, take, drop, any, Bool-cases, inl, inr, Bytes,
}
use tollgate.Common.BinarySearch.{binary_search, binary_search-any}
use tollgate.Filter.Wildcard.{matches}
use tollgate.Filter.Rules.Limits.{DomainRules}
use tollgate.Filter.DomainSet.{Range, DomainSet}
use tollgate.Filter.DomainSet.Hash.{fnv1a64, exact_hash}
use tollgate.Filter.DomainSet.Encode.{sorted_hashes}
use tollgate.Filter.DomainSet.Load.{hashes, in_range}
use tollgate.Filter.DomainSet.Lookup.{contains_hash, is_empty_range, covered, exactly}
use tollgate.Filter.DomainSet.Rising.{sorted_hashes-Rises, any-sorted_hashes}
use tollgate.Filter.DomainSet.Patterns.{pattern_of}

-- whether a hash is that of a listed name, or that of a name listed for one host only
abbrev pub listed_hash : List Bytes → List Bytes → ℕ → Bool
listed_hash names exact hash =
    any (λ n. fnv1a64 n == hash) names || any (λ n. exact_hash n == hash) exact

-- whether rules of names cover a host that has these hashes as a name
abbrev pub names_cover : List Bytes → List Bytes → List ℕ → Bytes → Bool
names_cover names exact found host =
    listed_hash names exact (exact_hash host) || any (listed_hash names exact) found

-- whether rules with a `*` cover a host
abbrev pub patterns_cover : List Bytes → List Bytes → Bytes → Bool
patterns_cover parents only host =
    any (λ p. matches (pattern_of true p) host) parents
    || any (λ p. matches (pattern_of false p) host) only

-- What the rules say of a host without a final dot, given the hashes of it and of its parents that
-- have a dot: an important block covers it, or a block does and no exception.
abbrev pub rules_block : DomainRules → List ℕ → Bytes → Bool
rules_block r found host =
    not (is_empty found)
    && (any (listed_hash r.important []) found
        || not (names_cover r.allow r.exact_allow found host)
          && not (patterns_cover r.wildcard_allow r.exact_wildcard_allow host)
          && (names_cover r.block r.exact_block found host
              || patterns_cover r.wildcard_block r.exact_wildcard_block host))

module _ (set : DomainSet) (range : Range) (names exact : List Bytes)
    (section : in_range (hashes set) range ≡ sorted_hashes names exact) where
  contains_hash-listed : (hash : ℕ) → contains_hash set range hash ≡ listed_hash names exact hash
  unfolding contains_hash
  contains_hash-listed hash =
      ap (λ l. is_some (binary_search l hash)) section
      ∙ (binary_search-any (sorted_hashes names exact) hash (sorted_hashes-Rises names exact)
          ∙ any-sorted_hashes names exact hash)

  empty_range : is_empty_range range ≡ true → (hash : ℕ) → contains_hash set range hash ≡ false
  unfolding contains_hash
  empty_range h hash =
      let nothing : range.end - range.from ≡ 0 = ground arith in
      ap (λ n. is_some (binary_search (take n (drop range.from (hashes set))) hash)) nothing
      ∙ unfold binary_search in refl

  -- an empty range contains nothing, so the test for it changes nothing
  pub not_empty_and : (hash : ℕ) → exactly set hash range ≡ listed_hash names exact hash
  not_empty_and hash = elim (Bool-cases (is_empty_range range)) [
    | inl e ↦ rw e (sym (empty_range e hash) ∙ contains_hash-listed hash)
    | inr e ↦ rw e (contains_hash-listed hash)
  ]

  any_listed :
      (found : List ℕ)
      → any (λ hash. contains_hash set range hash) found ≡ any (listed_hash names exact) found
  any_listed [] = refl
  any_listed (hash ∷ found) = ground (arith, contains_hash-listed hash, any_listed found)

  none_contained :
      is_empty_range range ≡ true
      → (found : List ℕ) → any (λ hash. contains_hash set range hash) found ≡ false
  none_contained e [] = refl
  none_contained e (hash ∷ found) = ground (arith, empty_range e hash, none_contained e found)

  pub covered-listed :
      (found : List ℕ) → covered set found range ≡ any (listed_hash names exact) found
  covered-listed found = elim (Bool-cases (is_empty_range range)) [
    | inl e ↦ rw e (sym (none_contained e found) ∙ any_listed found)
    | inr e ↦ rw e (any_listed found)
  ]
