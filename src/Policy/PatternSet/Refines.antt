-- ===== src/Policy/PatternSet/Refines.antt =====
-- The hash lookups of `PatternSet` (core/crates/policy/src/policy.rs) against trying every pattern.
use tollgate.Common.{
  ◌≡◌, refl, Bool, false, ◌&&◌, ◌||◌, none, List, [], ◌∷◌, arith, any, any-append, All, Bytes,
  lower, parents, contains, str_eq, str_eq_iff, strip_dot, ◌∙◌,
}
use tollgate.Policy.Pattern
use tollgate.Policy.Pattern.{HostPattern}
use tollgate.Policy.Pattern.Matching.{host_key, matches-eq}
use tollgate.Policy.PatternSet.{
  PatternSet, set_insert, add, add_all, new, empty, matches, strip_brackets, lookup_key,
}

pub contains-set_insert :
    (l : List Bytes) (s t : Bytes) → contains (set_insert l s) t ≡ (contains l t || str_eq s t)
unfolding set_insert
contains-set_insert l s t = ground (arith, any-append (λ u. str_eq u t) l (s ∷ []), str_eq_iff s t)

-- what the lookups say of a key, written without the shortcuts
abbrev hits : PatternSet → Bytes → Bool
hits set key = contains set.exact key || any (contains set.suffix) (key ∷ parents key)

pub any-contains_nil : (l : List Bytes) → any (contains []) l ≡ false
any-contains_nil [] = refl
any-contains_nil (s ∷ l) = any-contains_nil l

matches-eq-hits : (set : PatternSet) (key : Bytes) → matches set key ≡ hits set key
unfolding matches
matches-eq-hits set key = ground (arith, any-contains_nil (parents key), set.suffix)

pub any-contains-set_insert :
    (l : List Bytes) (n : Bytes) (keys : List Bytes)
    → any (contains (set_insert l n)) keys ≡ (any (contains l) keys || contains keys n)
any-contains-set_insert l n [] = refl
any-contains-set_insert l n (k ∷ keys) = ground (
  arith,
  contains-set_insert l n k,
  any-contains-set_insert l n keys,
  str_eq_iff n k,
  str_eq_iff k n,
)

-- what one pattern in lower case says of a key
abbrev says : HostPattern → Bytes → Bool
says p key = str_eq key p.name || p.wildcard && contains (parents key) p.name

hits-add :
    (set : PatternSet) (p : HostPattern) (key : Bytes)
    → hits (add set p) key ≡ (hits set key || says p key)
unfolding add
hits-add set p key = ground (
  arith,
  contains-set_insert set.exact p.name key,
  any-contains-set_insert set.suffix p.name (key ∷ parents key),
  str_eq_iff key p.name,
  str_eq_iff p.name key,
)

hits-add_all :
    (ps : List HostPattern) (set : PatternSet) (key : Bytes)
    → hits (add_all set ps) key ≡ (hits set key || any (λ p. says p key) ps)
unfolding add_all
hits-add_all [] set key = ground arith
hits-add_all (p ∷ ps) set key = ground (arith, hits-add_all ps (add set p) key, hits-add set p key)

hits-empty : (key : Bytes) → hits empty key ≡ false
hits-empty key = ground (arith, any-contains_nil (parents key))

says-eq-matches :
    (ps : List HostPattern) (given : Bytes)
    → All (λ p. lower p.name ≡ p.name) ps
    → any (λ p. says p (host_key given)) ps ≡ any (λ p. Pattern.matches p given) ps
says-eq-matches [] given h = refl
says-eq-matches (p ∷ ps) given h = ground (arith, matches-eq p given, says-eq-matches ps given)

lookup_key_plain :
    (given : Bytes) → strip_brackets (strip_dot given) ≡ none → lookup_key given ≡ host_key given
unfolding lookup_key
lookup_key_plain given h = rw h

-- For patterns in lower case and a host that is not in brackets, the two hash sets hold the host's
-- lookup key, or for `*.` patterns one of its parents, exactly when some pattern matches the host.
pub matches-new :
    (ps : List HostPattern) (given : Bytes)
    → All (λ p. lower p.name ≡ p.name) ps
    → strip_brackets (strip_dot given) ≡ none
    → matches (new ps) (lookup_key given) ≡ any (λ p. Pattern.matches p given) ps
unfolding new
matches-new ps given low plain = rw (lookup_key_plain given plain) (
    matches-eq-hits (add_all empty ps) (host_key given)
    ∙ hits-add_all ps empty (host_key given)
    ∙ ground (arith, hits-empty (host_key given), says-eq-matches ps given low))
