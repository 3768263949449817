-- ===== src/Filter/PatternSet/Tried.antt =====
-- `PatternSet::matches` against trying every pattern (core/crates/filter/src/wildcard.rs).
use tollgate.Common.{
  ℕ, ◌+◌, ◌≡◌, refl, ◌∙◌, sym, ap, Bool, true, false, not, ◌&&◌, ◌||◌, Option, none, some, List, [],
  ◌∷◌, arith, is_some_and, is_empty, get_elem?, any, All, Bytes, lower, parents,
}
use mathlib.Core.List.{reverse}
use tollgate.Filter.Wildcard.{Pattern, head, glob_matches, matches}
use tollgate.Filter.Wildcard.Ends.{is_prefix, matches-tail, glob_matches-head}
use tollgate.Filter.Trie
use tollgate.Filter.Trie.{Entry, any_id}
use tollgate.Filter.Trie.Table.{IsKey}
use tollgate.Filter.Trie.Lookup.{any_id-new, root-new}
use tollgate.Filter.PatternSet.{
  PatternSet, file_all, nothing_filed, new, pattern_matches, head_matches, head_found, matches_any,
}
use tollgate.Filter.PatternSet.Filing.{
  AllBytes, IsFiled, tail_key, file_all-any, any_from-any, file_all-AllFiled,
}

-- a Boolean that holds only where another does
implied : (a b : Bool) → (b ≡ true → a ≡ true) → (a && b) ≡ b
implied true b h = refl
implied false true h = h refl
implied false false h = refl

any-ext : (f g : Entry → Bool) (es : List Entry) → All (λ e. f e ≡ g e) es → any f es ≡ any g es
any-ext f g [] h = refl
any-ext f g (e ∷ es) h = ground (arith, h.0, any-ext f g es h.1)

any-and : (b : Bool) (g : Bytes → Bool) (l : List Bytes) → any (λ n. b && g n) l ≡ (b && any g l)
any-and b g [] = ground arith
any-and b g (n ∷ l) = ground (arith, any-and b g l)

any_never : (l : List Bytes) → any (λ _. false) l ≡ false
any_never [] = refl
any_never (n ∷ l) = any_never l

any-or : (f g : Entry → Bool) (es : List Entry) → (any f es || any g es) ≡ any (λ e. f e || g e) es
any-or f g [] = refl
any-or f g (e ∷ es) = ground (arith, any-or f g es)

any-swap :
    (f : Bytes → Entry → Bool) (names : List Bytes) (es : List Entry)
    → any (λ n. any (f n) es) names ≡ any (λ e. any (λ n. f n e) names) es
any-swap f [] es = sym (never es)
  where
    never : (l : List Entry) → any (λ _. false) l ≡ false
    never [] = refl
    never (e ∷ l) = never l
any-swap f (n ∷ names) es =
    ap (λ b. any (f n) es || b) (any-swap f names es)
    ∙ any-or (f n) (λ e. any (λ m. f m e) names) es

keys-of :
    (key_of : Bytes → Bytes) (all : List Pattern) (es : List Entry)
    → All (IsFiled key_of all) es
    → All IsKey es
keys-of key_of all [] h = tt
keys-of key_of all (e ∷ es) h = ((h.0.not_empty, h.0.is_bytes), keys-of key_of all es h.1)

module _ (s : PatternSet) (host : Bytes) where
  -- the key of an entry starts the text wherever its pattern matches
  tail_entry :
      (e : Entry)
      → IsFiled tail_key s.patterns e
      → (is_prefix e.0 (lower (reverse host)) && pattern_matches s host e.1)
        ≡ pattern_matches s host e.1
  tail_entry e h = implied (is_prefix e.0 (lower (reverse host))) (pattern_matches s host e.1) λ m.
      ap (λ k. is_prefix k (lower (reverse host))) h.key
      ∙ matches-tail h.pattern host
          (sym (ap (λ o. is_some_and o (λ p. matches p host)) h.there) ∙ m)

  tail_entries :
      (es : List Entry)
      → All (IsFiled tail_key s.patterns) es
      → All
          (λ e.
            (is_prefix e.0 (lower (reverse host)) && pattern_matches s host e.1)
            ≡ pattern_matches s host e.1)
          es
  tail_entries [] h = tt
  tail_entries (e ∷ es) h = (tail_entry e h.0, tail_entries es h.1)

  -- the host and its parents, for one pattern
  head_names :
      (id : ℕ)
      → (head_matches s true host id || any (λ name. head_matches s false name id) (parents host))
        ≡ pattern_matches s host id
  unfolding matches
  head_names id = go (get_elem? s.patterns id)
    where
      go :
          (o : Option Pattern)
          → (is_some_and o (λ p. (true || p.parents) && glob_matches p.glob host)
              || any
                  (λ name. is_some_and o (λ p. (false || p.parents) && glob_matches p.glob name))
                  (parents host))
            ≡ is_some_and o (λ p. matches p host)
      go none = any_never (parents host)
      go (some p) =
          ap (λ b. glob_matches p.glob host || b)
            (any-and p.parents (glob_matches p.glob) (parents host))

  module _ (is_host : Bool) (name : Bytes) where
    head_entry :
        (e : Entry)
        → IsFiled head s.patterns e
        → (is_prefix e.0 (lower name) && head_matches s is_host name e.1)
          ≡ head_matches s is_host name e.1
    head_entry e h = implied (is_prefix e.0 (lower name)) (head_matches s is_host name e.1) λ m.
        let found : ((is_host || h.pattern.parents) && glob_matches h.pattern.glob name) ≡ true =
          sym (
            ap (λ o. is_some_and o (λ p. (is_host || p.parents) && glob_matches p.glob name))
              h.there)
          ∙ m in
        ap (λ k. is_prefix k (lower name)) h.key
        ∙ glob_matches-head h.pattern.glob name (ground arith)

    head_entries :
        (es : List Entry)
        → All (IsFiled head s.patterns) es
        → All
            (λ e.
              (is_prefix e.0 (lower name) && head_matches s is_host name e.1)
              ≡ head_matches s is_host name e.1)
            es
    head_entries [] h = tt
    head_entries (e ∷ es) h = (head_entry e h.0, head_entries es h.1)

    head_found-any :
        (es : List Entry)
        → s.heads ≡ Trie.new es
        → All (IsFiled head s.patterns) es
        → head_found s is_host name ≡ any (λ e. head_matches s is_host name e.1) es
    head_found-any es trie h =
        ap (λ t. any_id t (lower name) (head_matches s is_host name)) trie
        ∙ (any_id-new es (lower name) (head_matches s is_host name) (keys-of head s.patterns es h)
            ∙ any-ext _ _ es (head_entries es h))

  all_parents :
      (es : List Entry) (names : List Bytes)
      → s.heads ≡ Trie.new es
      → All (IsFiled head s.patterns) es
      → any (head_found s false) names
        ≡ any (λ name. any (λ e. head_matches s false name e.1) es) names
  all_parents es [] trie h = refl
  all_parents es (name ∷ names) trie h =
      ground (arith, head_found-any false name es trie h, all_parents es names trie h)

  heads-any :
      (es : List Entry)
      → s.heads ≡ Trie.new es
      → All (IsFiled head s.patterns) es
      → (not (is_empty s.heads.root)
          && (head_found s true host || any (head_found s false) (parents host)))
        ≡ any (λ e. pattern_matches s host e.1) es
  heads-any es trie h =
      guard es trie h
      ∙ (ap (λ b. any (λ e. head_matches s true host e.1) es || b)
            (any-swap (λ name e. head_matches s false name e.1) (parents host) es)
          ∙ (any-or (λ e. head_matches s true host e.1)
                (λ e. any (λ name. head_matches s false name e.1) (parents host)) es
              ∙ any-ext _ _ es (names es)))
    where
      names :
          (l : List Entry)
          → All
              (λ e.
                (head_matches s true host e.1
                  || any (λ name. head_matches s false name e.1) (parents host))
                ≡ pattern_matches s host e.1)
              l
      names [] = tt
      names (e ∷ l) = (head_names e.1, names l)

      both :
          (l : List Entry)
          → s.heads ≡ Trie.new l
          → All (IsFiled head s.patterns) l
          → (head_found s true host || any (head_found s false) (parents host)) ≡ (
              any (λ e. head_matches s true host e.1) l
              || any (λ name. any (λ e. head_matches s false name e.1) l) (parents host))
      both l trie' h' =
          ground (arith, head_found-any true host l trie' h', all_parents l (parents host) trie' h')

      guard :
          (l : List Entry)
          → s.heads ≡ Trie.new l
          → All (IsFiled head s.patterns) l
          → (not (is_empty s.heads.root)
              && (head_found s true host || any (head_found s false) (parents host)))
            ≡ (any (λ e. head_matches s true host e.1) l
                || any (λ name. any (λ e. head_matches s false name e.1) l) (parents host))
      guard [] trie' h' = ground (arith, both [] trie' h', any_never (parents host))
      guard (e ∷ l) trie' h' =
          ap
            (λ t.
              not (is_empty t.root)
              && (head_found s true host || any (head_found s false) (parents host)))
            trie'
          ∙ (ap (λ b. not b && (head_found s true host || any (head_found s false) (parents host)))
                (root-new e l (keys-of head s.patterns (e ∷ l) h'))
              ∙ both (e ∷ l) trie' h')

-- The index on the literal heads and tails of patterns misses no pattern and finds no other: for
-- patterns of bytes, a set made of them matches a host exactly when one of them matches the host or,
-- for a `||` pattern, one of its parents.
pub matches_any-new :
    (patterns : List Pattern) (host : Bytes)
    → All (λ p. AllBytes p.glob) patterns
    → matches_any (new patterns) host ≡ any (λ p. matches p host) patterns
unfolding matches_any new
matches_any-new patterns host bytes =
    let s = new patterns in
    let filed = file_all 0 patterns nothing_filed in
    let from = λ (i : ℕ) (p : Pattern) (e : get_elem? patterns i ≡ some p).
      ap (get_elem? patterns) (zero_add i) ∙ e in
    let a =
      file_all-AllFiled patterns 0 patterns nothing_filed from bytes
        (record { heads = tt; tails = tt }) in
    let pm = pattern_matches s host in
    let tails : any_id s.tails (lower (reverse host)) pm ≡ any (λ e. pm e.1) filed.tail_entries =
      any_id-new filed.tail_entries (lower (reverse host)) pm
        (keys-of tail_key patterns filed.tail_entries a.tails)
      ∙ any-ext _ _ filed.tail_entries (tail_entries s host filed.tail_entries a.tails) in
    let heads = heads-any s host filed.head_entries refl a.heads in
    regroup _ _ _ _ _ tails heads
    ∙ (file_all-any pm 0 patterns nothing_filed
        ∙ any_from-any patterns (λ p. matches p host) 0 patterns from)
  where
    zero_add : (i : ℕ) → 0 + i ≡ i
    zero_add i = omega arith

    regroup : (t t' h h' u : Bool) → t ≡ t' → h ≡ h' → (t || h || u) ≡ (h' || t' || u)
    regroup t t' h h' u p q = ground arith
