-- ===== src/Filter/Trie/Walks.antt =====
-- Walking a written `Trie` along a text (core/crates/filter/src/wildcard.rs).
use tollgate.Common.{
  ℕ, zero, suc, ◌+◌, ◌-◌, ◌≤◌, ◌<◌, ◌⊎◌, inl, inr, ◌≡◌, refl, ◌∙◌, sym, ap, subst, Bool, false,
  ◌||◌, Option, none, some, List, [], ◌∷◌, map, arith, ◌==◌, length, get_or, get_elem?, take, drop,
  any, is_some, Option-cases,
}
use tollgate.Common.BinarySearch.{
  Rises, binary_search, binary_search-any, binary_search-index, binary_search-lt,
}
use tollgate.Filter.Trie.{Entry, Node, Trie, own_ids, children, longer, slice, child, walk}
use tollgate.Filter.Trie.Runs.{Good, longer-GoesOn}
use tollgate.Filter.Trie.Groups.{Group, bytes_of, groups-Grouped, in_group, found}
use tollgate.Filter.Trie.Steps.{below_passes, found-nil, found-cons}
use tollgate.Filter.Trie.Arrays.{
  joined, offsets, piece-At, get_elem?-joined, take-joined, map-take, map-drop, get_elem?-map-some,
}
use tollgate.Filter.Trie.Written.{edge, edges, own, all_edges, byte_of, node_of, count_up}
use tollgate.Filter.Trie.Finished.{GoodNodes, Laid}

-- the piece of a node is what its slice is
slice-own :
    (ps : List (List ℕ)) (k : ℕ) (p : List ℕ)
    → get_elem? ps k ≡ some p
    → slice (offsets 0 ps) (joined ps) k ≡ p
slice-own ps k p h =
    let a = piece-At 0 ps k p h in
    let e : get_or (offsets 0 ps) k 0 ≡ a.before = omega (arith, a.starts) in
    ap
      (λ n. take (get_or (offsets 0 ps) (suc k) 0 - get_or (offsets 0 ps) k 0) (drop n (joined ps)))
      e
    ∙ take-joined 0 ps k p a

slice-bytes :
    (ps : List (List (ℕ × Node))) (k : ℕ) (p : List (ℕ × Node))
    → get_elem? ps k ≡ some p
    → slice (offsets 0 ps) (map byte_of (joined ps)) k ≡ map byte_of p
slice-bytes ps k p h =
    let a = piece-At 0 ps k p h in
    let from = get_or (offsets 0 ps) k 0 in
    let e : from ≡ a.before = omega (arith, a.starts) in
    let size = get_or (offsets 0 ps) (suc k) 0 - from in
    ap (take size) (map-drop byte_of from (joined ps))
    ∙ (map-take byte_of size (drop from (joined ps))
        ∙ ap (map byte_of) (ap (λ n. take size (drop n (joined ps))) e ∙ take-joined 0 ps k p a))

map-byte_of-edge : (d : ℕ) (cs : List Group) → map byte_of (map (edge d) cs) ≡ bytes_of cs
map-byte_of-edge d [] = refl
map-byte_of-edge d (c ∷ cs) = ap (λ t. c.0 ∷ t) (map-byte_of-edge d cs)

pub length-bytes_of : (cs : List Group) → length (bytes_of cs) ≡ length cs
length-bytes_of [] = refl
length-bytes_of (c ∷ cs) = ap suc (length-bytes_of cs)

get_or-count_up : (from n i : ℕ) → i < n → get_or (count_up from n) i 0 ≡ from + i
get_or-count_up from zero i h = absurd (omega arith)
get_or-count_up from (suc n) zero h = omega arith
get_or-count_up from (suc n) (suc i) h = get_or-count_up (from + 1) n i (omega arith) ∙ omega arith

-- an index within a list has its element
pub group_at :
    (cs : List Group) (i b : ℕ)
    → i < length cs
    → get_or (bytes_of cs) i 0 ≡ b
    → (r : List Entry) × (get_elem? cs i ≡ some (b, r))
group_at [] i b h e = absurd (omega arith)
group_at ((c, r) ∷ cs) zero b h e = (r, ap (λ n. some (n, r)) e)
group_at (c ∷ cs) (suc i) b h e = group_at cs i b (omega arith) e

pub in_group-none :
    (b : ℕ) (cs : List Group) (q : Entry → Bool)
    → any (λ x. x == b) (bytes_of cs) ≡ false
    → in_group b cs q ≡ false
in_group-none b [] q h = refl
in_group-none b (c ∷ cs) q h = ground (arith, in_group-none b cs q)

-- no later group has a byte of an earlier one
in_group-later :
    (a b : ℕ) (cs : List Group) (q : Entry → Bool)
    → Rises (a ∷ bytes_of cs)
    → b ≤ a
    → in_group b cs q ≡ false
in_group-later a b [] q r h = refl
in_group-later a b (c ∷ cs) q r h = ground (arith, in_group-later c.0 b cs q r.1)

Rises-le :
    (a : ℕ) (cs : List Group) (i b : ℕ) (r : List Entry)
    → Rises (a ∷ bytes_of cs)
    → get_elem? cs i ≡ some (b, r)
    → a < b
Rises-le a [] i b r h e = absurd (ground arith)
Rises-le a (c ∷ cs) zero b r h e = ground (arith, h.0)
Rises-le a (c ∷ cs) (suc i) b r h e = omega (arith, h.0, Rises-le c.0 cs i b r h.1 e)

pub Rises-rest : (c : Group) (cs : List Group) → Rises (bytes_of (c ∷ cs)) → Rises (bytes_of cs)
Rises-rest c [] r = tt
Rises-rest c (d ∷ cs) r = r.1

pub in_group-at :
    (b : ℕ) (cs : List Group) (q : Entry → Bool) (i : ℕ) (r : List Entry)
    → Rises (bytes_of cs)
    → get_elem? cs i ≡ some (b, r)
    → in_group b cs q ≡ any q r
in_group-at b [] q i r h e = absurd (ground arith)
in_group-at b (c ∷ cs) q zero r h e = ground (arith, in_group-later c.0 b cs q h)
in_group-at b (c ∷ cs) q (suc i) r h e =
    let less = Rises-le c.0 cs i b r h e in
    ground (arith, in_group-at b cs q i r (Rises-rest c cs h) e)

pub get_elem?-lt :
    {A : Type 0} (xs : List A) (i : ℕ) (a : A) → get_elem? xs i ≡ some a → i < length xs
get_elem?-lt [] i a e = absurd (ground arith)
get_elem?-lt (x ∷ xs) zero a e = omega arith
get_elem?-lt (x ∷ xs) (suc i) a e = omega (arith, get_elem?-lt xs i a e)

module _ (t : Trie) (entries : List Entry) (nodes : List Node) (l : Laid t entries nodes)
    (f : ℕ → Bool) where
  own-slice :
      (k : ℕ) (run : List Entry) (d : ℕ)
      → get_elem? nodes k ≡ some (run, d)
      → slice t.id_start t.ids k ≡ own_ids run d
  own-slice k run d h =
      ap (λ s. slice s t.ids k) l.id_start
      ∙ (ap (λ s. slice (offsets 0 (map own nodes)) s k) l.ids
          ∙ slice-own (map own nodes) k (own_ids run d) (get_elem?-map-some own nodes k (run, d) h))

  bytes-slice :
      (k : ℕ) (run : List Entry) (d : ℕ)
      → get_elem? nodes k ≡ some (run, d)
      → slice t.edge_start t.edge_bytes k ≡ bytes_of (children (run, d))
  bytes-slice k run d h =
      ap (λ s. slice s t.edge_bytes k) l.edge_start
      ∙ (ap (λ s. slice (offsets 0 (map edges nodes)) s k) l.bytes
          ∙ (slice-bytes (map edges nodes) k (edges (run, d))
                (get_elem?-map-some edges nodes k (run, d) h)
              ∙ map-byte_of-edge d (children (run, d))))

  -- the number of a child, and the node of that number
  child-number :
      (k : ℕ) (run : List Entry) (d i b : ℕ) (r : List Entry)
      → get_elem? nodes k ≡ some (run, d)
      → get_elem? (children (run, d)) i ≡ some (b, r)
      → (n : ℕ) × (get_or t.edge_nodes (get_or t.edge_start k 0 + i) 0 ≡ suc n)
        × (get_elem? nodes (suc n) ≡ some (r, suc d))
  child-number k run d i b r h e =
      let ps = map edges nodes in
      let p = edges (run, d) in
      let a = piece-At 0 ps k p (get_elem?-map-some edges nodes k (run, d) h) in
      let here : get_elem? p i ≡ some (b, (r, suc d)) =
        get_elem?-map-some (edge d) (children (run, d)) i (b, r) e in
      let there : get_elem? (all_edges nodes) (a.before + i) ≡ some (b, (r, suc d)) =
        get_elem?-joined 0 ps k p a i (get_elem?-lt p i (b, (r, suc d)) here) ∙ here in
      let less = get_elem?-lt (all_edges nodes) (a.before + i) (b, (r, suc d)) there in
      let from : get_or t.edge_start k 0 + i ≡ a.before + i =
        omega (arith, ap (λ s. get_or s k 0) l.edge_start, a.starts) in
      (
        a.before + i,
        ap (λ n. get_or t.edge_nodes n 0) from
            ∙ (ap (λ s. get_or s (a.before + i) 0) l.numbers
                ∙ (get_or-count_up 1 (length (all_edges nodes)) (a.before + i) less ∙ omega arith)),
        ap (λ s. get_elem? s (suc (a.before + i))) l.order
            ∙ get_elem?-map-some node_of (all_edges nodes) (a.before + i) (b, (r, suc d)) there,
      )

  Good-at :
      (ns : List Node) (k : ℕ) (run : List Entry) (d : ℕ)
      → GoodNodes ns
      → get_elem? ns k ≡ some (run, d)
      → Good run d
  Good-at [] k run d g h = absurd (ground arith)
  Good-at ((r, c) ∷ ns) zero run d g h =
      let e : r ≡ run = ground arith in
      let e' : c ≡ d = ground arith in subst (Good run) e' (subst (λ x. Good x c) e g.0)
  Good-at (n ∷ ns) (suc k) run d g h = Good-at ns k run d g.1 h

  -- the walk from a node finds what its run has
  pub walk-found :
      (text : List ℕ) (k : ℕ) (run : List Entry) (d : ℕ)
      → get_elem? nodes k ≡ some (run, d)
      → walk t f k text ≡ found f d run text
  unfolding walk
  walk-found [] k run d h =
      ap (any f) (own-slice k run d h) ∙ sym (found-nil f d run (Good-at nodes k run d l.good h))
  walk-found (b ∷ text) k run d h =
      let g = Good-at nodes k run d l.good h in
      let cs = children (run, d) in
      let own_part = own-slice k run d h in
      let rises : Rises (bytes_of cs) =
        unfold children in (groups-Grouped (longer run d) d (longer-GoesOn run d g)).rises in
      let same : found f d run (b ∷ text)
          ≡ (any f (own_ids run d) || in_group b cs (below_passes f d text)) =
        unfold children in found-cons f d b text run g in
      ap (λ s. any f s || step (binary_search (slice t.edge_start t.edge_bytes k) b)) own_part
      ∙ (ap (λ s. any f (own_ids run d) || step (binary_search s b)) (bytes-slice k run d h)
          ∙ (ap (λ r. any f (own_ids run d) || r)
                (go cs rises (Option-cases (binary_search (bytes_of cs) b))
                  (λ i r e. child-number k run d i b r h e)
                  (λ n r e. walk-found text (suc n) r (suc d) e))
              ∙ sym same))
    where
      step : Option ℕ → Bool
      step o = elim (child t k o) [ none ↦ false | some next ↦ walk t f next text ]

      go :
          (cs : List Group)
          → Rises (bytes_of cs)
          → (binary_search (bytes_of cs) b ≡ none)
            ⊎ ((i : ℕ) × (binary_search (bytes_of cs) b ≡ some i))
          → ((i : ℕ) (r : List Entry)
              → get_elem? cs i ≡ some (b, r)
              → (n : ℕ) × (get_or t.edge_nodes (get_or t.edge_start k 0 + i) 0 ≡ suc n)
                × (get_elem? nodes (suc n) ≡ some (r, suc d)))
          → ((n : ℕ) (r : List Entry)
              → get_elem? nodes (suc n) ≡ some (r, suc d)
              → walk t f (suc n) text ≡ found f (suc d) r text)
          → step (binary_search (bytes_of cs) b) ≡ in_group b cs (below_passes f d text)
      go cs rises (inl e) number next =
          ap step e
          ∙ sym (
              in_group-none b cs (below_passes f d text)
                (sym (binary_search-any (bytes_of cs) b rises) ∙ ap is_some e))
      go cs rises (inr (i, e)) number next =
          let less : i < length cs =
            omega (arith, binary_search-lt (bytes_of cs) b i e, length-bytes_of cs) in
          let (r, at) = group_at cs i b less (binary_search-index (bytes_of cs) b i e) in
          let (n, to, there) = number i r at in
          ap step e
          ∙ (ap (λ m. walk t f m text) to
              ∙ (next n r there ∙ sym (in_group-at b cs (below_passes f d text) i r rises at)))
