-- ===== src/Filter/Trie/Lookup.antt =====
-- `Trie::any` on a trie made by `Trie::new`, against trying every entry
-- (core/crates/filter/src/wildcard.rs).
use tollgate.Common.{
  ℕ, suc, ◌+◌, ◌<◌, inl, inr, ◌≡◌, refl, ◌∙◌, sym, ap, Bool, true, false, not, ◌&&◌, ◌||◌, some,
  List, [], ◌∷◌, map, arith, ltb, ltb→lt, ◌==◌, length, is_empty, get_elem?, any, All, Bool-cases,
}
use tollgate.Common.Sorting.{sort, any-sort, All-sort}
use tollgate.Common.BinarySearch.{Rises, any_index}
use tollgate.Filter.Trie.{
  Entry, Node, Trie, Building, own_ids, children, longer, zeros, entry_le, total_length, start,
  start_node, write_node, write_nodes, build, new, close_trie, walk, any_id, from_root,
}
use tollgate.Filter.Wildcard.Ends.{is_prefix}
use tollgate.Filter.Trie.Runs.{Good, longer-GoesOn}
use tollgate.Filter.Trie.Groups.{Group, bytes_of, groups-Grouped, in_group, found}
use tollgate.Filter.Trie.Steps.{below_passes, found-cons, found-nil}
use tollgate.Filter.Trie.Arrays.{
  piece-At, get_elem?-joined, get_or-offsets-head, get_elem?-map-some,
}
use tollgate.Filter.Trie.Written.{edge, edges, all_edges, node_of}
use tollgate.Filter.Trie.Finished.{
  Laid, place, add_children-root, write_nodes-root, laid_nodes, build-Laid,
}
use tollgate.Filter.Trie.Walks.{
  walk-found, group_at, in_group-none, in_group-at, length-bytes_of, get_elem?-lt,
}
use tollgate.Filter.Trie.Sorted.{sort-Good, weight-total_length}
use tollgate.Filter.Trie.Table.{
  IsKey, length-place, place-none, place-some, get_elem?-none, get_elem?-zeros, no_own, no_byte,
}

module _ (run : List Entry) (n : ℕ) (f : ℕ → Bool) (good : Good run 0)
    (fuel : total_length run + 1 < suc n) (keys : All IsKey run) where
  t : Trie
  t = close_trie (write_nodes (suc n) true (start run)).trie

  nodes : List Node
  nodes = laid_nodes run (suc n) good (omega (arith, weight-total_length run))

  laid : Laid t run nodes
  unfolding t nodes
  laid = build-Laid run (suc n) good (omega (arith, weight-total_length run))

  cs : List Group
  cs = children (run, 0)

  rises : Rises (bytes_of cs)
  unfolding cs children
  rises = (groups-Grouped (longer run 0) 0 (longer-GoesOn run 0 good)).rises

  table : t.root ≡ place (zeros 256) 1 cs
  unfolding t cs write_nodes write_node
  table =
      let s = start run in
      let begun : Building = record s { trie = start_node s.trie (own_ids run 0); pending = [] } in
      write_nodes-root n (write_node true s (run, 0) [])
      ∙ add_children-root 0 begun (children (run, 0))

  -- a child of the root has the number after its index
  root-child :
      (i b : ℕ) (r : List Entry)
      → get_elem? cs i ≡ some (b, r)
      → get_elem? nodes (suc i) ≡ some (r, 1)
  unfolding cs
  root-child i b r h =
      let root : get_elem? nodes 0 ≡ some (run, 0) = ap (λ l. get_elem? l 0) laid.order in
      let ps = map edges nodes in
      let p = edges (run, 0) in
      let a = piece-At 0 ps 0 p (get_elem?-map-some edges nodes 0 (run, 0) root) in
      let none_before : a.before ≡ 0 = omega (arith, a.starts, get_or-offsets-head 0 ps) in
      let here : get_elem? p i ≡ some (b, (r, 1)) =
        get_elem?-map-some (edge 0) (children (run, 0)) i (b, r) h in
      let there : get_elem? (all_edges nodes) i ≡ some (b, (r, 1)) =
        ap (get_elem? (all_edges nodes)) (omega (arith, none_before))
        ∙ (get_elem?-joined 0 ps 0 p a i (get_elem?-lt p i (b, (r, 1)) here) ∙ here) in
      ap (λ l. get_elem? l (suc i)) laid.order
      ∙ get_elem?-map-some node_of (all_edges nodes) i (b, (r, 1)) there

  found-root :
      (first : ℕ) (text : List ℕ)
      → found f 0 run (first ∷ text) ≡ in_group first cs (below_passes f 0 text)
  unfolding cs children
  found-root first text =
      found-cons f 0 first text run good
      ∙ ap (λ l. any f l || in_group first (children (run, 0)) (below_passes f 0 text))
          (no_own run keys)

  lookup_byte :
      (first : ℕ) (text : List ℕ)
      → first < 256
      → from_root t f (get_elem? t.root first) text ≡ found f 0 run (first ∷ text)
  lookup_byte first text byte =
      ap (λ l. from_root t f (get_elem? l first) text) table
      ∙ (elim (Bool-cases (any (λ x. x == first) (bytes_of cs))) [
        | inr gone ↦
            ap (λ o. from_root t f o text)
              (place-none (zeros 256) 1 first cs gone ∙ get_elem?-zeros 256 first byte)
            ∙ sym (in_group-none first cs (below_passes f 0 text) gone)
        | inl there ↦
            let (i, less, same) = any_index (bytes_of cs) first there in
            let (r, at) = group_at cs i first (omega (arith, less, length-bytes_of cs)) same in
            let one : 1 + i ≡ suc i = omega arith in
            ap (λ o. from_root t f o text)
              (place-some (zeros 256) 1 first i cs r rises (omega arith) at ∙ ap some one)
            ∙ (ap (λ b. not b && walk t f (suc i) text) (suc_not_zero i)
                ∙ (walk-found t run nodes laid f text (suc i) r 1 (root-child i first r at)
                    ∙ sym (in_group-at first cs (below_passes f 0 text) i r rises at)))
      ]
          ∙ sym (found-root first text))
    where
      suc_not_zero : (i : ℕ) → (suc i == 0) ≡ false
      suc_not_zero i = ground arith

  lookup_all : (text : List ℕ) → any_id t text f ≡ found f 0 run text
  unfolding any_id
  lookup_all [] = sym (found-nil f 0 run good ∙ ap (any f) (no_own run keys))
  lookup_all (first ∷ text) = elim (Bool-cases (ltb first 256)) [
    | inl byte ↦ lookup_byte first text (ltb→lt first 256 byte)
    | inr more ↦
        ap (λ o. from_root t f o text)
          (ap (λ l. get_elem? l first) table
            ∙ get_elem?-none (place (zeros 256) 1 cs) first
                (ground (arith, length-place (zeros 256) 1 cs)))
        ∙ sym (no_byte f run first text keys (ground arith))
  ]

-- For keys of one byte or more, the arrays that `Trie::new` writes, walked along a text by binary
-- search, find exactly the patterns whose keys start the text: the loop on the nodes has enough fuel.
pub any_id-new :
    (entries : List Entry) (text : List ℕ) (f : ℕ → Bool)
    → All IsKey entries
    → any_id (new entries) text f ≡ any (λ e. is_prefix e.0 text && f e.1) entries
unfolding new t
any_id-new [] [] f keys = unfold any_id in refl
any_id-new [] (c ∷ text) f keys = unfold any_id in refl
any_id-new (e ∷ entries) text f keys =
    let run = sort entry_le (e ∷ entries) in
    (unfold build in
      lookup_all run (suc (total_length run)) f (sort-Good (e ∷ entries)) (omega arith)
        (All-sort IsKey entry_le (e ∷ entries) keys) text)
    ∙ any-sort (λ e'. is_prefix e'.0 text && f e'.1) entry_le (e ∷ entries)

-- a trie with entries has a table
pub root-new :
    (e : Entry) (entries : List Entry)
    → All IsKey (e ∷ entries)
    → is_empty (new (e ∷ entries)).root ≡ false
unfolding new t build cs
root-new e entries keys =
    let run = sort entry_le (e ∷ entries) in
    let t' =
      table run (suc (total_length run)) (λ _. false) (sort-Good (e ∷ entries)) (omega arith)
        (All-sort IsKey entry_le (e ∷ entries) keys) in
    not_empty _ (ap length t' ∙ (length-place (zeros 256) 1 (children (run, 0)) ∙ refl))
  where
    not_empty : (l : List ℕ) → length l ≡ 256 → is_empty l ≡ false
    not_empty [] h = absurd (omega arith)
    not_empty (x ∷ l) h = refl
