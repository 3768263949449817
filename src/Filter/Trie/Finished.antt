-- ===== src/Filter/Trie/Finished.antt =====
-- The loop of `Trie::new` (core/crates/filter/src/wildcard.rs) to its end.
use tollgate.Common.{
  append_nil, ℕ, zero, suc, ◌+◌, ◌≤◌, ◌<◌, ◌≡◌, refl, ◌∙◌, sym, ap, subst, Bool, true, false, List,
  [], ◌∷◌, ◌++◌, map, arith, length, All, All-append,
}
use tollgate.Filter.Trie.{
  Entry, Node, Trie, Building, own_ids, children, longer, groups, set, start_node, add_child,
  add_children, write_node, write_nodes, start, close_trie,
}
use tollgate.Filter.Trie.Runs.{Good, longer-GoesOn}
use tollgate.Filter.Trie.Groups.{
  Group, groups-Grouped, weight, group_weight, groups-weight, longer-weight,
}
use tollgate.Filter.Trie.Arrays.{joined, offsets}
use tollgate.Filter.Trie.Written.{
  add_children-Added, edge, edges, own, all_edges, byte_of, node_of, count_up, Written,
  write_node-Written,
}

abbrev pub GoodNodes : List Node → Type 0
GoodNodes = All (λ n. Good n.0 n.1)

-- the turns that the pending nodes and all below them take
abbrev queue_weight : List Node → ℕ
queue_weight [] = 0
queue_weight (n ∷ q) = suc (weight n.1 n.0) + queue_weight q

queue_weight-append : (q r : List Node) → queue_weight (q ++ r) ≡ queue_weight q + queue_weight r
queue_weight-append [] r = omega arith
queue_weight-append (n ∷ q) r = omega (arith, queue_weight-append q r)

queue_weight-edges :
    (d : ℕ) (cs : List Group)
    → queue_weight (map node_of (map (edge d) cs)) ≡ group_weight (suc d) cs
queue_weight-edges d [] = refl
queue_weight-edges d (c ∷ cs) = omega (arith, queue_weight-edges d cs)

GoodNodes-edges :
    (d : ℕ) (cs : List Group)
    → All (λ g. Good g.1 (suc d)) cs
    → GoodNodes (map node_of (map (edge d) cs))
GoodNodes-edges d [] h = tt
GoodNodes-edges d (c ∷ cs) h = (h.0, GoodNodes-edges d cs h.1)

children-weight :
    (run : List Entry) (d : ℕ)
    → Good run d
    → queue_weight (map node_of (edges (run, d))) ≤ weight d run
unfolding children
children-weight run d g = omega (
  arith,
  queue_weight-edges d (groups d (longer run d)),
  groups-weight d (longer run d) (longer-GoesOn run d g).longer_keys,
  longer-weight d run,
)

children-Good : (run : List Entry) (d : ℕ) → Good run d → GoodNodes (map node_of (edges (run, d)))
unfolding children
children-Good run d g =
    GoodNodes-edges d (groups d (longer run d))
      (groups-Grouped (longer run d) d (longer-GoesOn run d g)).good

write_node-pending :
    (at_root : Bool) (s : Building) (run : List Entry) (d : ℕ) (rest : List Node)
    → (write_node at_root s (run, d) rest).pending ≡ rest ++ map node_of (edges (run, d))
unfolding write_node
write_node-pending at_root s run d rest =
    (add_children-Added at_root d
      (record s { trie = start_node s.trie (own_ids run d); pending = rest })
      (children (run, d))).pending

pub record Finished (entries : List Entry) (s : Building) : Type 0 where
  pub nodes : List Node
  pub written : Written entries nodes s
  pub good : GoodNodes nodes
  pub empty : s.pending ≡ []

write_nodes-Finished :
    (entries : List Entry) (n : ℕ) (at_root : Bool) (s : Building) (done : List Node)
    → Written entries done s
    → GoodNodes done
    → GoodNodes s.pending
    → queue_weight s.pending < n
    → Finished entries (write_nodes n at_root s)
unfolding write_nodes
write_nodes-Finished entries zero at_root s done w good more fuel = absurd (omega arith)
write_nodes-Finished entries (suc n) at_root s done w good more fuel =
    go s.pending refl (write_nodes-Finished entries n false)
  where
    go :
        (q : List Node)
        → s.pending ≡ q
        → ((s' : Building) (done' : List Node)
            → Written entries done' s'
            → GoodNodes done'
            → GoodNodes s'.pending
            → queue_weight s'.pending < n
            → Finished entries (write_nodes n false s'))
        → Finished entries
            (elim q [ [] ↦ s | node ∷ rest ↦ write_nodes n false (write_node at_root s node rest) ])
    go [] e next = record { nodes = done; written = w; good = good; empty = e }
    go ((run, d) ∷ rest) e next =
        let here : GoodNodes ((run, d) ∷ rest) = subst GoodNodes e more in
        let s' = write_node at_root s (run, d) rest in
        let p = write_node-pending at_root s run d rest in
        let below = map node_of (edges (run, d)) in
        next s' (done ++ (run, d) ∷ []) (write_node-Written entries done s run d rest at_root w e)
          (All-append (λ n. Good n.0 n.1) done ((run, d) ∷ []) good (here.0, tt))
          (subst GoodNodes (sym p)
            (All-append (λ n. Good n.0 n.1) rest below here.1 (children-Good run d here.0)))
          (omega (
            arith,
            ap queue_weight p,
            ap queue_weight e,
            queue_weight-append rest below,
            children-weight run d here.0,
          ))

-- the table of the root is written with the root alone
write_node-root :
    (s : Building) (node : Node) (rest : List Node)
    → (write_node false s node rest).trie.root ≡ s.trie.root
unfolding write_node
write_node-root s (run, d) rest =
    add (record s { trie = start_node s.trie (own_ids run d); pending = rest }) (children (run, d))
  where
    add : (s' : Building) (cs : List Group) → (add_children false d s' cs).trie.root ≡ s'.trie.root
    add s' [] = unfold add_children in refl
    add s' (c ∷ cs) = unfold add_children add_child in add (add_child false d s' c) cs

pub write_nodes-root : (n : ℕ) (s : Building) → (write_nodes n false s).trie.root ≡ s.trie.root
unfolding write_nodes
write_nodes-root zero s = refl
write_nodes-root (suc n) s = go s.pending (write_nodes-root n)
  where
    go :
        (q : List Node)
        → ((s' : Building) → (write_nodes n false s').trie.root ≡ s'.trie.root)
        → (let r : Building = elim q [
          | [] ↦ s
          | node ∷ rest ↦ write_nodes n false (write_node false s node rest)
        ] in
            r.trie.root)
          ≡ s.trie.root
    go [] next = refl
    go (node ∷ rest) next = next (write_node false s node rest) ∙ write_node-root s node rest

-- the numbers of children in the table of the root
abbrev pub place : List ℕ → ℕ → List Group → List ℕ
place table n [] = table
place table n (c ∷ cs) = place (set table c.0 n) (n + 1) cs

pub add_children-root :
    (d : ℕ) (s : Building) (cs : List Group)
    → (add_children true d s cs).trie.root ≡ place s.trie.root s.numbered cs
unfolding add_children
add_children-root d s [] = refl
add_children-root d s (c ∷ cs) = unfold add_child in add_children-root d (add_child true d s c) cs

-- The arrays of a trie hold the pieces of its nodes, which are the root and the children of all.
pub record Laid (t : Trie) (entries : List Entry) (nodes : List Node) : Type 0 where
  pub order : nodes ≡ (entries, 0) ∷ map node_of (all_edges nodes)
  pub good : GoodNodes nodes
  pub ids : t.ids ≡ joined (map own nodes)
  pub id_start : t.id_start ≡ offsets 0 (map own nodes)
  pub bytes : t.edge_bytes ≡ map byte_of (all_edges nodes)
  pub edge_start : t.edge_start ≡ offsets 0 (map edges nodes)
  pub numbers : t.edge_nodes ≡ count_up 1 (length (all_edges nodes))

start-Written : (entries : List Entry) → Written entries [] (start entries)
start-Written entries = record {
  order = refl;
  ids = refl;
  id_start = refl;
  bytes = refl;
  edge_start = refl;
  nodes = refl;
  numbered = omega arith;
}

module _ (entries : List Entry) (n : ℕ) (good : Good entries 0)
    (fuel : weight 0 entries + 1 < n) where
  finished : Finished entries (write_nodes n true (start entries))
  finished =
      write_nodes-Finished entries n true (start entries) [] (start-Written entries) tt (good, tt)
        (omega arith)

  pub laid_nodes : List Node
  laid_nodes = finished.nodes

  pub build-Laid : Laid (close_trie (write_nodes n true (start entries)).trie) entries laid_nodes
  unfolding laid_nodes
  build-Laid =
      let f = finished in
      let w = f.written in
      record {
        order = sym (append_nil f.nodes) ∙ (ap (λ q. f.nodes ++ q) (sym f.empty) ∙ w.order);
        good = f.good;
        ids = w.ids;
        id_start = w.id_start;
        bytes = w.bytes;
        edge_start = w.edge_start;
        numbers = w.nodes;
      }
