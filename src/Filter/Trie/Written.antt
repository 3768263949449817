-- ===== src/Filter/Trie/Written.antt =====
-- What the loop of `Trie::new` (core/crates/filter/src/wildcard.rs) writes, level by level.
use tollgate.Common.{
  append_nil, append_assoc, ℕ, zero, suc, ◌+◌, ◌≡◌, refl, ◌∙◌, sym, ap, Bool, List, [], ◌∷◌, ◌++◌,
  map, arith, length, length-append,
}
use tollgate.Filter.Trie.{
  Entry, Node, Building, own_ids, children, start_node, add_child, add_children, write_node,
}
use tollgate.Filter.Trie.Groups.{Group}
use tollgate.Filter.Trie.Arrays.{
  joined, offsets, joined-append, offsets-append, map_append, length-map,
}

-- a child as the byte that leads to it and its node
abbrev pub edge : ℕ → Group → ℕ × Node
edge d g = (g.0, (g.1, suc d))

abbrev pub edges : Node → List (ℕ × Node)
edges (run, d) = map (edge d) (children (run, d))

abbrev pub own : Node → List ℕ
own (run, d) = own_ids run d

abbrev pub all_edges : List Node → List (ℕ × Node)
all_edges nodes = joined (map edges nodes)

abbrev pub byte_of : ℕ × Node → ℕ
byte_of e = e.0

abbrev pub node_of : ℕ × Node → Node
node_of e = e.1

abbrev pub count_up : ℕ → ℕ → List ℕ
count_up from zero = []
count_up from (suc n) = from ∷ count_up (from + 1) n

count_up-append : (from n m : ℕ) → count_up from n ++ count_up (from + n) m ≡ count_up from (n + m)
count_up-append from zero m =
    let e : from + 0 ≡ from = omega arith in
    let f : m ≡ 0 + m = omega arith in ap (λ k. count_up k m) e ∙ ap (count_up from) f
count_up-append from (suc n) m =
    let e : from + suc n ≡ from + 1 + n = omega arith in
    let f : suc (n + m) ≡ suc n + m = omega arith in
    ap (λ k. from ∷ (count_up (from + 1) n ++ count_up k m)) e
    ∙ (ap (λ t. from ∷ t) (count_up-append (from + 1) n m) ∙ ap (count_up from) f)

-- what adding children leaves
pub record Added (d : ℕ) (s : Building) (cs : List Group) (s' : Building) : Type 0 where
  pub pending : s'.pending ≡ s.pending ++ map node_of (map (edge d) cs)
  pub bytes : s'.trie.edge_bytes ≡ s.trie.edge_bytes ++ map byte_of (map (edge d) cs)
  pub nodes : s'.trie.edge_nodes ≡ s.trie.edge_nodes ++ count_up s.numbered (length cs)
  pub numbered : s'.numbered ≡ s.numbered + length cs
  pub edge_start : s'.trie.edge_start ≡ s.trie.edge_start
  pub ids : s'.trie.ids ≡ s.trie.ids
  pub id_start : s'.trie.id_start ≡ s.trie.id_start

pub add_children-Added :
    (at_root : Bool) (d : ℕ) (s : Building) (cs : List Group)
    → Added d s cs (add_children at_root d s cs)
unfolding add_children
add_children-Added at_root d s [] = record {
  pending = sym (append_nil s.pending);
  bytes = sym (append_nil s.trie.edge_bytes);
  nodes = sym (append_nil s.trie.edge_nodes);
  numbered = omega arith;
  edge_start = refl;
  ids = refl;
  id_start = refl;
}
add_children-Added at_root d s (c ∷ cs) =
    let a = add_children-Added at_root d (add_child at_root d s c) cs in
    unfold add_child in
    record {
      pending = a.pending ∙ append_assoc s.pending _ _;
      bytes = a.bytes ∙ append_assoc s.trie.edge_bytes _ _;
      nodes = a.nodes ∙ append_assoc s.trie.edge_nodes _ _;
      numbered = omega (arith, a.numbered);
      edge_start = a.edge_start;
      ids = a.ids;
      id_start = a.id_start;
    }

-- After the nodes of `done` are written, in the order of their numbers: the arrays hold their pieces,
-- and those nodes and the pending ones are the root and the children of all that are written.
pub record Written (entries : List Entry) (done : List Node) (s : Building) : Type 0 where
  pub order : done ++ s.pending ≡ (entries, 0) ∷ map node_of (all_edges done)
  pub ids : s.trie.ids ≡ joined (map own done)
  pub id_start : s.trie.id_start ++ length s.trie.ids ∷ [] ≡ offsets 0 (map own done)
  pub bytes : s.trie.edge_bytes ≡ map byte_of (all_edges done)
  pub edge_start : s.trie.edge_start ++ length s.trie.edge_bytes ∷ [] ≡ offsets 0 (map edges done)
  pub nodes : s.trie.edge_nodes ≡ count_up 1 (length (all_edges done))
  pub numbered : s.numbered ≡ 1 + length (all_edges done)

all_edges-append :
    (done : List Node) (n : Node) → all_edges (done ++ n ∷ []) ≡ all_edges done ++ edges n
all_edges-append done n =
    ap joined (map_append edges done (n ∷ [])) ∙ joined-append (map edges done) (edges n)

module _ (entries : List Entry) (done : List Node) (s : Building) (run : List Entry) (d : ℕ)
    (rest : List Node) (at_root : Bool) (w : Written entries done s)
    (next : s.pending ≡ (run, d) ∷ rest) where
  begun : Building
  begun = record s { trie = start_node s.trie (own_ids run d); pending = rest }

  a : Added d begun (children (run, d)) (add_children at_root d begun (children (run, d)))
  a = add_children-Added at_root d begun (children (run, d))

  node : Node
  node = (run, d)

  length-all_edges :
      length (all_edges (done ++ node ∷ [])) ≡ length (all_edges done) + length (children node)
  unfolding node
  length-all_edges =
      ap length (all_edges-append done node)
      ∙ omega
          (arith, length-append (all_edges done) (edges node), length-map (edge d) (children node))

  write_order :
      (done ++ node ∷ []) ++ (write_node at_root s node rest).pending
      ≡ (entries, 0) ∷ map node_of (all_edges (done ++ node ∷ []))
  unfolding write_node begun node
  write_order =
      let new = map node_of (edges node) in
      ap (λ l. (done ++ node ∷ []) ++ l) a.pending
      ∙ (append_assoc done (node ∷ []) (rest ++ new)
          ∙ (sym (append_assoc done (node ∷ rest) new)
              ∙ (ap (λ l. l ++ new) (ap (λ l. done ++ l) (sym next) ∙ w.order)
                  ∙ ap (λ l. (entries, 0) ∷ l)
                      (sym (map_append node_of (all_edges done) (edges node))
                        ∙ ap (map node_of) (sym (all_edges-append done node))))))

  write_ids : (write_node at_root s node rest).trie.ids ≡ joined (map own (done ++ node ∷ []))
  unfolding write_node begun node
  write_ids =
      a.ids
      ∙ (ap (λ l. l ++ own node) w.ids
          ∙ sym (
              ap joined (map_append own done (node ∷ []))
              ∙ joined-append (map own done) (own node)))

  write_id_start :
      (write_node at_root s node rest).trie.id_start
        ++ length (write_node at_root s node rest).trie.ids ∷ []
      ≡ offsets 0 (map own (done ++ node ∷ []))
  unfolding write_node begun node
  write_id_start =
      let ids = (add_children at_root d begun (children node)).trie.ids in
      let total : length ids ≡ 0 + length (joined (map own done)) + length (own node) =
        omega (arith, ap length a.ids, length-append s.trie.ids (own node), ap length w.ids) in
      ap (λ l. l ++ length ids ∷ []) (a.id_start ∙ w.id_start)
      ∙ (ap (λ n. offsets 0 (map own done) ++ n ∷ []) total
          ∙ sym (
              ap (offsets 0) (map_append own done (node ∷ []))
              ∙ offsets-append 0 (map own done) (own node)))

  write_bytes :
      (write_node at_root s node rest).trie.edge_bytes ≡ map byte_of (all_edges (done ++ node ∷ []))
  unfolding write_node begun node
  write_bytes =
      a.bytes
      ∙ (ap (λ l. l ++ map byte_of (edges node)) w.bytes
          ∙ (sym (map_append byte_of (all_edges done) (edges node))
              ∙ ap (map byte_of) (sym (all_edges-append done node))))

  write_edge_start :
      (write_node at_root s node rest).trie.edge_start
        ++ length (write_node at_root s node rest).trie.edge_bytes ∷ []
      ≡ offsets 0 (map edges (done ++ node ∷ []))
  unfolding write_node begun node
  write_edge_start =
      let bytes = (add_children at_root d begun (children node)).trie.edge_bytes in
      let total : length bytes ≡ 0 + length (all_edges done) + length (edges node) = omega (
        arith,
        ap length a.bytes,
        length-append s.trie.edge_bytes (map byte_of (edges node)),
        length-map byte_of (edges node),
        ap length w.bytes,
        length-map byte_of (all_edges done),
      ) in
      ap (λ l. l ++ length bytes ∷ []) (a.edge_start ∙ w.edge_start)
      ∙ (ap (λ n. offsets 0 (map edges done) ++ n ∷ []) total
          ∙ sym (
              ap (offsets 0) (map_append edges done (node ∷ []))
              ∙ offsets-append 0 (map edges done) (edges node)))

  write_numbers :
      (write_node at_root s node rest).trie.edge_nodes
      ≡ count_up 1 (length (all_edges (done ++ node ∷ [])))
  unfolding write_node begun node
  write_numbers =
      a.nodes
      ∙ (ap (λ l. l ++ count_up s.numbered (length (children node))) w.nodes
          ∙ (ap (λ n. count_up 1 (length (all_edges done)) ++ count_up n (length (children node)))
                w.numbered
              ∙ (count_up-append 1 (length (all_edges done)) (length (children node))
                  ∙ ap (count_up 1) (sym length-all_edges))))

  pub write_node-Written :
      Written entries (done ++ (run, d) ∷ []) (write_node at_root s (run, d) rest)
  unfolding write_node begun node
  write_node-Written = record {
    order = write_order;
    ids = write_ids;
    id_start = write_id_start;
    bytes = write_bytes;
    edge_start = write_edge_start;
    nodes = write_numbers;
    numbered = omega (arith, a.numbered, w.numbered, length-all_edges);
  }
