-- ===== src/Filter/Trie.antt =====
-- `Trie` of core/crates/filter/src/wildcard.rs: byte strings with the patterns filed under them. A
-- range of the sorted entries is the list of the entries in it. The offsets are taken to fit in a
-- `u32`, which the source checks.
pub mod Runs
pub mod Groups
pub mod Steps
pub mod Arrays
pub mod Written
pub mod Finished
pub mod Walks
pub mod Sorted
pub mod Table
pub mod Lookup
use tollgate.Common.{
  ℕ, zero, suc, ◌+◌, ◌-◌, Bool, true, false, ◌&&◌, ◌||◌, not, Option, none, some, List, [], ◌∷◌,
  ◌++◌, map, ◌==◌, leb, if◌then◌else◌, length, is_empty, get_elem?, get_or, take, drop, any, Bytes,
  str_eq,
}
use tollgate.Common.Sorting.{bytes_le, sort}
use tollgate.Common.BinarySearch.{binary_search}

-- a string and the pattern filed under it
abbrev pub Entry : Type 0
Entry = Bytes × ℕ

pub record Trie : Type 0 where
  pub root : List ℕ
  pub edge_start : List ℕ
  pub edge_bytes : List ℕ
  pub edge_nodes : List ℕ
  pub id_start : List ℕ
  pub ids : List ℕ

-- `Trie::default`
abbrev pub empty_trie : Trie
empty_trie = record {
  root = [];
  edge_start = [];
  edge_bytes = [];
  edge_nodes = [];
  id_start = [];
  ids = [];
}

-- a node that has its number and is not written yet: its run of entries and the length of its path
abbrev pub Node : Type 0
Node = List Entry × ℕ

abbrev pub ends_at : ℕ → Entry → Bool
ends_at depth e = length e.0 == depth

-- the patterns filed under the string that ends at the node: the first loop on `at`
unfoldable pub own_ids : List Entry → ℕ → List ℕ
own_ids [] depth = []
own_ids (e ∷ run) depth = let rest = own_ids run depth in if ends_at depth e then e.1 ∷ rest else []

-- the entries after them
unfoldable pub longer : List Entry → ℕ → List Entry
longer [] depth = []
longer (e ∷ run) depth = let rest = longer run depth in if ends_at depth e then rest else e ∷ run

abbrev pub byte_at : ℕ → Entry → ℕ
byte_at depth e = get_or e.0 depth 0

-- an entry before the runs of those that follow it
unfoldable pub push_entry : ℕ → Entry → List (ℕ × List Entry) → List (ℕ × List Entry)
push_entry byte e [] = (byte, e ∷ []) ∷ []
push_entry byte e ((b, run) ∷ rest) =
    if b == byte then (b, e ∷ run) ∷ rest else (byte, e ∷ []) ∷ (b, run) ∷ rest

-- the runs of entries with the same byte after the path: the second loop on `at`
unfoldable pub groups : ℕ → List Entry → List (ℕ × List Entry)
unfolding push_entry
groups depth [] = []
groups depth (e ∷ run) = push_entry (byte_at depth e) e (groups depth run)

unfoldable pub children : Node → List (ℕ × List Entry)
unfolding groups longer
children (run, depth) = groups depth (longer run depth)

abbrev pub set : List ℕ → ℕ → ℕ → List ℕ
set [] i v = []
set (x ∷ xs) zero v = v ∷ xs
set (x ∷ xs) (suc i) v = x ∷ set xs i v

pub record Building : Type 0 where
  pub trie : Trie
  pub pending : List Node
  pub numbered : ℕ

-- one turn of the second loop on `at`: the next child
unfoldable pub add_child : Bool → ℕ → Building → ℕ × List Entry → Building
add_child at_root depth s (byte, run) =
    let t = s.trie in
    record {
      trie = record t {
        root = if at_root then set t.root byte s.numbered else t.root;
        edge_bytes = t.edge_bytes ++ byte ∷ [];
        edge_nodes = t.edge_nodes ++ s.numbered ∷ [];
      };
      pending = s.pending ++ (run, suc depth) ∷ [];
      numbered = s.numbered + 1;
    }

unfoldable pub add_children : Bool → ℕ → Building → List (ℕ × List Entry) → Building
unfolding add_child
add_children at_root depth s [] = s
add_children at_root depth s (c ∷ rest) =
    add_children at_root depth (add_child at_root depth s c) rest

-- the offsets that every node begins with
abbrev pub start_node : Trie → List ℕ → Trie
start_node t own = record t {
  edge_start = t.edge_start ++ length t.edge_bytes ∷ [];
  id_start = t.id_start ++ length t.ids ∷ [];
  ids = t.ids ++ own;
}

-- one turn of the loop on `pending`, for the node that is taken from it
unfoldable pub write_node : Bool → Building → Node → List Node → Building
unfolding add_children own_ids children
write_node at_root s (run, depth) rest =
    add_children at_root depth
      (record s { trie = start_node s.trie (own_ids run depth); pending = rest })
      (children (run, depth))

-- the loop on `pending`, whose first turn writes the root
unfoldable pub write_nodes : ℕ → Bool → Building → Building
unfolding write_node
write_nodes zero at_root s = s
write_nodes (suc n) at_root s = elim s.pending [
  | [] ↦ s
  | node ∷ rest ↦ write_nodes n false (write_node at_root s node rest)
]

-- the order of `(Vec<u8>, u32)`
abbrev pub entry_le : Entry → Entry → Bool
entry_le e f = if str_eq e.0 f.0 then leb e.1 f.1 else bytes_le e.0 f.0

abbrev pub zeros : ℕ → List ℕ
zeros zero = []
zeros (suc n) = 0 ∷ zeros n

abbrev pub total_length : List Entry → ℕ
total_length [] = 0
total_length (e ∷ entries) = length e.0 + total_length entries

-- every node but the root ends a prefix of a string, and one turn more ends the loop
abbrev pub build_fuel : List Entry → ℕ
build_fuel entries = suc (suc (total_length entries))

abbrev pub start : List Entry → Building
start entries = record {
  trie = record empty_trie { root = zeros 256 };
  pending = (entries, 0) ∷ [];
  numbered = 1;
}

-- the offsets after the last node
abbrev pub close_trie : Trie → Trie
close_trie t = record t {
  edge_start = t.edge_start ++ length t.edge_bytes ∷ [];
  id_start = t.id_start ++ length t.ids ∷ [];
}

unfoldable pub build : List Entry → Trie
unfolding write_nodes
build entries = close_trie (write_nodes (build_fuel entries) true (start entries)).trie

-- `Trie::new`
unfoldable pub new : List Entry → Trie
unfolding build sort bytes_le str_eq
new [] = empty_trie
new (e ∷ entries) = build (sort entry_le (e ∷ entries))

-- the part of an array that belongs to a node
abbrev pub slice : List ℕ → List ℕ → ℕ → List ℕ
slice starts items node =
    let from = get_or starts node 0 in take (get_or starts (suc node) 0 - from) (drop from items)

abbrev pub child : Trie → ℕ → Option ℕ → Option ℕ
child t node none = none
child t node (some i) = some (get_or t.edge_nodes (get_or t.edge_start node 0 + i) 0)

-- the loop of `Trie::any`
unfoldable pub walk : Trie → (ℕ → Bool) → ℕ → Bytes → Bool
unfolding binary_search
walk t f node [] = any f (slice t.id_start t.ids node)
walk t f node (byte ∷ text) =
    any f (slice t.id_start t.ids node)
    || elim (child t node (binary_search (slice t.edge_start t.edge_bytes node) byte)) [
      | none ↦ false
      | some next ↦ walk t f next text
    ]

abbrev pub from_root : Trie → (ℕ → Bool) → Option ℕ → Bytes → Bool
from_root t f none text = false
from_root t f (some child) text = not (child == 0) && walk t f child text

-- `Trie::any`
unfoldable pub any_id : Trie → Bytes → (ℕ → Bool) → Bool
unfolding walk
any_id t [] f = false
any_id t (first ∷ text) f = from_root t f (get_elem? t.root first) text
