-- ===== src/Filter/Trie/Sorted.antt =====
-- The entries of a `Trie`, sorted (core/crates/filter/src/wildcard.rs).
use tollgate.Common.{
  ◌≤◌, ◌≡◌, refl, ◌∙◌, sym, ap, true, false, List, [], ◌∷◌, arith, length, All, Bytes, str_eq,
  str_eq_iff, Bool-cases, inl, inr,
}
use tollgate.Common.Sorting.{bytes_le, insert_sorted, sort}
use tollgate.Filter.Trie.{Entry, entry_le, total_length}
use tollgate.Filter.Trie.Runs.{Good, Ordered}
use tollgate.Filter.Trie.Groups.{weight}

bytes_le_refl : (s : Bytes) → bytes_le s s ≡ true
unfolding bytes_le
bytes_le_refl [] = refl
bytes_le_refl (a ∷ s) = ground (arith, bytes_le_refl s)

bytes_le_total : (s t : Bytes) → bytes_le s t ≡ false → bytes_le t s ≡ true
unfolding bytes_le
bytes_le_total [] t h = absurd (ground arith)
bytes_le_total (a ∷ s) [] h = refl
bytes_le_total (a ∷ s) (b ∷ t) h = ground (arith, bytes_le_total s t)

le-of_entry_le : (e f : Entry) → entry_le e f ≡ true → bytes_le e.0 f.0 ≡ true
le-of_entry_le e f h = elim (Bool-cases (str_eq e.0 f.0)) [
  | inl same ↦ ap (bytes_le e.0) (sym ((str_eq_iff e.0 f.0).0 same)) ∙ bytes_le_refl e.0
  | inr other ↦ ground arith
]

ge-of_entry_le : (e f : Entry) → entry_le e f ≡ false → bytes_le f.0 e.0 ≡ true
ge-of_entry_le e f h = elim (Bool-cases (str_eq e.0 f.0)) [
  | inl same ↦ ap (bytes_le f.0) ((str_eq_iff e.0 f.0).0 same) ∙ bytes_le_refl f.0
  | inr other ↦ bytes_le_total e.0 f.0 (ground arith)
]

-- an entry may stand before a run
abbrev Before : Entry → List Entry → Type 0
Before e [] = Unit
Before e (f ∷ run) = bytes_le e.0 f.0 ≡ true

Ordered-cons : (e : Entry) (run : List Entry) → Before e run → Ordered 0 run → Ordered 0 (e ∷ run)
Ordered-cons e [] h o = tt
Ordered-cons e (f ∷ run) h o = (h, o)

Ordered-tail : (e : Entry) (run : List Entry) → Ordered 0 (e ∷ run) → Before e run × Ordered 0 run
Ordered-tail e [] o = (tt, tt)
Ordered-tail e (f ∷ run) o = o

Before-insert :
    (b e : Entry) (run : List Entry)
    → bytes_le b.0 e.0 ≡ true
    → Before b run
    → Before b (insert_sorted entry_le e run)
unfolding insert_sorted
Before-insert b e [] h o = h
Before-insert b e (f ∷ run) h o = elim (Bool-cases (entry_le e f)) [
  | inl x ↦ rw x h
  | inr x ↦ rw x o
]

insert_sorted-Ordered :
    (e : Entry) (run : List Entry) → Ordered 0 run → Ordered 0 (insert_sorted entry_le e run)
unfolding insert_sorted
insert_sorted-Ordered e [] o = tt
insert_sorted-Ordered e (f ∷ run) o = elim (Bool-cases (entry_le e f)) [
  | inl x ↦ rw x (le-of_entry_le e f x, o)
  | inr x ↦ rw x (
      let (before, rest) = Ordered-tail f run o in
      Ordered-cons f (insert_sorted entry_le e run)
        (Before-insert f e run (ge-of_entry_le e f x) before) (insert_sorted-Ordered e run rest))
]

sort-Ordered : (entries : List Entry) → Ordered 0 (sort entry_le entries)
unfolding sort
sort-Ordered [] = tt
sort-Ordered (e ∷ entries) = insert_sorted-Ordered e (sort entry_le entries) (sort-Ordered entries)

all_long : (run : List Entry) → All (λ e. 0 ≤ length e.0) run
all_long [] = tt
all_long (e ∷ run) = (omega arith, all_long run)

pub sort-Good : (entries : List Entry) → Good (sort entry_le entries) 0
sort-Good entries = record {
  ordered = sort-Ordered entries;
  long = all_long (sort entry_le entries);
}

pub weight-total_length : (run : List Entry) → weight 0 run ≡ total_length run
weight-total_length [] = refl
weight-total_length (e ∷ run) = omega (arith, weight-total_length run)
