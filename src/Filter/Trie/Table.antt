-- ===== src/Filter/Trie/Table.antt =====
-- The table of the root of a `Trie` (core/crates/filter/src/wildcard.rs).
use tollgate.Common.{
  ℕ, zero, suc, ◌+◌, ◌≤◌, ◌<◌, ◌≡◌, refl, ◌∙◌, ap, Bool, false, none, some, List, [], ◌∷◌, arith,
  ◌==◌, if◌then◌else◌, length, is_empty, get_elem?, any, All,
}
use tollgate.Common.BinarySearch.{Rises}
use tollgate.Filter.Trie.{Entry, own_ids, set, zeros}
use tollgate.Filter.Wildcard.Ends.{is_prefix}
use tollgate.Filter.Trie.Groups.{Group, bytes_of, found}
use tollgate.Filter.Trie.Finished.{place}
use tollgate.Filter.Trie.Walks.{Rises-rest}

-- A key that can be filed: bytes, at least one.
abbrev pub IsKey : Entry → Type 0
IsKey e = (is_empty e.0 ≡ false) × All (λ b. b < 256) e.0

length-set : (l : List ℕ) (i v : ℕ) → length (set l i v) ≡ length l
length-set [] i v = refl
length-set (x ∷ l) zero v = refl
length-set (x ∷ l) (suc i) v = ap suc (length-set l i v)

get_elem?-set_self : (l : List ℕ) (i v : ℕ) → i < length l → get_elem? (set l i v) i ≡ some v
get_elem?-set_self [] i v h = absurd (omega arith)
get_elem?-set_self (x ∷ l) zero v h = refl
get_elem?-set_self (x ∷ l) (suc i) v h = get_elem?-set_self l i v (omega arith)

get_elem?-set_other :
    (l : List ℕ) (i j v : ℕ) → (i == j) ≡ false → get_elem? (set l i v) j ≡ get_elem? l j
get_elem?-set_other [] i j v h = refl
get_elem?-set_other (x ∷ l) zero zero v h = absurd (ground arith)
get_elem?-set_other (x ∷ l) zero (suc j) v h = refl
get_elem?-set_other (x ∷ l) (suc i) zero v h = refl
get_elem?-set_other (x ∷ l) (suc i) (suc j) v h = get_elem?-set_other l i j v (ground arith)

pub length-place : (l : List ℕ) (n : ℕ) (cs : List Group) → length (place l n cs) ≡ length l
length-place l n [] = refl
length-place l n (c ∷ cs) = length-place (set l c.0 n) (n + 1) cs ∙ length-set l c.0 n

pub place-none :
    (l : List ℕ) (n b : ℕ) (cs : List Group)
    → any (λ x. x == b) (bytes_of cs) ≡ false
    → get_elem? (place l n cs) b ≡ get_elem? l b
place-none l n b [] h = refl
place-none l n b (c ∷ cs) h =
    place-none (set l c.0 n) (n + 1) b cs (ground arith)
    ∙ get_elem?-set_other l c.0 b n (ground arith)

-- later children are of greater bytes
later_bytes :
    (a b : ℕ) (cs : List Group)
    → Rises (a ∷ bytes_of cs)
    → b ≤ a
    → any (λ x. x == b) (bytes_of cs) ≡ false
later_bytes a b [] r h = refl
later_bytes a b (c ∷ cs) r h = ground (arith, later_bytes c.0 b cs r.1)

pub place-some :
    (l : List ℕ) (n b i : ℕ) (cs : List Group) (r : List Entry)
    → Rises (bytes_of cs)
    → b < length l
    → get_elem? cs i ≡ some (b, r)
    → get_elem? (place l n cs) b ≡ some (n + i)
place-some l n b i [] r rises h e = absurd (ground arith)
place-some l n b zero (c ∷ cs) r rises h e =
    let same : c.0 ≡ b = ground arith in
    place-none (set l c.0 n) (n + 1) b cs (later_bytes c.0 b cs rises (omega (arith, same)))
    ∙ (ap (λ k. get_elem? (set l k n) b) same
        ∙ (get_elem?-set_self l b n h ∙ ap some (omega arith)))
place-some l n b (suc i) (c ∷ cs) r rises h e =
    place-some (set l c.0 n) (n + 1) b i cs r (Rises-rest c cs rises)
      (omega (arith, length-set l c.0 n)) e
    ∙ ap some (omega arith)

pub get_elem?-none : (l : List ℕ) (i : ℕ) → length l ≤ i → get_elem? l i ≡ none
get_elem?-none [] i h = refl
get_elem?-none (x ∷ l) zero h = absurd (omega arith)
get_elem?-none (x ∷ l) (suc i) h = get_elem?-none l i (omega arith)

pub get_elem?-zeros : (n i : ℕ) → i < n → get_elem? (zeros n) i ≡ some 0
get_elem?-zeros zero i h = absurd (omega arith)
get_elem?-zeros (suc n) zero h = refl
get_elem?-zeros (suc n) (suc i) h = get_elem?-zeros n i (omega arith)

pub no_own : (run : List Entry) → All IsKey run → own_ids run 0 ≡ []
unfolding own_ids
no_own [] h = refl
no_own ((k, id) ∷ run) h = go k h.0.0
  where
    go :
        (key : List ℕ)
        → is_empty key ≡ false
        → (let rest = own_ids run 0 in if length key == 0 then id ∷ rest else []) ≡ []
    go [] e = absurd (ground arith)
    go (c ∷ key) e = ground arith

-- no key starts with what is no byte
pub no_byte :
    (f : ℕ → Bool) (run : List Entry) (first : ℕ) (text : List ℕ)
    → All IsKey run
    → 256 ≤ first
    → found f 0 run (first ∷ text) ≡ false
unfolding is_prefix
no_byte f [] first text h more = refl
no_byte f (([], id) ∷ run) first text h more = absurd (ground (arith, h.0.0))
no_byte f ((c ∷ k, id) ∷ run) first text h more =
    ground (arith, h.0.1.0, no_byte f run first text h.1 more)
