-- ===== src/Common/BinarySearch.antt =====
-- `slice::binary_search` on numbers: the standard library's loop, and what it finds in a list that
-- rises.
use Prim.Native.Nat.{ℕ, zero, suc, ◌+◌, ◌-◌, ◌/◌, ◌≤◌, ◌<◌}
use mathlib.Core.Path.{◌≡◌, refl, ap, sym, ◌∙◌}
use mathlib.Core.Logic.{◌⊎◌, inl, inr}
use mathlib.Core.Bool.{true, false}
use mathlib.Core.Option.{Option, none, some}
use mathlib.Core.List.{List, [], ◌∷◌}
use native.Mathlib.Omega.{arith}
use tollgate.Common.Tests.{ltb, ◌==◌, if◌then◌else◌, Bool-cases, is_some, ltb→lt, ==_iff}
use tollgate.Common.Lists.{length, get_or, any}

-- the loop, on `size` elements from `base`; its result is the last `base`
unfoldable pub search_from : ℕ → List ℕ → ℕ → ℕ → ℕ → ℕ
search_from zero l key base size = base
search_from (suc n) l key base size =
    let mid = base + size / 2 in
    let rest =
      search_from n l key (if ltb key (get_or l mid 0) then base else mid) (size - size / 2) in
    if ltb 1 size then rest else base

-- the comparison after the loop
abbrev pub found_at : List ℕ → ℕ → ℕ → Option ℕ
found_at l key base = if get_or l base 0 == key then some base else none

unfoldable pub binary_search : List ℕ → ℕ → Option ℕ
binary_search [] key = none
binary_search (a ∷ l) key =
    found_at (a ∷ l) key (search_from (length (a ∷ l)) (a ∷ l) key 0 (length (a ∷ l)))

-- Each number is above the one before it.
abbrev pub Rises : List ℕ → Type 0
Rises [] = Unit
Rises (a ∷ []) = Unit
Rises (a ∷ b ∷ l) = (a < b) × Rises (b ∷ l)

Rises-tail : (a : ℕ) (l : List ℕ) → Rises (a ∷ l) → Rises l
Rises-tail a [] r = tt
Rises-tail a (b ∷ l) r = r.1

Rises-head : (a : ℕ) (l : List ℕ) (j : ℕ) → Rises (a ∷ l) → j < length l → a < get_or l j 0
Rises-head a [] j r h = absurd (omega arith)
Rises-head a (b ∷ l) zero r h = r.0
Rises-head a (b ∷ l) (suc j) r h = omega (arith, r.0, Rises-head b l j r.1 (omega arith))

pub Rises-get_or :
    (l : List ℕ) (i j : ℕ) → Rises l → i < j → j < length l → get_or l i 0 < get_or l j 0
Rises-get_or [] i j r h k = absurd (omega arith)
Rises-get_or (a ∷ l) i zero r h k = absurd (omega arith)
Rises-get_or (a ∷ l) zero (suc j) r h k = Rises-head a l j r (omega arith)
Rises-get_or (a ∷ l) (suc i) (suc j) r h k =
    Rises-get_or l i j (Rises-tail a l r) (omega arith) (omega arith)

lt_trichotomy : (a b : ℕ) → (a < b) ⊎ (a ≡ b) ⊎ (b < a)
lt_trichotomy a b = elim (Bool-cases (ltb a b)) [
  | inl e ↦ inl (ground arith)
  | inr e ↦ elim (Bool-cases (a == b)) [
    | inl d ↦ inr (inl (ground arith))
    | inr d ↦ inr (inr (ground arith))
  ]
]

Rises-above :
    (l : List ℕ) (mid j : ℕ) → Rises l → j < length l → get_or l j 0 < get_or l mid 0 → j < mid
Rises-above l mid j r h k = elim (lt_trichotomy j mid) [
  | inl less ↦ less
  | inr (inl same) ↦ absurd (omega (arith, ap (λ i. get_or l i 0) same))
  | inr (inr more) ↦ absurd (omega (arith, Rises-get_or l mid j r more h))
]

Rises-below :
    (l : List ℕ) (mid j : ℕ) → Rises l → mid < length l → get_or l mid 0 ≤ get_or l j 0 → mid ≤ j
Rises-below l mid j r h k = elim (lt_trichotomy j mid) [
  | inl less ↦ absurd (omega (arith, Rises-get_or l j mid r less h))
  | inr (inl same) ↦ omega arith
  | inr (inr more) ↦ omega arith
]

-- where a number stands, the loop ends
search_from-finds :
    (n : ℕ) (l : List ℕ) (key base size j : ℕ)
    → Rises l
    → size ≤ suc n
    → base ≤ j
    → j < base + size
    → base + size ≤ length l
    → get_or l j 0 ≡ key
    → search_from n l key base size ≡ j
unfolding search_from
search_from-finds zero l key base size j r fuel lo hi fits e = omega arith
search_from-finds (suc n) l key base size j r fuel lo hi fits e = elim (Bool-cases (ltb 1 size)) [
  | inr one ↦ rw one (ground arith)
  | inl more ↦ rw more (elim (Bool-cases (ltb key (get_or l (base + size / 2) 0))) [
    | inl below ↦ rw below (
        search_from-finds n l key base (size - size / 2) j r (omega (arith, ltb→lt 1 size more)) lo
          (omega (
            arith,
            Rises-above l (base + size / 2) j r (omega arith) (ground arith),
            ltb→lt 1 size more,
          ))
          (omega arith) e)
    | inr above ↦ rw above (
        search_from-finds n l key (base + size / 2) (size - size / 2) j r
          (omega (arith, ltb→lt 1 size more))
          (Rises-below l (base + size / 2) j r (omega (arith, ltb→lt 1 size more)) (ground arith))
          (omega arith) (omega arith) e)
  ])
]

pub any_index :
    (l : List ℕ) (key : ℕ)
    → any (λ x. x == key) l ≡ true
    → (j : ℕ) × (j < length l) × (get_or l j 0 ≡ key)
any_index [] key h = cc
any_index (a ∷ l) key h = elim (Bool-cases (a == key)) [
  | inl e ↦ (0, omega arith, (==_iff a key).0 e)
  | inr e ↦ let (j, less, same) = any_index l key (ground arith) in (suc j, omega arith, same)
]

index_any :
    (l : List ℕ) (key j : ℕ) → j < length l → get_or l j 0 ≡ key → any (λ x. x == key) l ≡ true
index_any [] key j h e = absurd (omega arith)
index_any (a ∷ l) key zero h e = ground arith
index_any (a ∷ l) key (suc j) h e = ground (arith, index_any l key j)

search_from-lt :
    (n : ℕ) (l : List ℕ) (key base size : ℕ)
    → base + size ≤ length l
    → base < length l
    → search_from n l key base size < length l
unfolding search_from
search_from-lt zero l key base size fits less = less
search_from-lt (suc n) l key base size fits less =
    let next = if ltb key (get_or l (base + size / 2) 0) then base else base + size / 2 in
    ground (arith, search_from-lt n l key next (size - size / 2))

found_at-some :
    (l : List ℕ) (key base : ℕ)
    → get_or l base 0 ≡ key
    → any (λ x. x == key) l ≡ true
    → is_some (found_at l key base) ≡ any (λ x. x == key) l
found_at-some l key base e h = ground arith

found_at-none :
    (l : List ℕ) (key base : ℕ)
    → base < length l
    → any (λ x. x == key) l ≡ false
    → is_some (found_at l key base) ≡ any (λ x. x == key) l
found_at-none l key base less h = ground (arith, index_any l key base less)

-- In a list that rises the search finds exactly the numbers that are there.
pub binary_search-any :
    (l : List ℕ) (key : ℕ) → Rises l → is_some (binary_search l key) ≡ any (λ x. x == key) l
unfolding binary_search
binary_search-any [] key r = refl
binary_search-any (a ∷ l) key r = elim (Bool-cases (any (λ x. x == key) (a ∷ l))) [
  | inl there ↦
      let (j, less, same) = any_index (a ∷ l) key there in
      let n = length (a ∷ l) in
      let e : search_from n (a ∷ l) key 0 n ≡ j =
        search_from-finds n (a ∷ l) key 0 n j r (omega arith) (omega arith) (omega arith)
          (omega arith) same in
      found_at-some (a ∷ l) key (search_from n (a ∷ l) key 0 n)
        (ap (λ i. get_or (a ∷ l) i 0) e ∙ same) there
  | inr gone ↦
      let n = length (a ∷ l) in
      found_at-none (a ∷ l) key (search_from n (a ∷ l) key 0 n)
        (search_from-lt n (a ∷ l) key 0 n (omega arith) (omega arith)) gone
]

found_at-index : (l : List ℕ) (key base i : ℕ) → found_at l key base ≡ some i → get_or l i 0 ≡ key
found_at-index l key base i h = elim (Bool-cases (get_or l base 0 == key)) [
  | inl e ↦
      let same : base ≡ i = ground arith in
      ap (λ j. get_or l j 0) (sym same) ∙ (==_iff (get_or l base 0) key).0 e
  | inr e ↦ absurd (ground arith)
]

pub binary_search-index :
    (l : List ℕ) (key i : ℕ) → binary_search l key ≡ some i → get_or l i 0 ≡ key
unfolding binary_search
binary_search-index [] key i h = absurd (ground arith)
binary_search-index (a ∷ l) key i h =
    found_at-index (a ∷ l) key (search_from (length (a ∷ l)) (a ∷ l) key 0 (length (a ∷ l))) i h

found_at-lt :
    (l : List ℕ) (key base i : ℕ) → base < length l → found_at l key base ≡ some i → i < length l
found_at-lt l key base i less h = elim (Bool-cases (get_or l base 0 == key)) [
  | inl e ↦ let same : base ≡ i = ground arith in omega (arith, same)
  | inr e ↦ absurd (ground arith)
]

pub binary_search-lt : (l : List ℕ) (key i : ℕ) → binary_search l key ≡ some i → i < length l
unfolding binary_search
binary_search-lt [] key i h = absurd (ground arith)
binary_search-lt (a ∷ l) key i h =
    let n = length (a ∷ l) in
    found_at-lt (a ∷ l) key (search_from n (a ∷ l) key 0 n) i
      (search_from-lt n (a ∷ l) key 0 n (omega arith) (omega arith)) h
