-- ===== src/Common/Sorting.antt =====
-- `sort_unstable` on strings and on numbers, as an insertion sort: elements that are equal are the
-- same, so every sorting routine gives this list.
use mathlib.Core.Bool.{Bool, true, false, ◌&&◌, ◌||◌}
use mathlib.Core.List.{List, [], ◌∷◌}
use tollgate.Common.Tests.{ltb, ◌==◌, if◌then◌else◌}
use tollgate.Common.Lists.{any, All}
use tollgate.Common.Octets.{Bytes}
use mathlib.Core.Path.{◌≡◌, refl}
use native.Mathlib.Omega.{arith}

-- the order of `str` and `[u8]`
unfoldable pub bytes_le : Bytes → Bytes → Bool
bytes_le [] t = true
bytes_le (a ∷ s) [] = false
bytes_le (a ∷ s) (b ∷ t) = ltb a b || (a == b) && bytes_le s t

module _ {ℓ} {A : Type ℓ} where
  unfoldable pub insert_sorted : (A → A → Bool) → A → List A → List A
  insert_sorted le a [] = a ∷ []
  insert_sorted le a (b ∷ l) =
      let rest = insert_sorted le a l in if le a b then a ∷ b ∷ l else b ∷ rest

  unfoldable pub sort : (A → A → Bool) → List A → List A
  unfolding insert_sorted
  sort le [] = []
  sort le (a ∷ l) = insert_sorted le a (sort le l)

module _ {ℓ κ} {A : Type ℓ} (P : A → Type κ) (le : A → A → Bool) where
  All-insert_sorted : (a : A) (l : List A) → P a → All P l → All P (insert_sorted le a l)
  unfolding insert_sorted
  All-insert_sorted a [] p h = (p, h)
  All-insert_sorted a (b ∷ l) p h = go (le a b) (All-insert_sorted a l p h.1)
    where
      go :
          (t : Bool)
          → All P (insert_sorted le a l)
          → All P (if t then a ∷ b ∷ l else b ∷ insert_sorted le a l)
      go true k = (p, h)
      go false k = (h.0, k)

  pub All-sort : (l : List A) → All P l → All P (sort le l)
  unfolding sort
  All-sort [] h = h
  All-sort (a ∷ l) h = All-insert_sorted a (sort le l) h.0 (All-sort l h.1)

module _ {ℓ} {A : Type ℓ} (p : A → Bool) (le : A → A → Bool) where
  any-insert_sorted : (a : A) (l : List A) → any p (insert_sorted le a l) ≡ (p a || any p l)
  unfolding insert_sorted
  any-insert_sorted a [] = refl
  any-insert_sorted a (b ∷ l) = ground (arith, any-insert_sorted a l)

  pub any-sort : (l : List A) → any p (sort le l) ≡ any p l
  unfolding sort
  any-sort [] = refl
  any-sort (a ∷ l) = ground (arith, any-insert_sorted a (sort le l), any-sort l)
