-- ===== src/Common/HashMap.antt =====
-- `std::collections::HashMap` with string keys, as an association list whose order stands for
-- the iteration order of the map.
use Prim.Native.Nat.{ℕ, ◌+◌, ◌≤◌, ◌<◌}
use mathlib.Core.Path.{◌≡◌, refl}
use mathlib.Core.Logic.{◌≢◌}
use mathlib.Core.Bool.{Bool}
use mathlib.Core.Option.{Option, none, some}
use mathlib.Core.List.{List, [], ◌∷◌}
use native.Mathlib.Omega.{arith}
use tollgate.Common.Tests.{if◌then◌else◌, is_some, is_some_and, ltb}
use tollgate.Common.Lists.{length}
use tollgate.Common.Octets.{Bytes, str_eq, str_eq_iff}

abbrev pub HashMap {ℓ} : Type ℓ → Type ℓ
HashMap V = List (Bytes × V)

module _ {ℓ} {V : Type ℓ} where
  unfoldable pub get : HashMap V → Bytes → Option V
  get [] k = none
  get ((j, v) ∷ m) k = if str_eq j k then some v else get m k

  abbrev pub contains_key : HashMap V → Bytes → Bool
  contains_key m k = is_some (get m k)

  -- replaces the value of a key that is there
  unfoldable pub insert : HashMap V → Bytes → V → HashMap V
  insert [] k v = (k, v) ∷ []
  insert ((j, w) ∷ m) k v =
      let rest = insert m k v in if str_eq j k then (k, v) ∷ m else (j, w) ∷ rest

  unfoldable pub remove : HashMap V → Bytes → HashMap V
  remove [] k = []
  remove ((j, v) ∷ m) k = let rest = remove m k in if str_eq j k then rest else (j, v) ∷ rest

  unfoldable pub retain : (V → Bool) → HashMap V → HashMap V
  retain p [] = []
  retain p ((j, v) ∷ m) = let rest = retain p m in if p v then (j, v) ∷ rest else rest

  -- `map.iter().min_by_key(|(_, v)| last(v))`: the first entry of the least time
  unfoldable pub min_by_key : (V → ℕ) → HashMap V → Option (Bytes × V)
  min_by_key last [] = none
  min_by_key last ((j, v) ∷ m) = elim (min_by_key last m) [
    | none ↦ some (j, v)
    | some (k, w) ↦ if ltb (last w) (last v) then some (k, w) else some (j, v)
  ]

  -- No key is there twice.
  abbrev pub IsDistinct : HashMap V → Type ℓ
  IsDistinct [] = Unit
  IsDistinct ((j, v) ∷ m) = (get m j ≡ none) × IsDistinct m

  pub get-insert :
      (m : HashMap V) (k j : Bytes) (v : V)
      → get (insert m k v) j ≡ (if str_eq k j then some v else get m j)
  unfolding get insert
  get-insert [] k j v = refl
  get-insert ((i, w) ∷ m) k j v =
      ground (arith, str_eq_iff i k, str_eq_iff i j, str_eq_iff k j, get-insert m k j v)

  pub get-remove :
      (m : HashMap V) (k j : Bytes) → get (remove m k) j ≡ (if str_eq k j then none else get m j)
  unfolding get remove
  get-remove [] k j = ground arith
  get-remove ((i, w) ∷ m) k j =
      ground (arith, str_eq_iff i k, str_eq_iff i j, str_eq_iff k j, get-remove m k j)

  get-retain-none :
      (p : V → Bool) (m : HashMap V) (k : Bytes) → get m k ≡ none → get (retain p m) k ≡ none
  unfolding get retain
  get-retain-none p [] k h = refl
  get-retain-none p ((i, w) ∷ m) k h = ground (arith, get-retain-none p m k)

  pub get-retain :
      (p : V → Bool) (m : HashMap V) (k : Bytes)
      → IsDistinct m
      → get (retain p m) k ≡ (if is_some_and (get m k) p then get m k else none)
  unfolding get retain
  get-retain p [] k d = refl
  get-retain p ((i, w) ∷ m) k d =
      ground (arith, str_eq_iff i k, get-retain p m k, get-retain-none p m i)

  pub insert-IsDistinct :
      (m : HashMap V) (k : Bytes) (v : V) → IsDistinct m → IsDistinct (insert m k v)
  unfolding insert get
  insert-IsDistinct [] k v d = (refl, tt)
  insert-IsDistinct ((i, w) ∷ m) k v d =
      ground (arith, str_eq_iff i k, str_eq_iff k i, get-insert m k i v, insert-IsDistinct m k v)

  pub remove-IsDistinct : (m : HashMap V) (k : Bytes) → IsDistinct m → IsDistinct (remove m k)
  unfolding remove
  remove-IsDistinct [] k d = tt
  remove-IsDistinct ((i, w) ∷ m) k d = ground (arith, get-remove m k i, remove-IsDistinct m k)

  pub retain-IsDistinct : (p : V → Bool) (m : HashMap V) → IsDistinct m → IsDistinct (retain p m)
  unfolding retain
  retain-IsDistinct p [] d = tt
  retain-IsDistinct p ((i, w) ∷ m) d = ground (arith, get-retain-none p m i, retain-IsDistinct p m)

  pub length-insert :
      (m : HashMap V) (k : Bytes) (v : V)
      → length (insert m k v) ≡ (if contains_key m k then length m else length m + 1)
  unfolding insert get
  length-insert [] k v = omega arith
  length-insert ((i, w) ∷ m) k v = ground (arith, length-insert m k v)

  pub length-remove-le : (m : HashMap V) (k : Bytes) → length (remove m k) ≤ length m
  unfolding remove
  length-remove-le [] k = omega arith
  length-remove-le ((i, w) ∷ m) k = ground (arith, length-remove-le m k)

  pub length-remove-lt :
      (m : HashMap V) (k : Bytes) → get m k ≢ none → length (remove m k) < length m
  unfolding remove get
  length-remove-lt [] k h = absurd (h refl)
  length-remove-lt ((i, w) ∷ m) k h = ground (arith, length-remove-le m k, length-remove-lt m k)

  pub length-retain-le : (p : V → Bool) (m : HashMap V) → length (retain p m) ≤ length m
  unfolding retain
  length-retain-le p [] = omega arith
  length-retain-le p ((i, w) ∷ m) = ground (arith, length-retain-le p m)

  pub remove-insert : (m : HashMap V) (k : Bytes) (v : V) → remove (insert m k v) k ≡ remove m k
  unfolding remove insert
  remove-insert [] k v = ground (arith, str_eq_iff k k)
  remove-insert ((i, w) ∷ m) k v = ground (arith, str_eq_iff k k, remove-insert m k v)

  pub remove_absent : (m : HashMap V) (k : Bytes) → get m k ≡ none → remove m k ≡ m
  unfolding remove get
  remove_absent [] k h = refl
  remove_absent ((i, w) ∷ m) k h = ground (arith, remove_absent m k)

  pub length-remove :
      (m : HashMap V) (k : Bytes) → IsDistinct m → length m ≤ length (remove m k) + 1
  unfolding remove
  length-remove [] k d = omega arith
  length-remove ((i, w) ∷ m) k d =
      ground (arith, remove_absent m k, str_eq_iff i k, length-remove m k)

  pub length-insert-le :
      (m : HashMap V) (k : Bytes) (v : V)
      → IsDistinct m
      → length (insert m k v) ≤ length (remove m k) + 1
  length-insert-le m k v d =
      ground (arith, length-insert m k v, length-remove m k d, remove_absent m k)

  pub length-remove-retain :
      (p : V → Bool) (m : HashMap V) (k : Bytes)
      → length (remove (retain p m) k) ≤ length (remove m k)
  unfolding remove retain
  length-remove-retain p [] k = omega arith
  length-remove-retain p ((i, w) ∷ m) k = ground (arith, length-remove-retain p m k)
