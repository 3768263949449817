-- ===== src/Common/Lists.antt =====
-- Lists measured and indexed by native numbers, and Boolean quantifiers over them.
use Prim.Native.Nat.{ℕ, zero, suc, ◌+◌, ◌-◌, ◌≤◌, min}
use mathlib.Core.Path.{◌≡◌, refl, ap, ◌∙◌}
use mathlib.Core.Bool.{Bool, true, false, not, ◌&&◌, ◌||◌}
use mathlib.Core.List.{List, [], ◌∷◌, ◌++◌}
use mathlib.Core.Option.{Option, none, some}
use native.Mathlib.Omega.{arith}
use tollgate.Common.Tests.{if◌then◌else◌}

module _ {ℓ} {A : Type ℓ} where
  abbrev pub length : List A → ℕ
  length [] = 0
  length (x ∷ xs) = suc (length xs)

  abbrev pub is_empty : List A → Bool
  is_empty [] = true
  is_empty (x ∷ xs) = false

  abbrev pub get_elem? : List A → ℕ → Option A
  get_elem? [] i = none
  get_elem? (x ∷ xs) zero = some x
  get_elem? (x ∷ xs) (suc i) = get_elem? xs i

  abbrev pub get_or : List A → ℕ → A → A
  get_or [] i d = d
  get_or (x ∷ xs) zero d = x
  get_or (x ∷ xs) (suc i) d = get_or xs i d

  abbrev pub take : ℕ → List A → List A
  take zero xs = []
  take (suc n) [] = []
  take (suc n) (x ∷ xs) = x ∷ take n xs

  abbrev pub drop : ℕ → List A → List A
  drop zero xs = xs
  drop (suc n) [] = []
  drop (suc n) (x ∷ xs) = drop n xs

  abbrev pub any : (A → Bool) → List A → Bool
  any p [] = false
  any p (x ∷ xs) = p x || any p xs

  abbrev pub all : (A → Bool) → List A → Bool
  all p [] = true
  all p (x ∷ xs) = p x && all p xs

  -- `Vec::retain`
  unfoldable pub retain : (A → Bool) → List A → List A
  retain p [] = []
  retain p (x ∷ xs) = let rest = retain p xs in if p x then x ∷ rest else rest

  abbrev pub All {κ} : (A → Type κ) → List A → Type κ
  All P [] = Unit
  All P (x ∷ xs) = P x × All P xs

  pub length-append : (xs ys : List A) → length (xs ++ ys) ≡ length xs + length ys
  length-append [] ys = omega arith
  length-append (x ∷ xs) ys = omega (arith, length-append xs ys)

  pub length-take : (n : ℕ) (xs : List A) → length (take n xs) ≡ min n (length xs)
  length-take zero xs = ground arith
  length-take (suc n) [] = ground arith
  length-take (suc n) (x ∷ xs) = ground (arith, length-take n xs)

  pub length-drop : (n : ℕ) (xs : List A) → length (drop n xs) ≡ length xs - n
  length-drop zero xs = omega arith
  length-drop (suc n) [] = omega arith
  length-drop (suc n) (x ∷ xs) = omega (arith, length-drop n xs)

  pub drop-nil : (n : ℕ) → drop n [] ≡ []
  drop-nil zero = refl
  drop-nil (suc n) = refl

  pub drop-drop : (n m : ℕ) (xs : List A) → drop n (drop m xs) ≡ drop (m + n) xs
  drop-drop n zero xs = ap (λ k. drop k xs) (omega arith)
  drop-drop n (suc m) [] =
      let shift : suc (m + n) ≡ suc m + n = omega arith in drop-nil n ∙ ap (λ k. drop k []) shift
  drop-drop n (suc m) (x ∷ xs) =
      let shift : suc (m + n) ≡ suc m + n = omega arith in
      drop-drop n m xs ∙ ap (λ k. drop k (x ∷ xs)) shift

  pub append_nil : (l : List A) → l ++ [] ≡ l
  append_nil [] = refl
  append_nil (x ∷ l) = ap (λ t. x ∷ t) (append_nil l)

  pub append_assoc : (k l m : List A) → (k ++ l) ++ m ≡ k ++ (l ++ m)
  append_assoc [] l m = refl
  append_assoc (x ∷ k) l m = ap (λ t. x ∷ t) (append_assoc k l m)

  pub take-append : (k l : List A) (n : ℕ) → n ≡ length k → take n (k ++ l) ≡ k
  take-append [] l n h = rw h
  take-append (x ∷ k) l zero h = absurd (omega arith)
  take-append (x ∷ k) l (suc n) h = ap (λ t. x ∷ t) (take-append k l n (omega arith))

  pub drop-append : (k l : List A) (n m : ℕ) → n ≡ length k + m → drop n (k ++ l) ≡ drop m l
  drop-append [] l n m h = ap (λ k. drop k l) (omega (arith, h))
  drop-append (x ∷ k) l zero m h = absurd (omega arith)
  drop-append (x ∷ k) l (suc n) m h = drop-append k l n m (omega arith)

  pub length-retain-le : (p : A → Bool) (xs : List A) → length (retain p xs) ≤ length xs
  unfolding retain
  length-retain-le p [] = omega arith
  length-retain-le p (x ∷ xs) = ground (arith, length-retain-le p xs)

  pub any-retain : (p q : A → Bool) (xs : List A) → any p (retain q xs) ≡ any (λ x. q x && p x) xs
  unfolding retain
  any-retain p q [] = refl
  any-retain p q (x ∷ xs) = ground (arith, any-retain p q xs)

  pub any-append : (p : A → Bool) (xs ys : List A) → any p (xs ++ ys) ≡ (any p xs || any p ys)
  any-append p [] ys = refl
  any-append p (x ∷ xs) ys = ground (arith, any-append p xs ys)

module _ {ℓ} {A : Type ℓ} (p q : A → Bool) where
  either : (xs : List A) → (any (λ x. q x && p x) xs || any (λ x. not (q x) && p x) xs) ≡ any p xs
  either [] = refl
  either (x ∷ xs) = ground (arith, either xs)

  -- the elements that pass a test and those that fail it are all elements
  pub any-partition : (xs : List A) → any p (retain q xs ++ retain (λ x. not (q x)) xs) ≡ any p xs
  any-partition xs =
      any-append p (retain q xs) (retain (λ x. not (q x)) xs)
      ∙ (ap (λ b. b || any p (retain (λ x. not (q x)) xs)) (any-retain p q xs)
          ∙ (ap (λ b. any (λ x. q x && p x) xs || b) (any-retain p (λ x. not (q x)) xs)
              ∙ either xs))

module _ {ℓ κ} {A : Type ℓ} (P : A → Type κ) where
  pub All-append : (xs ys : List A) → All P xs → All P ys → All P (xs ++ ys)
  All-append [] ys h k = k
  All-append (x ∷ xs) ys h k = (h.0, All-append xs ys h.1 k)

  pub All-retain : (p : A → Bool) (xs : List A) → All P xs → All P (retain p xs)
  unfolding retain
  All-retain p [] h = h
  All-retain p (x ∷ xs) h = go (p x) (All-retain p xs h.1)
    where
      go : (b : Bool) → All P (retain p xs) → All P (if b then x ∷ retain p xs else retain p xs)
      go true k = (h.0, k)
      go false k = k
