-- ===== src/Common/Bits.antt =====
-- Exclusive or of natural numbers, by its lowest digit: it is below the same power of two as its
-- arguments, and it can be cancelled.
use Prim.Native.Nat.{
  ℕ, zero, suc, ◌+◌, ◌*◌, ◌/◌, ◌%◌, ◌≤◌, ◌<◌, bit_xor, digits, differ, bit_xor-bitwise,
}
use mathlib.Core.Path.{◌≡◌, refl, ◌∙◌}
use native.Mathlib.Omega.{arith}

-- the recursion that `bit_xor` stands for, on so many digits
abbrev xor_digits : ℕ → ℕ → ℕ → ℕ
xor_digits = digits (λ b. b) differ

xor_digits-more : (k m a b : ℕ) → a ≤ k → a ≤ m → xor_digits k a b ≡ xor_digits m a b
xor_digits-more zero zero a b h l = refl
xor_digits-more zero (suc m) (suc a) b h l = absurd (omega arith)
xor_digits-more zero (suc m) zero b h l = refl
xor_digits-more (suc k) zero (suc a) b h l = absurd (omega arith)
xor_digits-more (suc k) zero zero b h l = refl
xor_digits-more (suc k) (suc m) zero b h l = refl
xor_digits-more (suc k) (suc m) (suc a) b h l =
    omega (arith, xor_digits-more k m (suc a / 2) (b / 2) (omega arith) (omega arith))

xor-low : (a b : ℕ) → bit_xor a b ≡ bit_xor (a / 2) (b / 2) * 2 + differ (a % 2) (b % 2)
xor-low zero b = omega (arith, bit_xor-bitwise 0 b, bit_xor-bitwise 0 (b / 2))
xor-low (suc a) b = omega (
  arith,
  bit_xor-bitwise (suc a) b,
  bit_xor-bitwise (suc a / 2) (b / 2),
  xor_digits-more a (suc a / 2) (suc a / 2) (b / 2) (omega arith) (omega arith),
)

differ-lt : (x y : ℕ) → x < 2 → y < 2 → differ x y < 2
differ-lt zero y h k = k
differ-lt (suc x) zero h k = h
differ-lt (suc x) (suc y) h k = differ-lt x y (omega arith) (omega arith)

differ_comm : (x y : ℕ) → differ x y ≡ differ y x
differ_comm zero zero = refl
differ_comm zero (suc y) = refl
differ_comm (suc x) zero = refl
differ_comm (suc x) (suc y) = differ_comm x y

differ_cancel : (x y z : ℕ) → x < 2 → y < 2 → z < 2 → differ x y ≡ differ x z → y ≡ z
differ_cancel zero y z h k l e = e
differ_cancel (suc zero) zero zero h k l e = refl
differ_cancel (suc zero) zero (suc zero) h k l e = absurd (omega (arith, e))
differ_cancel (suc zero) (suc zero) zero h k l e = absurd (omega (arith, e))
differ_cancel (suc zero) (suc zero) (suc zero) h k l e = refl
differ_cancel (suc zero) (suc (suc y)) z h k l e = absurd (omega arith)
differ_cancel (suc zero) y (suc (suc z)) h k l e = absurd (omega arith)
differ_cancel (suc (suc x)) y z h k l e = absurd (omega arith)

xor_comm_up_to : (n a b : ℕ) → a ≤ n → b ≤ n → bit_xor a b ≡ bit_xor b a
xor_comm_up_to zero zero zero h k = refl
xor_comm_up_to zero zero (suc b) h k = absurd (omega arith)
xor_comm_up_to zero (suc a) b h k = absurd (omega arith)
xor_comm_up_to (suc n) a b h k = omega (
  arith,
  xor-low a b,
  xor-low b a,
  differ_comm (a % 2) (b % 2),
  xor_comm_up_to n (a / 2) (b / 2) (omega arith) (omega arith),
)

xor_cancel_up_to : (n a b c : ℕ) → b ≤ n → c ≤ n → bit_xor a b ≡ bit_xor a c → b ≡ c
xor_cancel_up_to zero a b c h k e = omega arith
xor_cancel_up_to (suc n) a b c h k e =
    let lt = differ-lt (a % 2) (b % 2) (omega arith) (omega arith) in
    let lt' = differ-lt (a % 2) (c % 2) (omega arith) (omega arith) in
    let high : b / 2 ≡ c / 2 =
      xor_cancel_up_to n (a / 2) (b / 2) (c / 2) (omega arith) (omega arith)
        (omega (arith, e, xor-low a b, xor-low a c, lt, lt')) in
    let low : b % 2 ≡ c % 2 =
      differ_cancel (a % 2) (b % 2) (c % 2) (omega arith) (omega arith) (omega arith)
        (omega (arith, e, xor-low a b, xor-low a c, lt, lt')) in
    omega (arith, high, low)

pub xor_cancel_left : (a b c : ℕ) → bit_xor a b ≡ bit_xor a c → b ≡ c
xor_cancel_left a b c e = xor_cancel_up_to (b + c) a b c (omega arith) (omega arith) e

pub xor_cancel_right : (a b c : ℕ) → bit_xor b a ≡ bit_xor c a → b ≡ c
xor_cancel_right a b c e = xor_cancel_left a b c (
    xor_comm_up_to (a + b) a b (omega arith) (omega arith)
    ∙ (e ∙ xor_comm_up_to (a + c) c a (omega arith) (omega arith)))

abbrev pub two_to : ℕ → ℕ
two_to zero = 1
two_to (suc k) = 2 * two_to k

pub xor-lt : (k a b : ℕ) → a < two_to k → b < two_to k → bit_xor a b < two_to k
xor-lt zero zero zero h l = omega (arith, bit_xor-bitwise 0 0)
xor-lt zero zero (suc b) h l = absurd (omega arith)
xor-lt zero (suc a) b h l = absurd (omega arith)
xor-lt (suc k) a b h l = omega (
  arith,
  xor-low a b,
  differ-lt (a % 2) (b % 2) (omega arith) (omega arith),
  xor-lt k (a / 2) (b / 2) (omega arith) (omega arith),
)
