-- ===== src/Filter/DomainSet/Changed.antt =====
-- A changed byte changes the checksum (core/crates/filter/src/domain_set.rs).
use Prim.Native.Nat.{bit_xor}
use tollgate.Common.{ℕ, ◌*◌, ◌%◌, ◌^◌, ◌<◌, ◌≡◌, ◌∙◌, sym, ap, [], ◌∷◌, ◌++◌, arith, Bytes}
use tollgate.Common.Bits.{xor_cancel_left, xor_cancel_right, xor-lt}
use tollgate.Filter.PatternSet.Filing.{AllBytes}
use tollgate.Filter.DomainSet.Hash.{fnv_step, checksum_from}
use tollgate.Filter.DomainSet.Rising.{IsU64}

-- the factor is odd, so its product can be taken back
divided : (a : ℕ) → IsU64 a → (a * 0x100_0000_01b3 % 2 ^ 64) * 0xce96_5057_aff6_957b % 2 ^ 64 ≡ a
divided a h = omega arith

product_cancel :
    (a b : ℕ)
    → IsU64 a
    → IsU64 b
    → a * 0x100_0000_01b3 % 2 ^ 64 ≡ b * 0x100_0000_01b3 % 2 ^ 64
    → a ≡ b
product_cancel a b h k e =
    sym (divided a h) ∙ (ap (λ x. x * 0xce96_5057_aff6_957b % 2 ^ 64) e ∙ divided b k)

xor-IsU64 : (a b : ℕ) → IsU64 a → IsU64 b → IsU64 (bit_xor a b)
xor-IsU64 a b h k = xor-lt 64 a b h k

fnv_step-state : (a b x : ℕ) → IsU64 a → IsU64 b → IsU64 x → fnv_step a x ≡ fnv_step b x → a ≡ b
fnv_step-state a b x h k l e =
    xor_cancel_right x a b
      (product_cancel (bit_xor a x) (bit_xor b x) (xor-IsU64 a x h l) (xor-IsU64 b x k l) e)

fnv_step-byte : (a x y : ℕ) → IsU64 a → IsU64 x → IsU64 y → fnv_step a x ≡ fnv_step a y → x ≡ y
fnv_step-byte a x y h k l e =
    xor_cancel_left a x y
      (product_cancel (bit_xor a x) (bit_xor a y) (xor-IsU64 a x h k) (xor-IsU64 a y h l) e)

fnv_step-IsU64 : (a x : ℕ) → IsU64 (fnv_step a x)
fnv_step-IsU64 a x = omega arith

checksum_from-state :
    (a b : ℕ) (s : Bytes)
    → IsU64 a
    → IsU64 b
    → AllBytes s
    → checksum_from a s ≡ checksum_from b s
    → a ≡ b
unfolding checksum_from
checksum_from-state a b [] h k l e = e
checksum_from-state a b (x ∷ s) h k l e = fnv_step-state a b x h k (omega (arith, l.0)) (
    checksum_from-state (fnv_step a x) (fnv_step b x) s (fnv_step-IsU64 a x) (fnv_step-IsU64 b x)
      l.1 e)

-- one changed byte changes the checksum
pub checksum_from-byte :
    (a : ℕ) (front : Bytes) (x y : ℕ) (rest : Bytes)
    → IsU64 a
    → x < 256
    → y < 256
    → AllBytes rest
    → checksum_from a (front ++ x ∷ rest) ≡ checksum_from a (front ++ y ∷ rest)
    → x ≡ y
unfolding checksum_from
checksum_from-byte a [] x y rest h k l m e = fnv_step-byte a x y h (omega arith) (omega arith) (
    checksum_from-state (fnv_step a x) (fnv_step a y) rest (fnv_step-IsU64 a x) (fnv_step-IsU64 a y)
      m e)
checksum_from-byte a (c ∷ front) x y rest h k l m e =
    checksum_from-byte (fnv_step a c) front x y rest (fnv_step-IsU64 a c) k l m e
