-- ===== src/Filter/DomainSet/Read.antt =====
-- Integers and hashes written and read (core/crates/filter/src/domain_set.rs).
use tollgate.Common.{
  ℕ, zero, suc, ◌*◌, ◌/◌, ◌<◌, ◌≡◌, refl, ◌∙◌, ap, List, [], ◌∷◌, ◌++◌, arith, length, All, Bytes,
}
use tollgate.Filter.DomainSet.Hash.{to_le_bytes, from_le_bytes, chunks}
use tollgate.Filter.DomainSet.Encode.{hash_bytes}
use tollgate.Filter.DomainSet.Rising.{IsU64}

-- what fits in so many bytes
abbrev pub bytes_limit : ℕ → ℕ
bytes_limit zero = 1
bytes_limit (suc width) = 256 * bytes_limit width

pub from_le_bytes-to_le_bytes :
    (width n : ℕ) → n < bytes_limit width → from_le_bytes (to_le_bytes width n) ≡ n
from_le_bytes-to_le_bytes zero n h = omega (arith, h)
from_le_bytes-to_le_bytes (suc width) n h =
    omega (arith, from_le_bytes-to_le_bytes width (n / 256) (omega (arith, h)))

pub length-hash_bytes : (l : List ℕ) → length (hash_bytes l) ≡ 8 * length l
unfolding hash_bytes
length-hash_bytes [] = omega arith
length-hash_bytes (hash ∷ l) = omega (arith, length-hash_bytes l)

pub chunks-hash_bytes :
    (l : List ℕ) (rest : Bytes) → All IsU64 l → chunks (length l) (hash_bytes l ++ rest) ≡ l
unfolding chunks hash_bytes
chunks-hash_bytes [] rest h = refl
chunks-hash_bytes (hash ∷ l) rest h =
    ap (λ x. x ∷ chunks (length l) (hash_bytes l ++ rest))
      (from_le_bytes-to_le_bytes 8 hash (omega (arith, h.0)))
    ∙ ap (λ t. hash ∷ t) (chunks-hash_bytes l rest h.1)
