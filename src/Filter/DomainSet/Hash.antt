-- ===== src/Filter/DomainSet/Hash.antt =====
-- The hashes of core/crates/filter/src/domain_set.rs, and its integers as bytes.
use Prim.Native.Nat.{bit_xor}
use tollgate.Common.{
  ℕ, zero, suc, ◌+◌, ◌*◌, ◌/◌, ◌%◌, ◌^◌, List, [], ◌∷◌, take, drop, Bytes, to_ascii_lowercase,
}

abbrev pub fnv_offset : ℕ
fnv_offset = 0xcbf2_9ce4_8422_2325

-- one turn of the loop on the bytes, whose product wraps
abbrev pub fnv_step : ℕ → ℕ → ℕ
fnv_step hash b = bit_xor hash b * 0x100_0000_01b3 % 2 ^ 64

unfoldable pub fnv1a64_from : ℕ → Bytes → ℕ
fnv1a64_from hash [] = hash
fnv1a64_from hash (b ∷ bytes) = fnv1a64_from (fnv_step hash (to_ascii_lowercase b)) bytes

unfoldable pub fnv1a64 : Bytes → ℕ
unfolding fnv1a64_from
fnv1a64 bytes = fnv1a64_from fnv_offset bytes

-- the hash of an entry for one host only
unfoldable pub exact_hash : Bytes → ℕ
unfolding fnv1a64 fnv1a64_from
exact_hash name = fnv1a64_from (fnv1a64 (b'|' ∷ [])) name

-- the loop of `checksum`
unfoldable pub checksum_from : ℕ → Bytes → ℕ
checksum_from hash [] = hash
checksum_from hash (b ∷ bytes) = checksum_from (fnv_step hash b) bytes

unfoldable pub checksum : Bytes → ℕ
unfolding checksum_from
checksum bytes = checksum_from fnv_offset bytes

-- `to_le_bytes`, for an integer of so many bytes
abbrev pub to_le_bytes : ℕ → ℕ → Bytes
to_le_bytes zero n = []
to_le_bytes (suc width) n = n % 256 ∷ to_le_bytes width (n / 256)

-- `from_le_bytes`
abbrev pub from_le_bytes : Bytes → ℕ
from_le_bytes [] = 0
from_le_bytes (b ∷ bytes) = b + 256 * from_le_bytes bytes

abbrev pub read_le : ℕ → Bytes → ℕ → ℕ
read_le width bytes at = from_le_bytes (take width (drop at bytes))

abbrev pub read_u32 : Bytes → ℕ → ℕ
read_u32 bytes at = read_le 4 bytes at

-- `as_chunks::<8>`, each chunk read as a `u64`
unfoldable pub chunks : ℕ → Bytes → List ℕ
chunks zero bytes = []
chunks (suc n) bytes = let rest = chunks n (drop 8 bytes) in read_le 8 bytes 0 ∷ rest
