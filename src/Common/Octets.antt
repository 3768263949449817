-- ===== src/Common/Octets.antt =====
-- Rust's `&str` and `&[u8]` as lists of bytes: equality, letter case, and the pieces of a host
-- name between its dots.
use Prim.Native.Nat.{ℕ, suc, ◌+◌}
use Prim.Native.Char.{code}
use Prim.Native.String.{String}
use mathlib.Core.Path.{◌≡◌, refl, ap}
use mathlib.Core.Logic.{◌↔◌}
use mathlib.Core.Bool.{Bool, true, false, ◌&&◌}
use mathlib.Core.List.{List, [], ◌∷◌, map}
use mathlib.Core.Option.{Option, none, some}
use native.Mathlib.Omega.{arith}
use tollgate.Common.Tests.{leb, ◌==◌, if◌then◌else◌, unwrap_or}
use tollgate.Common.Lists.{length, any}

abbrev pub Bytes : Type 0
Bytes = List ℕ

-- the bytes of an ASCII literal
abbrev pub codes : String → Bytes
codes String.[] = []
codes (String.◌∷◌ c s) = code c ∷ codes s

unfoldable pub str_eq : Bytes → Bytes → Bool
str_eq [] [] = true
str_eq (a ∷ s) (b ∷ t) = a == b && str_eq s t
str_eq _ _ = false

pub str_eq_iff : (s t : Bytes) → (str_eq s t ≡ true) ↔ (s ≡ t)
unfolding str_eq
str_eq_iff [] [] = ground arith
str_eq_iff [] (b ∷ t) = ground arith
str_eq_iff (a ∷ s) [] = ground arith
str_eq_iff (a ∷ s) (b ∷ t) = ground (arith, str_eq_iff s t)

pub str_eq_refl : (s : Bytes) → str_eq s s ≡ true
str_eq_refl s = (str_eq_iff s s).1 refl

-- `HashSet::contains`
abbrev pub contains : List Bytes → Bytes → Bool
contains l s = any (λ t. str_eq t s) l

-- `u8::to_ascii_lowercase`
abbrev pub to_ascii_lowercase : ℕ → ℕ
to_ascii_lowercase c = if leb b'A' c && leb c b'Z' then c + 32 else c

-- `str::to_ascii_lowercase`
unfoldable pub lower : Bytes → Bytes
lower = map to_ascii_lowercase

pub lower-idempotent : (s : Bytes) → lower (lower s) ≡ lower s
unfolding lower
lower-idempotent [] = refl
lower-idempotent (c ∷ s) = ground (arith, lower-idempotent s)

pub length-lower : (s : Bytes) → length (lower s) ≡ length s
unfolding lower
length-lower [] = refl
length-lower (c ∷ s) = ap suc (length-lower s)

-- `[u8]::eq_ignore_ascii_case`
abbrev pub eq_ignore_ascii_case : Bytes → Bytes → Bool
eq_ignore_ascii_case s t = str_eq (lower s) (lower t)

-- `str::strip_suffix` and `str::strip_prefix` with one character
unfoldable pub strip_suffix : ℕ → Bytes → Option Bytes
strip_suffix c [] = none
strip_suffix c (x ∷ []) = if x == c then some [] else none
strip_suffix c (x ∷ y ∷ s) = elim (strip_suffix c (y ∷ s)) [ none ↦ none | some t ↦ some (x ∷ t) ]

unfoldable pub strip_prefix : ℕ → Bytes → Option Bytes
strip_prefix c [] = none
strip_prefix c (x ∷ s) = if x == c then some s else none

-- `host.strip_suffix('.').unwrap_or(host)`
abbrev pub strip_dot : Bytes → Bytes
strip_dot s = unwrap_or (strip_suffix b'.' s) s

-- `name.match_indices('.').map(|(i, _)| &name[i + 1..])`
unfoldable pub parents : Bytes → List Bytes
parents [] = []
parents (c ∷ s) = let rest = parents s in if c == b'.' then s ∷ rest else rest
