-- ===== src/Dns/Wire/Bounds.antt =====
-- The positions that core/crates/dns/src/wire.rs finds in a message.
use Prim.Native.Nat.{bit_and}
use tollgate.Common.{
  ℕ, zero, suc, ◌+◌, ◌-◌, ◌≤◌, ◌<◌, ◌≡◌, Bool, true, false, Option, none, some, [], ◌∷◌, unwrap_or,
  length, get_elem?, Bytes, arith, refl, sym, ◌&&◌, ◌==◌, leb, if◌then◌else◌,
}
use mathlib.Core.Option.{some_inj}
use tollgate.Dns.Wire.{
  Skip, stop, on, pointer_end, skip_len, skip_label, skip_from, skip_name, max_name_len,
}

pub get_elem?-lt : (msg : Bytes) (i v : ℕ) → get_elem? msg i ≡ some v → i < length msg
get_elem?-lt [] i v h = ground (arith, h)
get_elem?-lt (x ∷ msg) zero v h = omega arith
get_elem?-lt (x ∷ msg) (suc i) v h = omega (arith, get_elem?-lt msg i v h)

-- where a turn may leave the name
IsTurn : Bytes → ℕ → ℕ → Bool → Skip → Type 0
IsTurn msg start at ptr (stop none) = Unit
IsTurn msg start at ptr (stop (some e)) =
    (at < e) × (e ≤ length msg) × (e ≤ at + 2) × (ptr ≡ false → e ≤ at + 1)
IsTurn msg start at ptr (on at') = (at < at') × (at < length msg) × (at' - start < max_name_len)

pointer_end-IsTurn :
    (msg : Bytes) (start at : ℕ) (ptr : Bool) (o : Option ℕ)
    → ptr ≡ true
    → ((v : ℕ) → o ≡ some v → at + 1 < length msg)
    → IsTurn msg start at ptr (pointer_end o at)
unfolding IsTurn
pointer_end-IsTurn msg start at ptr none p lt = tt
pointer_end-IsTurn msg start at ptr (some v) p lt =
    let within = lt v refl in (omega arith, omega (arith, within), omega arith, ground (arith, p))

if-IsTurn :
    (msg : Bytes) (start at : ℕ) (ptr b : Bool) (u v : Skip)
    → (b ≡ true → IsTurn msg start at ptr u)
    → (b ≡ false → IsTurn msg start at ptr v)
    → IsTurn msg start at ptr (if b then u else v)
if-IsTurn msg start at ptr true u v t f = t refl
if-IsTurn msg start at ptr false u v t f = f refl

skip_len-IsTurn :
    (msg : Bytes) (start at len : ℕ) (ptr : Bool)
    → at < length msg
    → IsTurn msg start at ptr (skip_len msg start at ptr len)
unfolding IsTurn
skip_len-IsTurn msg start at len ptr here =
    if-IsTurn msg start at ptr (bit_and len 0xc0 == 0) _ _
      (λ _.
        if-IsTurn msg start at ptr (len == 0) _ _
          (λ _. (omega arith, omega (arith, here), omega arith, λ _. omega arith))
          (λ _.
            if-IsTurn msg start at ptr (leb max_name_len (at + (1 + len) - start)) _ _ (λ _. tt)
              (λ short. (omega arith, here, ground (arith, short)))))
      (λ _.
        if-IsTurn msg start at ptr (bit_and len 0xc0 == 0xc0 && ptr) _ _
          (λ both.
            pointer_end-IsTurn msg start at ptr (get_elem? msg (at + 1)) (ground (arith, both))
              (get_elem?-lt msg (at + 1)))
          (λ _. tt))

skip_label-IsTurn :
    (msg : Bytes) (start at : ℕ) (ptr : Bool)
    → IsTurn msg start at ptr (skip_label msg start at ptr)
unfolding skip_label IsTurn
skip_label-IsTurn msg start at ptr = go (get_elem? msg at) (get_elem?-lt msg at)
  where
    go :
        (o : Option ℕ)
        → ((v : ℕ) → o ≡ some v → at < length msg)
        → IsTurn msg start at ptr
            (elim o [ none ↦ stop none | some len ↦ skip_len msg start at ptr len ])
    go none lt = tt
    go (some len) lt = skip_len-IsTurn msg start at len ptr (lt len refl)

-- the end of a name, and the longest it can be
IsNameEnd : Bytes → ℕ → ℕ → Bool → Option ℕ → Type 0
IsNameEnd msg start at ptr none = Unit
IsNameEnd msg start at ptr (some e) =
    (at < e) × (e ≤ length msg) × (e - start ≤ 256) × (ptr ≡ false → e - start ≤ 255)

-- the loop ends on its fuel, and its result
Ends : Bytes → ℕ → ℕ → Bool → Option (Option ℕ) → Type 0
Ends msg start at ptr none = ⊥
Ends msg start at ptr (some r) = IsNameEnd msg start at ptr r

skip_from-Ends :
    (n : ℕ) (msg : Bytes) (start at : ℕ) (ptr : Bool)
    → start ≤ at
    → at - start < max_name_len
    → 0 < n
    → length msg < at + n
    → Ends msg start at ptr (skip_from n msg start at ptr)
unfolding Ends skip_from IsTurn IsNameEnd
skip_from-Ends zero msg start at ptr from short some_fuel fuel = absurd (omega (arith, some_fuel))
skip_from-Ends (suc n) msg start at ptr from short some_fuel fuel =
    go (skip_label msg start at ptr) (skip_label-IsTurn msg start at ptr)
      (λ at' further here short'.
        skip_from-Ends n msg start at' ptr (omega (arith, from, further)) short'
          (omega (arith, here, fuel)) (omega (arith, further, fuel)))
  where
    later :
        (at' : ℕ)
        → at < at'
        → (r : Option (Option ℕ)) → Ends msg start at' ptr r
        → Ends msg start at ptr r
    later at' lt none h = elim h [ ]
    later at' lt (some none) h = tt
    later at' lt (some (some e)) (after, inside, long, plain) =
        (omega (arith, lt, after), inside, long, plain)

    go :
        (u : Skip)
        → IsTurn msg start at ptr u
        → ((at' : ℕ)
            → at < at'
            → at < length msg
            → at' - start < max_name_len
            → Ends msg start at' ptr (skip_from n msg start at' ptr))
        → Ends msg start at ptr
            (elim u [ stop r ↦ some r | on at' ↦ skip_from n msg start at' ptr ])
    go (stop none) h rest = tt
    go (stop (some e)) (after, inside, close, plain) rest =
        (after, inside, omega (arith, short, close), λ p. omega (arith, short, plain p))
    go (on at') (further, here, short') rest =
        later at' further (skip_from n msg start at' ptr) (rest at' further here short')

-- The loop of `skip_name` ends on its fuel, whatever the message, and the end it finds lies
-- after `at`, within the message, and at most 255 bytes from `at` where the name may not be
-- compressed, 256 where it may.
pub skip_name-bounds :
    (msg : Bytes) (at : ℕ) (ptr : Bool)
    → (skip_from (suc (length msg)) msg at at ptr ≡ some (skip_name msg at ptr))
      × ((e : ℕ)
          → skip_name msg at ptr ≡ some e
          → (at < e) × (e ≤ length msg) × (e - at ≤ 256) × (ptr ≡ false → e - at ≤ 255))
unfolding skip_name Ends IsNameEnd
skip_name-bounds msg at ptr = go (skip_from (suc (length msg)) msg at at ptr) (
    skip_from-Ends (suc (length msg)) msg at at ptr (omega arith) (omega arith) (omega arith)
      (omega arith))
  where
    go :
        (r : Option (Option ℕ))
        → Ends msg at at ptr r
        → (r ≡ some (unwrap_or r none))
          × ((e : ℕ)
              → unwrap_or r none ≡ some e
              → (at < e) × (e ≤ length msg) × (e - at ≤ 256) × (ptr ≡ false → e - at ≤ 255))
    go none h = elim h [ ]
    go (some none) h = (refl, λ e eq. absurd (ground (arith, eq)))
    go (some (some e)) h = (refl, λ e' eq. rw (sym (some_inj.0 eq)) h)
