-- ===== src/Dns/Local/Under.antt =====
-- `is_local_name` of core/crates/dns/src/local.rs against the name's own spelling and its parents.
use tollgate.Common.{
  ◌-◌, ◌≡◌, refl, Bool, true, false, not, ◌&&◌, ◌||◌, List, [], ◌∷◌, ◌++◌, ◌==◌, arith, Bytes,
  lower, length-lower, length, parents, contains, str_eq, if◌then◌else◌, is_empty, any, all,
  strip_dot, Bool-cases, inl, inr, str_eq_iff,
}
use tollgate.Policy.Pattern.Matching.{host_key, parents_shorter, longer, not_equal}
use tollgate.Dns.Local.{local_suffixes, local_reverse_zones, under, is_local_name}

under-eq :
    (name suffix : Bytes)
    → lower suffix ≡ suffix
    → under name suffix ≡ contains (lower name ∷ parents (lower name)) suffix
unfolding under
under-eq name suffix low = ground (
  arith,
  low,
  not_equal suffix name low,
  parents_shorter (lower name) suffix,
  length-lower name,
  longer suffix name low (length name - length suffix - 1),
)

any-under :
    (name : Bytes) (suffixes : List Bytes)
    → all (λ s. str_eq (lower s) s) suffixes ≡ true
    → any (λ s. under name s) suffixes
      ≡ any (λ s. contains (lower name ∷ parents (lower name)) s) suffixes
any-under name [] low = refl
any-under name (s ∷ suffixes) low = elim (Bool-cases (str_eq (lower s) s)) [
  | inl e ↦
      (let rest = any-under name suffixes (ground (arith, low, e)) in
        rw (under-eq name s ((str_eq_iff (lower s) s).0 e), rest) refl)
  | inr e ↦ absurd (ground (arith, low, e))
]

suffixes_lower : all (λ s. str_eq (lower s) s) (local_suffixes ++ local_reverse_zones) ≡ true
unfolding str_eq lower
suffixes_lower = refl

dots-lower : (s : Bytes) → any (λ b. b == b'.') (lower s) ≡ any (λ b. b == b'.') s
unfolding lower
dots-lower [] = refl
dots-lower (c ∷ s) = ground (arith, dots-lower s)

is_empty-lower : (s : Bytes) → is_empty (lower s) ≡ is_empty s
unfolding lower
is_empty-lower [] = refl
is_empty-lower (c ∷ s) = refl

if_not : (b c : Bool) → (if b then false else c) ≡ (not b && c)
if_not true c = refl
if_not false c = refl

-- A name is local exactly when, without one final dot and in lower case, it is not empty and
-- either has a single label, or is one of the listed suffixes and reverse zones or has one among
-- its parents.
pub is_local_name-eq :
    (given : Bytes)
    → is_local_name given ≡ (
        not (is_empty (host_key given))
        && (not (any (λ b. b == b'.') (host_key given))
            || any
                (λ s. contains (host_key given ∷ parents (host_key given)) s)
                (local_suffixes ++ local_reverse_zones)))
unfolding is_local_name
is_local_name-eq given =
    let name = strip_dot given in
    rw
      (
        dots-lower name,
        is_empty-lower name,
        ← any-under name (local_suffixes ++ local_reverse_zones) suffixes_lower,
      )
      (if_not (is_empty name) _)
