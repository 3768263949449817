-- ===== src/Policy/Pattern/Matching.antt =====
-- `HostPattern::matches` (core/crates/policy/src/pattern.rs) against the host's own name and its
-- parents.
use tollgate.Common.{
  inl, inr, ℕ, zero, suc, ◌+◌, ◌-◌, ◌≤◌, ◌≡◌, ◌≢◌, refl, ap, Bool, false, ◌&&◌, ◌||◌, [], ◌∷◌,
  arith, Bytes, lower, length-lower, length, parents, contains, str_eq, str_eq_iff, get_or, drop,
  ◌==◌, Bool-cases, strip_dot, eq_ignore_ascii_case,
}
use tollgate.Policy.Pattern.{HostPattern, matches}

-- every parent is shorter than the host
pub parents_shorter : (s n : Bytes) → length s ≤ length n → contains (parents s) n ≡ false
unfolding parents
parents_shorter [] n h = refl
parents_shorter (c ∷ s) n h = elim (Bool-cases (str_eq s n)) [
  | inl e ↦ absurd (omega (arith, ap length ((str_eq_iff s n).0 e)))
  | inr e ↦ ground (arith, parents_shorter s n)
]

-- a dot at `k`, and the name behind it
abbrev ends_under_at : ℕ → Bytes → Bytes → Bool
ends_under_at k s n = get_or s k 0 == b'.' && str_eq (drop (suc k) s) n

ends_under_at-eq :
    (k : ℕ) (s n : Bytes)
    → length s ≡ length n + suc k
    → ends_under_at k s n ≡ contains (parents s) n
unfolding parents
ends_under_at-eq zero [] n h = absurd (omega arith)
ends_under_at-eq zero (c ∷ s) n h = ground (arith, parents_shorter s n)
ends_under_at-eq (suc k) [] n h = absurd (omega arith)
ends_under_at-eq (suc k) (c ∷ s) n h = elim (Bool-cases (str_eq s n)) [
  | inl e ↦ absurd (omega (arith, ap length ((str_eq_iff s n).0 e)))
  | inr e ↦ ground (arith, ends_under_at-eq k s n)
]

drop-lower : (k : ℕ) (s : Bytes) → lower (drop k s) ≡ drop k (lower s)
unfolding lower
drop-lower zero s = refl
drop-lower (suc k) [] = refl
drop-lower (suc k) (c ∷ s) = drop-lower k s

dot-lower : (k : ℕ) (s : Bytes) → (get_or (lower s) k 0 == b'.') ≡ (get_or s k 0 == b'.')
unfolding lower
dot-lower k [] = refl
dot-lower zero (c ∷ s) = ground arith
dot-lower (suc k) (c ∷ s) = dot-lower k s

-- the host as it is looked up: without one final dot, in lower case
abbrev pub host_key : Bytes → Bytes
host_key given = lower (strip_dot given)

module _ (n host : Bytes) (low : lower n ≡ n) where
  pub longer :
      (k : ℕ)
      → length host ≡ length n + suc k
      → (get_or host k 0 == b'.' && eq_ignore_ascii_case (drop (suc k) host) n)
        ≡ contains (parents (lower host)) n
  longer k h =
      let e : length (lower host) ≡ length n + suc k = omega (arith, length-lower host) in
      rw (low, ← dot-lower k host, drop-lower (suc k) host) (ends_under_at-eq k (lower host) n e)

  -- lengths that differ
  pub not_equal : length host ≢ length n → str_eq (lower host) n ≡ false
  not_equal h = elim (Bool-cases (str_eq (lower host) n)) [
    | inl e ↦
        absurd (h (omega (arith, length-lower host, ap length ((str_eq_iff (lower host) n).0 e))))
    | inr e ↦ e
  ]

  matches_host :
      (w : Bool) (given : Bytes)
      → strip_dot given ≡ host
      → matches (record { name = n; wildcard = w }) given
        ≡ (str_eq (lower host) n || w && contains (parents (lower host)) n)
  unfolding matches
  matches_host w given e = rw e (
      ground (
        arith,
        low,
        not_equal,
        parents_shorter (lower host) n,
        length-lower host,
        longer (length host - length n - 1),
      ))

-- A pattern in lower case matches a host exactly when the host's lookup name is the pattern's name
-- or, for a `*.` pattern, has a parent that is; letter case and one final dot never matter.
pub matches-eq :
    (p : HostPattern) (given : Bytes)
    → lower p.name ≡ p.name
    → matches p given
      ≡ (str_eq (host_key given) p.name || p.wildcard && contains (parents (host_key given)) p.name)
matches-eq p given low = matches_host p.name (strip_dot given) low p.wildcard given refl
