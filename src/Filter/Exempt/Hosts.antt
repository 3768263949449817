-- ===== src/Filter/Exempt/Hosts.antt =====
-- The hosts that a block of each kind covers, and those that core/crates/filter/src/exempt.rs
-- exempts.
use tollgate.Common.{
  ◌≡◌, refl, ap, sym, ◌∙◌, Bool, true, false, ◌&&◌, ◌||◌, List, [], ◌∷◌, ◌++◌, ◌==◌, arith, Bytes,
  any, contains, str_eq, str_eq_iff, str_eq_refl, lower, parents, trim, Bool-cases, subst, drop,
  inl, inr, ◌⊎◌,
}
use tollgate.Filter.Wildcard.{glob_matches}
use tollgate.Filter.Exempt.{
  Exemption, domain_and_name, new, covers_host, covers_subtree, covers_pattern,
  matches_some_name_under, matches_above,
}
use tollgate.Filter.Exempt.Covers.{exempts, is_above, covers_host-new, covers_subtree-new}
use tollgate.Filter.Exempt.Under.{matches_some_name_under-safe}

pub any-find :
    (p : Bytes → Bool) (l : List Bytes)
    → any p l ≡ true
    → (x : Bytes) × (contains l x ≡ true) × (p x ≡ true)
any-find p [] h = absurd (ground arith)
any-find p (x ∷ l) h = elim (Bool-cases (p x)) [
  | inl e ↦ (x, rw (str_eq_refl x) refl, e)
  | inr e ↦ (let (y, m, q) = any-find p l (ground (arith, e, h)) in (y, ground (arith, m), q))
]

any-contains :
    (p : Bytes → Bool) (l : List Bytes) (x : Bytes)
    → contains l x ≡ true
    → p x ≡ true
    → any p l ≡ true
any-contains p [] x m h = absurd (ground arith)
any-contains p (y ∷ l) x m h = elim (Bool-cases (str_eq y x)) [
  | inl e ↦ rw ((str_eq_iff y x).0 e, h) refl
  | inr e ↦ ground (arith, any-contains p l x (ground (arith, e, m)) h)
]

-- of two names that a name is or is under, one is the other or is under it
abbrev Comparable : Bytes → Bytes → Type 0
Comparable x y = (contains (y ∷ parents y) x || contains (parents x) y) ≡ true

first_related : (k y : Bytes) → contains (k ∷ parents k) y ≡ true → Comparable k y × Comparable y k
first_related k y h = elim (Bool-cases (str_eq k y)) [
  | inl e ↦ rw ((str_eq_iff k y).0 e, str_eq_refl y) (refl, refl)
  | inr e ↦ ground (arith, e, h)
]

related :
    (k x y : Bytes)
    → contains (k ∷ parents k) x ≡ true
    → contains (k ∷ parents k) y ≡ true
    → Comparable x y
unfolding parents
related [] x y hx hy =
    subst (λ k. Comparable k y) ((str_eq_iff [] x).0 (ground (arith, hx))) (first_related [] y hy).0
related (c ∷ s) x y hx hy = elim (Bool-cases (str_eq (c ∷ s) x)) [
  | inl e ↦
      (let same = (str_eq_iff (c ∷ s) x).0 e in
        subst (λ k. Comparable k y) same (first_related (c ∷ s) y hy).0)
  | inr e ↦ elim (Bool-cases (str_eq (c ∷ s) y)) [
    | inl f ↦
        (let same = (str_eq_iff (c ∷ s) y).0 f in
          subst (Comparable x) same (first_related (c ∷ s) x hx).1)
    | inr f ↦ elim (Bool-cases (c == b'.')) [
      | inl dot ↦ related s x y (ground (arith, dot, e, hx)) (ground (arith, dot, f, hy))
      | inr plain ↦ related s x y (ground (arith, plain, e, hx)) (ground (arith, plain, f, hy))
    ]
  ]
]

parent-dotted : (k x : Bytes) → contains (parents k) x ≡ true → (u : Bytes) × (k ≡ u ++ b'.' ∷ x)
unfolding parents
parent-dotted [] x h = absurd (ground arith)
parent-dotted (c ∷ s) x h = elim (Bool-cases (c == b'.' && str_eq s x)) [
  | inl e ↦ ([], ground (arith, e, str_eq_iff s x))
  | inr e ↦ (let (u, f) = parent-dotted s x (ground (arith, e, h)) in (c ∷ u, ap (λ t. c ∷ t) f))
]

parent-lower : (k x : Bytes) → lower k ≡ k → contains (parents k) x ≡ true → lower x ≡ x
unfolding parents lower
parent-lower [] x low h = absurd (ground arith)
parent-lower (c ∷ s) x low h = elim (Bool-cases (c == b'.' && str_eq s x)) [
  | inl e ↦ subst (λ t. lower t ≡ t) ((str_eq_iff s x).0 (ground (arith, e))) (ap (drop 1) low)
  | inr e ↦ parent-lower s x (ap (drop 1) low) (ground (arith, e, h))
]

member-lower : (k x : Bytes) → lower k ≡ k → contains (k ∷ parents k) x ≡ true → lower x ≡ x
member-lower k x low h = elim (Bool-cases (str_eq k x)) [
  | inl e ↦ subst (λ t. lower t ≡ t) ((str_eq_iff k x).0 e) low
  | inr e ↦ parent-lower k x low (ground (arith, e, h))
]

-- one exempt pattern, and a name that the host is or is under
exempts-subtree :
    (p : Bool × Bytes) (k name : Bytes)
    → exempts p k ≡ true
    → contains (k ∷ parents k) name ≡ true
    → (exempts p name || is_above name p) ≡ true
exempts-subtree (true, n) k name h m = ground (arith, h, related k n name (ground (arith, h)) m)
exempts-subtree (false, n) k name h m =
    ground (arith, h, m, str_eq_iff k n, str_eq_iff k name, str_eq_iff name n, str_eq_refl name)

any-or : (p q : Bytes → Bool) (l : List Bytes) → any (λ x. p x || q x) l ≡ (any p l || any q l)
any-or p q [] = refl
any-or p q (x ∷ l) = ground (arith, any-or p q l)

-- A block of a name and its subdomains that covers an exempt host is found to.
pub covers_subtree-safe :
    (ps : List Bytes) (k name : Bytes)
    → covers_host (new ps) k ≡ true
    → contains (k ∷ parents k) name ≡ true
    → covers_subtree (new ps) name ≡ true
covers_subtree-safe ps k name h m =
    let (p, m', e) =
      any-find (λ p. exempts (domain_and_name (trim p)) k) ps (sym (covers_host-new ps k) ∙ h) in
    rw (covers_subtree-new ps name) (
      sym (
        any-or (λ p. exempts (domain_and_name (trim p)) name)
          (λ p. is_above name (domain_and_name (trim p))) ps)
      ∙ any-contains
          (λ p. exempts (domain_and_name (trim p)) name || is_above name (domain_and_name (trim p)))
          ps p m' (exempts-subtree (domain_and_name (trim p)) k name e m))

module _ (e : Exemption) (glob : Bytes) (above : Bool) where
  -- what is asked of an exempt `*.n`
  abbrev hits_domain : Bytes → Bool
  hits_domain n =
      glob_matches glob n || (matches_some_name_under glob n || matches_above glob above n)

  name_hit :
      (y n : Bytes)
      → lower y ≡ y
      → contains (y ∷ parents y) n ≡ true
      → glob_matches glob y ≡ true
      → hits_domain n ≡ true
  name_hit y n low m h = elim (Bool-cases (str_eq y n)) [
    | inl same ↦ subst (λ t. hits_domain t ≡ true) ((str_eq_iff y n).0 same) (rw h refl)
    | inr other ↦
        (let under : contains (parents y) n ≡ true = ground (arith, other, m) in
          let (u, dotted) = parent-dotted y n under in
          let found =
            matches_some_name_under-safe glob n u (parent-lower y n low under) (rw (← dotted) h) in
          ground (arith, found))
  ]

  above_hit :
      (y n : Bytes)
      → above ≡ true
      → contains (parents n) y ≡ true
      → glob_matches glob y ≡ true
      → matches_above glob above n ≡ true
  above_hit y n up m h = rw up (any-contains (glob_matches glob) (parents n) y m h)

  domain_hit :
      (k y n : Bytes)
      → lower k ≡ k
      → contains (k ∷ parents k) y ≡ true
      → contains (k ∷ parents k) n ≡ true
      → above ≡ true
      → glob_matches glob y ≡ true
      → hits_domain n ≡ true
  domain_hit k y n low my mn up h = elim (Bool-cases (contains (parents n) y)) [
    | inl over ↦ ground (arith, above_hit y n up over h)
    | inr under ↦
        name_hit y n (member-lower k y low my) (ground (arith, under, related k n y mn my)) h
  ]

  covers_domain :
      (n : Bytes)
      → contains e.domains n ≡ true
      → hits_domain n ≡ true
      → covers_pattern e glob above ≡ true
  unfolding covers_pattern
  covers_domain n m h = rw (any-contains hits_domain e.domains n m h) refl

  covers_exact :
      (k : Bytes)
      → contains e.hosts k ≡ true
      → (glob_matches glob k || matches_above glob above k) ≡ true
      → covers_pattern e glob above ≡ true
  unfolding covers_pattern
  covers_exact k m h =
      ground
        (arith, any-contains (λ n. glob_matches glob n || matches_above glob above n) e.hosts k m h)

  covers_host-found :
      (k : Bytes)
      → covers_host e k ≡ true
      → (contains e.hosts k ≡ true)
        ⊎ ((n : Bytes) × (contains (k ∷ parents k) n ≡ true) × (contains e.domains n ≡ true))
  unfolding covers_host
  covers_host-found k h = elim (Bool-cases (contains e.hosts k)) [
    | inl exact ↦ inl exact
    | inr other ↦ inr (any-find (contains e.domains) (k ∷ parents k) (ground (arith, other, h)))
  ]

  -- A wildcard block that matches an exempt host is found to cover it.
  pub covers_pattern-safe :
      (k : Bytes)
      → lower k ≡ k
      → covers_host e k ≡ true
      → glob_matches glob k ≡ true
      → covers_pattern e glob above ≡ true
  covers_pattern-safe k low h hit = elim (covers_host-found k h) [
    | inl exact ↦ covers_exact k exact (rw hit refl)
    | inr (n, m, d) ↦ covers_domain n d (name_hit k n low m hit)
  ]

  -- One that also matches parents is found to cover an exempt host under a name that it matches.
  pub covers_pattern-safe_above :
      (k y : Bytes)
      → lower k ≡ k
      → above ≡ true
      → covers_host e k ≡ true
      → contains (parents k) y ≡ true
      → glob_matches glob y ≡ true
      → covers_pattern e glob above ≡ true
  covers_pattern-safe_above k y low up h m hit = elim (covers_host-found k h) [
    | inl exact ↦ covers_exact k exact (ground (arith, above_hit y k up m hit))
    | inr (n, m', d) ↦ covers_domain n d (domain_hit k y n low (ground (arith, m)) m' up hit)
  ]
