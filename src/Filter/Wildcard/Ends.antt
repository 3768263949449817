-- ===== src/Filter/Wildcard/Ends.antt =====
-- The literal head and tail of a pattern of core/crates/filter/src/wildcard.rs, and the texts that it
-- fits.
use tollgate.Common.{
  ℕ, zero, suc, ◌≡◌, ◌∙◌, refl, ap, sym, Bool, true, false, ◌&&◌, [], ◌∷◌, ◌++◌, ◌==◌, arith, Bytes,
  any, lower, to_ascii_lowercase, drop, take, Bool-cases, inl, inr, ==_iff, parents,
}
use mathlib.Core.List.{reverse, reverse-append, reverse-cons}
use tollgate.Filter.Wildcard.{Pattern, head, tail, glob_matches, matches}
use tollgate.Filter.Wildcard.Stars.{fits, fits_star, fits_literal}
use tollgate.Filter.Wildcard.Globs.{glob_matches-fits}

-- A text that ends with another.
abbrev pub Ends : Bytes → Bytes → Type 0
Ends s t = (p : Bytes) × (s ≡ p ++ t)

append_assoc : (p q r : Bytes) → p ++ (q ++ r) ≡ (p ++ q) ++ r
append_assoc [] q r = refl
append_assoc (x ∷ p) q r = ap (λ l. x ∷ l) (append_assoc p q r)

pub lower-append : (s t : Bytes) → lower (s ++ t) ≡ lower s ++ lower t
unfolding lower
lower-append [] t = refl
lower-append (x ∷ s) t = ap (λ l. to_ascii_lowercase x ∷ l) (lower-append s t)

take-drop : (n : ℕ) (s : Bytes) → take n s ++ drop n s ≡ s
take-drop zero s = refl
take-drop (suc n) [] = refl
take-drop (suc n) (x ∷ s) = ap (λ l. x ∷ l) (take-drop n s)

-- without a `*` a pattern fits itself only
pub fits-plain : (g t : Bytes) → any (λ b. b == b'*') g ≡ false → fits g t ≡ true → lower t ≡ g
unfolding fits lower
fits-plain [] [] plain h = refl
fits-plain [] (x ∷ t) plain h = absurd (ground (arith, h))
fits-plain (b ∷ g) [] plain h = absurd (ground (arith, plain, h))
fits-plain (b ∷ g) (x ∷ t) plain h =
    let rest = fits-plain g t (ground (arith, plain)) (ground (arith, plain, h)) in
    let same : b ≡ to_ascii_lowercase x = ground (arith, plain, h) in rw (rest, sym same) refl

pub Ends-drop : (j : ℕ) (t s : Bytes) → Ends (lower (drop j t)) s → Ends (lower t) s
Ends-drop j t s (p, e) = (
  lower (take j t) ++ p,
  ap lower (sym (take-drop j t))
      ∙ lower-append (take j t) (drop j t)
      ∙ ap (λ l. lower (take j t) ++ l) e
      ∙ append_assoc (lower (take j t)) p s,
)

-- a text that fits ends with the pattern's literal tail
pub fits-Ends :
    (g t : Bytes) → any (λ b. b == b'*') g ≡ true → fits g t ≡ true → Ends (lower t) (tail g)
unfolding tail
fits-Ends [] t stars h = absurd (ground (arith, stars))
fits-Ends (b ∷ g) t stars h = elim (Bool-cases (any (λ c. c == b'*') g)) [
  | inl more ↦ rw more (elim (Bool-cases (b == b'*')) [
    | inl star ↦
        (let (j, later) = fits_star g t (rw ((==_iff b b'*').0 star) at h) in
          Ends-drop j t (tail g) (fits-Ends g (drop j t) more later))
    | inr lit ↦ Ends-drop 1 t (tail g) (fits-Ends g (drop 1 t) more (fits_literal b g t lit h))
  ])
  | inr last ↦
      (let star : (b == b'*') ≡ true = ground (arith, stars, last) in
        let (j, later) = fits_star g t (rw ((==_iff b b'*').0 star) at h) in
        rw (last, star) (Ends-drop j t g ([], fits-plain g (drop j t) last later)))
]

tail-plain : (g : Bytes) → any (λ b. b == b'*') g ≡ false → tail g ≡ g
unfolding tail
tail-plain [] h = refl
tail-plain (b ∷ g) h = ground arith

fits-Ends-tail : (g t : Bytes) → fits g t ≡ true → Ends (lower t) (tail g)
fits-Ends-tail g t h = elim (Bool-cases (any (λ b. b == b'*') g)) [
  | inl stars ↦ fits-Ends g t stars h
  | inr plain ↦ ([], fits-plain g t plain h ∙ sym (tail-plain g plain))
]

glob_matches-Ends : (g t : Bytes) → glob_matches g t ≡ true → Ends (lower t) (tail g)
glob_matches-Ends g t h = fits-Ends-tail g t (sym (glob_matches-fits g t).1 ∙ h)

-- a parent's end is the name's
parents-Ends : (g t : Bytes) → any (glob_matches g) (parents t) ≡ true → Ends (lower t) (tail g)
unfolding parents
parents-Ends g [] h = absurd (ground arith)
parents-Ends g (c ∷ t) h = elim (Bool-cases (any (glob_matches g) (parents t))) [
  | inl later ↦ Ends-drop 1 (c ∷ t) (tail g) (parents-Ends g t later)
  | inr none_later ↦ Ends-drop 1 (c ∷ t) (tail g) (glob_matches-Ends g t (ground arith))
]

pub matches-Ends :
    (p : Pattern) (host : Bytes) → matches p host ≡ true → Ends (lower host) (tail p.glob)
unfolding matches
matches-Ends p host h = elim (Bool-cases (glob_matches p.glob host)) [
  | inl e ↦ glob_matches-Ends p.glob host e
  | inr e ↦ parents-Ends p.glob host (ground arith)
]

-- whether a text starts with a literal
unfoldable pub is_prefix : Bytes → Bytes → Bool
is_prefix [] text = true
is_prefix (k ∷ key) [] = false
is_prefix (k ∷ key) (c ∷ text) = k == c && is_prefix key text

is_prefix-append : (k t : Bytes) → is_prefix k (k ++ t) ≡ true
unfolding is_prefix
is_prefix-append [] t = refl
is_prefix-append (c ∷ k) t = ground (arith, is_prefix-append k t)

lower-reverse : (s : Bytes) → lower (reverse s) ≡ reverse (lower s)
lower-reverse [] = unfold lower in refl
lower-reverse (c ∷ s) =
    ap lower (reverse-cons c s)
    ∙ (lower-append (reverse s) (c ∷ [])
        ∙ (ap (λ l. l ++ lower (c ∷ [])) (lower-reverse s)
            ∙ (unfold lower in sym (reverse-cons (to_ascii_lowercase c) (lower s)))))

Ends-prefix : (s t : Bytes) → Ends (lower s) t → is_prefix (reverse t) (lower (reverse s)) ≡ true
Ends-prefix s t (p, e) =
    ap (is_prefix (reverse t)) (lower-reverse s ∙ (ap reverse e ∙ reverse-append p t))
    ∙ is_prefix-append (reverse t) (reverse p)

-- a host that matches ends with the pattern's tail
pub matches-tail :
    (p : Pattern) (host : Bytes)
    → matches p host ≡ true
    → is_prefix (reverse (tail p.glob)) (lower (reverse host)) ≡ true
matches-tail p host h = Ends-prefix host (tail p.glob) (matches-Ends p host h)

fits-head : (g t : Bytes) → fits g t ≡ true → is_prefix (head g) (lower t) ≡ true
unfolding fits head lower is_prefix
fits-head [] t h = refl
fits-head (b ∷ g) [] h = ground arith
fits-head (b ∷ g) (x ∷ t) h = elim (Bool-cases (b == b'*')) [
  | inl star ↦ rw star refl
  | inr literal ↦ ground (arith, fits-head g t)
]

-- a name that matches starts with the pattern's head
pub glob_matches-head :
    (g t : Bytes) → glob_matches g t ≡ true → is_prefix (head g) (lower t) ≡ true
glob_matches-head g t h = fits-head g t (sym (glob_matches-fits g t).1 ∙ h)
