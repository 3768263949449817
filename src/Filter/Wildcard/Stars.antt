-- ===== src/Filter/Wildcard/Stars.antt =====
-- A pattern with `*`s compared with a text, for `glob_matches` of
-- core/crates/filter/src/wildcard.rs.
use tollgate.Common.{
  drop-drop, ℕ, zero, suc, ◌+◌, ◌≡◌, ◌∙◌, sym, refl, ap, Bool, true, false, ◌&&◌, ◌||◌, Option,
  none, some, [], ◌∷◌, ◌==◌, if◌then◌else◌, all, drop, Bytes, to_ascii_lowercase, arith, Bool-cases,
  inl, inr,
}

-- A pattern and a text, compared from the left, a `*` standing for any number of bytes.
unfoldable pub fits : Bytes → Bytes → Bool
fits [] [] = true
fits [] (x ∷ t) = false
fits (b ∷ g) [] = b == b'*' && fits g []
fits (b ∷ g) (x ∷ t) =
    if b == b'*' then fits g (x ∷ t) || fits (b ∷ g) t else b == to_ascii_lowercase x && fits g t

pub fits-nil : (g : Bytes) → fits g [] ≡ all (λ b. b == b'*') g
unfolding fits
fits-nil [] = refl
fits-nil (b ∷ g) = ground (arith, fits-nil g)

-- a `*` may take more
pub fits_more : (g s : Bytes) → fits g s ≡ true → fits (b'*' ∷ g) s ≡ true
unfolding fits
fits_more g [] h = ground arith
fits_more g (x ∷ s) h = ground arith

pub fits_later :
    (g : Bytes) (j : ℕ) (s : Bytes) → fits (b'*' ∷ g) (drop j s) ≡ true → fits (b'*' ∷ g) s ≡ true
unfolding fits
fits_later g zero s h = h
fits_later g (suc j) [] h = h
fits_later g (suc j) (x ∷ s) h = let later = fits_later g j s h in ground arith

-- the text that a pattern after a `*` matches
pub fits_star : (g s : Bytes) → fits (b'*' ∷ g) s ≡ true → (j : ℕ) × (fits g (drop j s) ≡ true)
unfolding fits
fits_star g [] h = (0, h)
fits_star g (x ∷ s) h = elim (Bool-cases (fits g (x ∷ s))) [
  | inl now ↦ (0, now)
  | inr not_now ↦ let (j, later) = fits_star g s (ground arith) in (suc j, later)
]

pub drop_swap : (i j : ℕ) (s : Bytes) → drop i (drop j s) ≡ drop j (drop i s)
drop_swap i j s = drop-drop i j s ∙ ap (λ n. drop n s) (omega arith) ∙ sym (drop-drop j i s)

-- what a `*` that was passed still allows: to take at least one byte more
abbrev pub again : Option (Bytes × Bytes) → Bool
again none = false
again (some (g, [])) = false
again (some (g, x ∷ s)) = fits (b'*' ∷ g) s

-- The rest `g` and `t` of the last `*` in `star`: `k` bytes of both were compared since.
pub record Since (k : ℕ) (g t : Bytes) (star_g star_t : Bytes) : Type 0 where
  pub rest : t ≡ drop k star_t
  pub literal : (s : Bytes) → fits star_g s ≡ true → fits g (drop k s) ≡ true

unfoldable pub IsSince : Bytes → Bytes → Option (Bytes × Bytes) → Type 0
IsSince g t none = Unit
IsSince g t (some (star_g, star_t)) = (k : ℕ) × Since k g t star_g star_t

-- what the last `*` still allows fits the rest further on
pub again_later :
    (g t : Bytes) (star : Option (Bytes × Bytes))
    → IsSince g t star
    → again star ≡ true
    → (j : ℕ) × (fits g (drop (suc j) t) ≡ true)
unfolding IsSince
again_later g t none since h = absurd (ground (arith, h))
again_later g t (some (star_g, [])) since h = absurd (ground (arith, h))
again_later g t (some (star_g, x ∷ star_t)) (k, since) h =
    let (j, later) = fits_star star_g star_t h in
    (j, rw since.rest (rw (drop_swap (suc j) k (x ∷ star_t)) (since.literal (drop j star_t) later)))

pub again-fits :
    (g t : Bytes) (star : Option (Bytes × Bytes))
    → IsSince (b'*' ∷ g) t star
    → again star ≡ true
    → fits (b'*' ∷ g) t ≡ true
again-fits g t star since h =
    let (j, later) = again_later (b'*' ∷ g) t star since h in fits_later g (suc j) t later

pub star-IsSince : (g t : Bytes) → IsSince g t (some (g, t))
unfolding IsSince
star-IsSince g t = (0, record { rest = refl; literal = λ s h. h })

pub fits_literal :
    (b : ℕ) (g s : Bytes) → (b == b'*') ≡ false → fits (b ∷ g) s ≡ true → fits g (drop 1 s) ≡ true
unfolding fits
fits_literal b g [] lit h = ground (arith, lit)
fits_literal b g (x ∷ s) lit h = ground (arith, lit)

pub drop_next : (k : ℕ) (s : Bytes) → drop 1 (drop k s) ≡ drop (suc k) s
drop_next k s =
    let one_more : k + 1 ≡ suc k = omega arith in drop-drop 1 k s ∙ ap (λ n. drop n s) one_more

pub literal-IsSince :
    (b x : ℕ) (g t : Bytes) (star : Option (Bytes × Bytes))
    → (b == b'*') ≡ false
    → IsSince (b ∷ g) (x ∷ t) star
    → IsSince g t star
unfolding IsSince
literal-IsSince b x g t none lit since = tt
literal-IsSince b x g t (some (star_g, star_t)) lit (k, since) = (
  suc k,
  record {
    rest = ap (drop 1) since.rest ∙ drop_next k star_t;
    literal = λ s h.
        (let here = fits_literal b g (drop k s) lit (since.literal s h) in
          rw (sym (drop_next k s)) here);
  },
)

pub fits_again : (g s : Bytes) → (fits g s || again (some (g, s))) ≡ fits (b'*' ∷ g) s
unfolding fits
fits_again g [] = ground arith
fits_again g (x ∷ s) = ground arith
