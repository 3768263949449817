-- ===== src/Filter/Wildcard/Globs.antt =====
-- What `glob_matches` of core/crates/filter/src/wildcard.rs answers.
use tollgate.Common.{
  drop-nil, ℕ, zero, suc, ◌+◌, ◌≤◌, ◌<◌, ◌≡◌, ◌∙◌, sym, refl, ap, Bool, true, false, ◌||◌, Option,
  none, some, [], ◌∷◌, ◌==◌, length, drop, Bytes, to_ascii_lowercase, arith, ==_iff, Bool-cases,
  inl, inr,
}
use tollgate.Filter.Wildcard.{
  go_back, turn, turns, restarts, glob_fuel, glob_matches, Turn, done, next,
}
use tollgate.Filter.Wildcard.Stars.{
  fits, fits-nil, again, IsSince, again_later, again-fits, star-IsSince, literal-IsSince,
  fits_again,
}

-- the turns left: each restart of the pattern starts one byte later
abbrev room : Bytes → Option (Bytes × Bytes) → ℕ
room t none = suc (length t)
room t (some (star_g, star_t)) = length star_t

abbrev IsStarLess : ℕ → Option (Bytes × Bytes) → Type 0
IsStarLess k none = Unit
IsStarLess k (some (star_g, star_t)) = length star_g < k

restarts-le : (k a b : ℕ) → a ≤ b → restarts k a ≤ restarts k b
unfolding restarts
restarts-le k zero b h = ground arith
restarts-le k (suc a) zero h = ground arith
restarts-le k (suc a) (suc b) h = ground (arith, restarts-le k a b)

drop-shorter : (k : ℕ) (s : Bytes) → length (drop k s) ≤ length s
drop-shorter zero s = omega arith
drop-shorter (suc k) [] = omega arith
drop-shorter (suc k) (x ∷ s) = omega (arith, drop-shorter k s)

room-le : (g t : Bytes) (star : Option (Bytes × Bytes)) → IsSince g t star → length t ≤ room t star
unfolding IsSince
room-le g t none since = omega arith
room-le g t (some (star_g, star_t)) (k, since) = rw since.rest (drop-shorter k star_t)

-- the text after the last `*` is not used up while there is text left
star_left :
    (g t : Bytes) (x : ℕ) (star_g star_t : Bytes)
    → IsSince g (x ∷ t) (some (star_g, star_t))
    → (y : ℕ) × ((s : Bytes) × (star_t ≡ y ∷ s))
unfolding IsSince
star_left g t x star_g [] (k, since) = absurd (ground (arith, since.rest ∙ drop-nil k))
star_left g t x star_g (y ∷ s) since = (y, (s, refl))

absorb : (a b : Bool) → (b ≡ true → a ≡ true) → (a || b) ≡ a
absorb a true h = rw (h refl) refl
absorb a false h = ground arith

retry-fits :
    (g t star_g star_t : Bytes) (r : Option Bool) (y : ℕ) (s : Bytes)
    → star_t ≡ y ∷ s
    → fits g t ≡ false
    → r ≡ some (fits star_g (drop 1 star_t) || again (some (star_g, drop 1 star_t)))
    → r ≡ some (fits g t || again (some (star_g, star_t)))
retry-fits g t star_g star_t r y s e unfit h = h ∙ ap some (rw (e, unfit) (fits_again star_g s))

fits-differ :
    (b x : ℕ) (g t : Bytes)
    → (b == b'*') ≡ false
    → (b == to_ascii_lowercase x) ≡ false
    → fits (b ∷ g) (x ∷ t) ≡ false
unfolding fits
fits-differ b x g t lit differ = ground (arith, lit, differ)

fits-same :
    (b x : ℕ) (g t : Bytes)
    → (b == b'*') ≡ false
    → (b == to_ascii_lowercase x) ≡ true
    → fits (b ∷ g) (x ∷ t) ≡ fits g t
unfolding fits
fits-same b x g t lit same = ground (arith, lit, same)

fits-rest : (x : ℕ) (t : Bytes) → fits [] (x ∷ t) ≡ false
unfolding fits
fits-rest x t = refl

room-shrinks : (x : ℕ) (t : Bytes) (star : Option (Bytes × Bytes)) → room t star ≤ room (x ∷ t) star
room-shrinks x t none = omega arith
room-shrinks x t (some s) = omega arith

retry_room :
    (k n y : ℕ) (star_g star_t s : Bytes) (e : star_t ≡ y ∷ s)
    → length star_g < k
    → restarts k (length star_t) < suc n
    → restarts k (length (drop 1 star_t)) + length star_g < n
unfolding restarts
retry_room k n y star_g star_t s e less enough = rw e (omega (arith, less, rw e at enough))

turn-same :
    (b x : ℕ) (g t : Bytes) (star : Option (Bytes × Bytes))
    → (b == b'*') ≡ false
    → (b == to_ascii_lowercase x) ≡ true
    → turn (b ∷ g) (x ∷ t) star ≡ next g t star
unfolding turn
turn-same b x g t star lit same = rw (lit, same) refl

turn-differ :
    (b x : ℕ) (g t : Bytes) (star : Option (Bytes × Bytes))
    → (b == b'*') ≡ false
    → (b == to_ascii_lowercase x) ≡ false
    → turn (b ∷ g) (x ∷ t) star ≡ go_back star
unfolding turn
turn-differ b x g t star lit differ = rw (lit, differ) refl

turns-turn :
    (n : ℕ) (g t : Bytes) (star : Option (Bytes × Bytes)) {u : Turn}
    → turn g t star ≡ u
    → turns (suc n) g t star ≡ (elim u [ done b ↦ some b | next g' t' star' ↦ turns n g' t' star' ])
unfolding turns
turns-turn n g t star h = rw (h, turns) refl

-- a turn where the pattern's rest does not go on
stuck-fits :
    (k n x : ℕ) (g t : Bytes) (star : Option (Bytes × Bytes))
    → IsSince g (x ∷ t) star
    → IsStarLess k star
    → restarts k (room (x ∷ t) star) < suc n
    → fits g (x ∷ t) ≡ false
    → ((star_g star_t : Bytes)
        → length star_g < k
        → restarts k (length star_t) + length star_g < n
        → turns n star_g star_t (some (star_g, star_t))
          ≡ some (fits star_g star_t || again (some (star_g, star_t))))
    → (elim (go_back star) [ done b ↦ some b | next g' t' star' ↦ turns n g' t' star' ])
      ≡ some (fits g (x ∷ t) || again star)
stuck-fits k n x g t none since less enough unfit turns-fits = ap some (rw unfit refl)
stuck-fits k n x g t (some (star_g, star_t)) since less enough unfit turns-fits =
    let (y, (s, e)) = star_left g t x star_g star_t since in
    retry-fits g (x ∷ t) star_g star_t _ y s e unfit
      (turns-fits star_g (drop 1 star_t) less (retry_room k n y star_g star_t s e less enough))

turns-fits :
    (k n : ℕ) (g t : Bytes) (star : Option (Bytes × Bytes))
    → IsSince g t star
    → IsStarLess k star
    → length g < k
    → restarts k (room t star) + length g < n
    → turns n g t star ≡ some (fits g t || again star)
unfolding turns
turns-fits k zero g t star since less short enough = absurd (omega (arith, enough))
turns-fits k (suc n) g [] star since less short enough = ap some (
    sym (fits-nil g)
    ∙ sym (absorb _ _ (λ h. let (j, later) = again_later g [] star since h in later)))
turns-fits k (suc n) [] (x ∷ t) star since less short enough =
    stuck-fits k n x [] t star since less (omega (arith, enough)) (fits-rest x t)
      (λ star_g star_t less' enough'.
        turns-fits k n star_g star_t (some (star_g, star_t)) (star-IsSince star_g star_t) less'
          less' enough')
turns-fits k (suc n) (b ∷ g) (x ∷ t) star since less short enough = elim (Bool-cases (b == b'*')) [
  | inl e ↦
      (let at_star = rw ((==_iff b b'*').0 e) at since in
        let fewer : length (x ∷ t) ≤ room (x ∷ t) star = room-le (b ∷ g) (x ∷ t) star since in
        let budget = restarts-le k (length (x ∷ t)) (room (x ∷ t) star) fewer in
        let here =
          turns-fits k n g (x ∷ t) (some (g, x ∷ t)) (star-IsSince g (x ∷ t)) (omega (arith, short))
            (omega (arith, short)) (omega (arith, budget, enough)) in
        rw ((==_iff b b'*').0 e) (
          here
          ∙ ap some (fits_again g (x ∷ t) ∙ sym (absorb _ _ (again-fits g (x ∷ t) star at_star)))))
  | inr lit ↦ elim (Bool-cases (b == to_ascii_lowercase x)) [
    | inl same ↦
        (let budget = restarts-le k (room t star) (room (x ∷ t) star) (room-shrinks x t star) in
          rw (fits-same b x g t lit same) (
            turns-turn n (b ∷ g) (x ∷ t) star (turn-same b x g t star lit same)
            ∙ turns-fits k n g t star (literal-IsSince b x g t star lit since) less
                (omega (arith, short)) (omega (arith, budget, enough))))
    | inr differ ↦
        (turns-turn n (b ∷ g) (x ∷ t) star (turn-differ b x g t star lit differ)
          ∙ stuck-fits k n x (b ∷ g) t star since less (omega (arith, enough))
              (fits-differ b x g t lit differ)
              (λ star_g star_t less' enough'.
                turns-fits k n star_g star_t (some (star_g, star_t)) (star-IsSince star_g star_t)
                  less' less' enough'))
  ]
]

-- The loop of `glob_matches` always ends within its fuel, and answers whether the pattern fits
-- the text, a `*` standing for any bytes: going back to the last `*` alone loses no match.
pub glob_matches-fits :
    (glob text : Bytes)
    → (turns (glob_fuel glob text) glob text none ≡ some (fits glob text))
      × (glob_matches glob text ≡ fits glob text)
unfolding glob_matches IsSince
glob_matches-fits glob text =
    let k = suc (length glob) in
    let ends : turns (glob_fuel glob text) glob text none ≡ some (fits glob text) =
      turns-fits k (glob_fuel glob text) glob text none tt tt (omega arith) (omega arith)
      ∙ ap some (ground arith) in
    (ends, rw ends refl)
