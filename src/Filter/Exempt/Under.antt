-- ===== src/Filter/Exempt/Under.antt =====
-- The test for names under an exempt `*.name` in core/crates/filter/src/exempt.rs.
use tollgate.Common.{
  ◌-◌, ◌≡◌, ◌∙◌, ◌⊎◌, refl, ap, sym, Bool, true, false, ◌||◌, [], ◌∷◌, ◌++◌, ◌==◌, arith, Bytes,
  any, str_eq_refl, lower, length, length-append, drop, leb, Bool-cases, inl, inr,
}
use tollgate.Filter.Wildcard.{tail, glob_matches}
use tollgate.Filter.Wildcard.Ends.{Ends, fits-Ends, fits-plain, lower-append}
use tollgate.Filter.Wildcard.Stars.{fits}
use tollgate.Filter.Wildcard.Globs.{glob_matches-fits}
use tollgate.Filter.Exempt.{ends_with, matches_some_name_under}

-- of two ends of one text, one ends the other
two-Ends : (v a w b : Bytes) → v ++ a ≡ w ++ b → Ends b a ⊎ Ends a b
two-Ends [] a w b e = inr (w, e)
two-Ends (x ∷ v) a [] b e = inl (x ∷ v, sym e)
two-Ends (x ∷ v) a (y ∷ w) b e = two-Ends v a w b (ap (drop 1) e)

drop-length : (p t : Bytes) → drop (length p) (p ++ t) ≡ t
drop-length [] t = refl
drop-length (x ∷ p) t = drop-length p t

ends_with-Ends : (s t : Bytes) → Ends s t → ends_with s t ≡ true
ends_with-Ends s t (p, e) =
    let longer = length-append p t in
    let before : length (p ++ t) - length t ≡ length p = omega (arith, longer) in
    let fits_in : leb (length t) (length (p ++ t)) ≡ true = ground (arith, longer) in
    rw (e, fits_in, before, drop-length p t) (str_eq_refl t)

lower-dotted : (name : Bytes) → lower name ≡ name → lower (b'.' ∷ name) ≡ b'.' ∷ name
unfolding lower
lower-dotted name low = ap (λ l. b'.' ∷ l) low

or_left : (a b : Bool) → a ≡ true → (a || b) ≡ true
or_left a b h = rw h refl

or_right : (a b : Bool) → b ≡ true → (a || b) ≡ true
or_right true b h = refl
or_right false b h = h

-- A wildcard block that matches any name under an exempt `*.name` is found to: the test on the
-- pattern's literal end misses none.
pub matches_some_name_under-safe :
    (glob name u : Bytes)
    → lower name ≡ name
    → glob_matches glob (u ++ b'.' ∷ name) ≡ true
    → matches_some_name_under glob name ≡ true
unfolding matches_some_name_under
matches_some_name_under-safe glob name u low h =
    let text = u ++ b'.' ∷ name in
    let fit : fits glob text ≡ true = sym (glob_matches-fits glob text).1 ∙ h in
    let dotted : lower text ≡ lower u ++ b'.' ∷ name =
      lower-append u (b'.' ∷ name) ∙ ap (λ l. lower u ++ l) (lower-dotted name low) in
    elim (Bool-cases (any (λ b. b == b'*') glob)) [
      | inl stars ↦
          (let (v, e) = fits-Ends glob text stars fit in
            rw stars (elim (two-Ends v (tail glob) (lower u) (b'.' ∷ name) (sym e ∙ dotted)) [
              | inl ends ↦ or_left _ _ (ends_with-Ends (b'.' ∷ name) (tail glob) ends)
              | inr ends ↦ or_right _ _ (ends_with-Ends (tail glob) (b'.' ∷ name) ends)
            ]))
      | inr plain ↦ rw plain (
          ends_with-Ends glob (b'.' ∷ name)
            (lower u, sym (fits-plain glob text plain fit) ∙ dotted))
    ]
