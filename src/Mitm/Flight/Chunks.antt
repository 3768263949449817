-- ===== src/Mitm/Flight/Chunks.antt =====
-- `Records::written` of core/crates/mitm/src/flight.rs on writes that are cut anywhere.
use tollgate.Common.{
  ℕ, zero, suc, ◌≤◌, ◌<◌, min, ◌≡◌, refl, ◌∙◌, sym, ap, Bool, true, false, not, inl, inr, [], ◌∷◌,
  ◌++◌, arith, lt→ltb, ◌==◌, if◌then◌else◌, length, length-append, length-take, length-drop, get_or,
  take, drop, subst, ==_iff, Bytes, Bool-cases,
}
use tollgate.Mitm.Flight.{
  Records, watching, u16_be, record_written, if_complete, with_header, with_body, room, take_in,
  follow, written,
}
use tollgate.Mitm.Flight.Bytewise.{
  IsFollowing, bytewise, bytewise-step, take_in-header, take_in-body, turn_bytes,
}

if_complete-IsFollowing : (r : Records) → length r.header ≡ 5 → IsFollowing (if_complete r)
unfolding record_written
if_complete-IsFollowing r h = elim (Bool-cases (r.remaining == 0)) [
  | inl e ↦ rw e (inl (omega arith))
  | inr e ↦ rw e (inr (h, ground arith))
]

with_header-IsFollowing : (r : Records) (t : Bytes) → length t ≤ 5 → IsFollowing (with_header r t)
unfolding with_header
with_header-IsFollowing r t h = elim (Bool-cases (length t == 5)) [
  | inl e ↦ rw e (
      if_complete-IsFollowing
        (record r { header = t; remaining = u16_be (get_or t 3 0) (get_or t 4 0) })
        ((==_iff (length t) 5).0 e))
  | inr e ↦ rw e (inl (ground arith))
]

with_body-IsFollowing :
    (r : Records) (t : Bytes) (n : ℕ) → length r.header ≡ 5 → IsFollowing (with_body r t n)
unfolding with_body
with_body-IsFollowing r t n h =
    if_complete-IsFollowing (record r { handshake = t; remaining = n }) h

take_in-IsFollowing :
    (r : Records) (bytes : Bytes)
    → IsFollowing r
    → length bytes ≤ room r
    → IsFollowing (take_in r bytes)
take_in-IsFollowing r bytes (inl h) fits = subst IsFollowing (sym (take_in-header r bytes h)) (
    with_header-IsFollowing r (r.header ++ bytes)
      (ground (arith, length-append r.header bytes, fits, lt→ltb _ 5 h)))
take_in-IsFollowing r bytes (inr (h, more)) fits =
    subst IsFollowing (sym (take_in-body r bytes h)) (with_body-IsFollowing r _ _ h)

take-drop : (n : ℕ) (s : Bytes) → take n s ++ drop n s ≡ s
take-drop zero s = refl
take-drop (suc n) [] = refl
take-drop (suc n) (b ∷ s) = ap (λ t. b ∷ t) (take-drop n s)

room-lt : (r : Records) → IsFollowing r → 0 < room r
room-lt r (inl h) = ground (arith, lt→ltb _ 5 h)
room-lt r (inr (h, more)) = ground (arith, more)

not_watching : (r : Records) (bytes : Bytes) → watching r.progress ≡ false → bytewise r bytes ≡ r
not_watching r [] w = refl
not_watching r (b ∷ bytes) w = ap (λ x. if x then bytewise (take_in r (b ∷ [])) bytes else r) w

-- the loop has enough fuel, and does what the bytes do one after the other
follow-bytewise :
    (n : ℕ) (r : Records) (bytes : Bytes)
    → IsFollowing r
    → length bytes ≤ n
    → (follow n r bytes ≡ bytewise r bytes) × IsFollowing (bytewise r bytes)
unfolding follow
follow-bytewise zero r [] f h = (refl, f)
follow-bytewise zero r (b ∷ bytes) f h = absurd (omega arith)
follow-bytewise (suc n) r [] f h = (refl, f)
follow-bytewise (suc n) r (b ∷ bytes) f h = elim (Bool-cases (watching r.progress)) [
  | inr w ↦
      let stays = not_watching r (b ∷ bytes) w in
      (
        ap
              (λ x.
                if not x
                then r
                else follow n (take_in r (take (min (room r) (suc (length bytes))) (b ∷ bytes)))
                    (drop (min (room r) (suc (length bytes))) (b ∷ bytes)))
              w
            ∙ sym stays,
        subst IsFollowing (sym stays) f,
      )
  | inl w ↦
      let (k, e) = pred_of (min (room r) (suc (length bytes))) (omega (arith, room-lt r f)) in
      let less : suc k ≤ room r = omega (arith, e) in
      let short : length (take k bytes) ≤ k = omega (arith, length-take k bytes) in
      let turn : bytewise r (b ∷ bytes) ≡ bytewise (take_in r (b ∷ take k bytes)) (drop k bytes) =
        ap (λ t. bytewise r (b ∷ t)) (sym (take-drop k bytes))
        ∙ turn_bytes r b (take k bytes) (drop k bytes) w f (omega (arith, short, less)) in
      let (same, f') =
        follow-bytewise n (take_in r (b ∷ take k bytes)) (drop k bytes)
          (take_in-IsFollowing r (b ∷ take k bytes) f (omega (arith, short, less)))
          (omega (arith, length-drop k bytes)) in
      (
        ap
              (λ x.
                if not x
                then r
                else follow n (take_in r (take (min (room r) (suc (length bytes))) (b ∷ bytes)))
                    (drop (min (room r) (suc (length bytes))) (b ∷ bytes)))
              w
            ∙ (ap (λ m. follow n (take_in r (take m (b ∷ bytes))) (drop m (b ∷ bytes))) e
                ∙ (same ∙ sym turn)),
        subst IsFollowing (sym turn) f',
      )
]
  where
    pred_of : (m : ℕ) → 0 < m → (k : ℕ) × (m ≡ suc k)
    pred_of zero p = absurd (omega arith)
    pred_of (suc m) p = (m, refl)

bytewise-append : (r : Records) (s t : Bytes) → bytewise r (s ++ t) ≡ bytewise (bytewise r s) t
bytewise-append r [] t = refl
bytewise-append r (b ∷ s) t = elim (Bool-cases (watching r.progress)) [
  | inl w ↦
      bytewise-step r (take_in r (b ∷ [])) b (s ++ t) w refl
      ∙ (bytewise-append (take_in r (b ∷ [])) s t
          ∙ ap (λ u. bytewise u t) (sym (bytewise-step r (take_in r (b ∷ [])) b s w refl)))
  | inr w ↦
      not_watching r (b ∷ (s ++ t)) w
      ∙ (sym (not_watching r t w) ∙ ap (λ u. bytewise u t) (sym (not_watching r (b ∷ s) w)))
]

abbrev forget : Records → Records
forget r = if watching r.progress then r else record r { handshake = [] }

written-bytewise :
    (r : Records) (bytes : Bytes) → IsFollowing r → written r bytes ≡ forget (bytewise r bytes)
unfolding written
written-bytewise r bytes f = ap forget (follow-bytewise (length bytes) r bytes f (omega arith)).0

forget-bytewise : (r : Records) (t : Bytes) → forget (bytewise (forget r) t) ≡ forget (bytewise r t)
forget-bytewise r t = elim (Bool-cases (watching r.progress)) [
  | inl w ↦ ap (λ x. forget (bytewise (if x then r else record r { handshake = [] }) t)) w
  | inr w ↦
      let gone : Records = record r { handshake = [] } in
      ap (λ x. forget (bytewise (if x then r else gone) t)) w
      ∙ (ap forget (not_watching gone t w)
          ∙ (ap (λ x. if x then gone else gone) w
              ∙ (sym (ap (λ x. if x then r else gone) w) ∙ ap forget (sym (not_watching r t w)))))
]

forget-IsFollowing : (r : Records) → IsFollowing r → IsFollowing (forget r)
forget-IsFollowing r f = go (watching r.progress)
  where
    go : (b : Bool) → IsFollowing (if b then r else record r { handshake = [] })
    go true = f
    go false = f

-- While records are followed, what two writes leave is what one write of their bytes together leaves,
-- wherever the bytes are cut: the outcome of the watch does not depend on how the proxy writes.
pub written-append :
    (r : Records) (s t : Bytes) → IsFollowing r → written (written r s) t ≡ written r (s ++ t)
written-append r s t f =
    let f' = (follow-bytewise (length s) r s f (omega arith)).1 in
    ap (λ u. written u t) (written-bytewise r s f)
    ∙ (written-bytewise (forget (bytewise r s)) t (forget-IsFollowing (bytewise r s) f')
        ∙ (forget-bytewise (bytewise r s) t
            ∙ (ap forget (sym (bytewise-append r s t)) ∙ sym (written-bytewise r (s ++ t) f))))
