-- ===== src/Mitm/Flight/Bytewise.antt =====
-- One turn of the loop of `Records::written` is its bytes, one after the other
-- (core/crates/mitm/src/flight.rs).
use tollgate.Common.{
  ℕ, suc, ◌+◌, ◌-◌, ◌≤◌, ◌<◌, ◌≡◌, refl, ◌∙◌, sym, ap, Bool, true, false, ◌&&◌, ◌⊎◌, inl, inr, [],
  ◌∷◌, ◌++◌, arith, lt→ltb, le→ltb, ◌==◌, if◌then◌else◌, length, length-append, get_or,
  append_assoc, Bytes, Bool-cases,
}
use tollgate.Mitm.Flight.{
  Records, watching, in_clear, u16_be, record_written, if_complete, with_header, add_header,
  with_body, kept, add_body, room, take_in,
}

-- The header is not complete, or more of the record is to come.
abbrev pub IsFollowing : Records → Type 0
IsFollowing r = (length r.header < 5) ⊎ ((length r.header ≡ 5) × (0 < r.remaining))

-- one byte after the other
abbrev pub bytewise : Records → Bytes → Records
bytewise r [] = r
bytewise r (b ∷ bytes) = if watching r.progress then bytewise (take_in r (b ∷ [])) bytes else r

pub bytewise-step :
    (r s : Records) (b : ℕ) (bytes : Bytes)
    → watching r.progress ≡ true
    → take_in r (b ∷ []) ≡ s
    → bytewise r (b ∷ bytes) ≡ bytewise s bytes
bytewise-step r s b bytes w e =
    ap (λ x. if x then bytewise (take_in r (b ∷ [])) bytes else r) w ∙ ap (λ t. bytewise t bytes) e

pub take_in-header :
    (r : Records) (bytes : Bytes) → length r.header < 5 → take_in r bytes ≡ add_header r bytes
take_in-header r bytes h =
    ap (λ x. if x then add_header r bytes else add_body r bytes) (lt→ltb (length r.header) 5 h)

pub take_in-body :
    (r : Records) (bytes : Bytes) → length r.header ≡ 5 → take_in r bytes ≡ add_body r bytes
take_in-body r bytes h =
    ap (λ x. if x then add_header r bytes else add_body r bytes)
      (le→ltb (length r.header) 5 (omega (arith, h)))

same_header :
    (r : Records) (h t : Bytes) → with_header (record r { header = h }) t ≡ with_header r t
unfolding with_header
same_header r h t = elim (Bool-cases (length t == 5)) [ inl e ↦ rw e refl | inr e ↦ rw e refl ]

header_bytes :
    (r : Records) (b : ℕ) (c d : Bytes)
    → watching r.progress ≡ true
    → suc (length c) + length r.header ≤ 5
    → bytewise r ((b ∷ c) ++ d) ≡ bytewise (add_header r (b ∷ c)) d
header_bytes r b [] d w h =
    bytewise-step r (add_header r (b ∷ [])) b d w (take_in-header r (b ∷ []) (omega arith))
header_bytes r b (b' ∷ c) d w h =
    let r' : Records = record r { header = r.header ++ b ∷ [] } in
    let longer : (length (r.header ++ b ∷ []) == 5) ≡ false =
      ground (arith, length-append r.header (b ∷ [])) in
    let one : add_header r (b ∷ []) ≡ r' =
      unfold with_header in
      ap
        (λ x.
          if x
          then if_complete (record r {
            header = r.header ++ b ∷ [];
            remaining = u16_be (get_or (r.header ++ b ∷ []) 3 0) (get_or (r.header ++ b ∷ []) 4 0);
          })
          else r')
        longer in
    bytewise-step r r' b ((b' ∷ c) ++ d) w (take_in-header r (b ∷ []) (omega arith) ∙ one)
    ∙ (header_bytes r' b' c d w (omega (arith, length-append r.header (b ∷ [])))
        ∙ ap (λ s. bytewise s d)
            (same_header r (r.header ++ b ∷ []) ((r.header ++ b ∷ []) ++ (b' ∷ c))
              ∙ ap (with_header r) (append_assoc r.header (b ∷ []) (b' ∷ c))))

kept-append :
    (h t : Bytes) (x : Bool) (b : ℕ)
    → (if x then (if x then h ++ b ∷ [] else h) ++ t else (if x then h ++ b ∷ [] else h))
      ≡ (if x then h ++ b ∷ t else h)
kept-append h t true b = append_assoc h (b ∷ []) t
kept-append h t false b = refl

body_bytes :
    (r : Records) (b : ℕ) (c d : Bytes)
    → watching r.progress ≡ true
    → length r.header ≡ 5
    → suc (length c) ≤ r.remaining
    → bytewise r ((b ∷ c) ++ d) ≡ bytewise (add_body r (b ∷ c)) d
body_bytes r b [] d w h fits =
    bytewise-step r (add_body r (b ∷ [])) b d w (take_in-body r (b ∷ []) h)
body_bytes r b (b' ∷ c) d w h fits =
    let r' : Records = record r { handshake = kept r (b ∷ []); remaining = r.remaining - 1 } in
    let more : (r.remaining - 1 == 0) ≡ false = ground arith in
    let one : add_body r (b ∷ []) ≡ r' =
      unfold with_body in ap (λ x. if x then record_written r' else r') more in
    let left : r'.remaining - suc (length c) ≡ r.remaining - suc (suc (length c)) = omega arith in
    let all : kept r' (b' ∷ c) ≡ kept r (b ∷ b' ∷ c) =
      kept-append r.handshake (b' ∷ c) (get_or r.header 0 0 == 22 && in_clear r.progress) b in
    let same : with_body r' (kept r' (b' ∷ c)) (r'.remaining - suc (length c))
        ≡ with_body r (kept r' (b' ∷ c)) (r'.remaining - suc (length c)) =
      unfold with_body in refl in
    bytewise-step r r' b ((b' ∷ c) ++ d) w (take_in-body r (b ∷ []) h ∙ one)
    ∙ (body_bytes r' b' c d w h (omega (arith, fits))
        ∙ ap (λ s. bytewise s d)
            (same
              ∙ (ap (λ t. with_body r t (r'.remaining - suc (length c))) all
                  ∙ ap (with_body r (kept r (b ∷ b' ∷ c))) left)))

-- one turn of the loop is its bytes, one after the other
pub turn_bytes :
    (r : Records) (b : ℕ) (c d : Bytes)
    → watching r.progress ≡ true
    → IsFollowing r
    → suc (length c) ≤ room r
    → bytewise r ((b ∷ c) ++ d) ≡ bytewise (take_in r (b ∷ c)) d
turn_bytes r b c d w (inl h) fits =
    let fits' : suc (length c) + length r.header ≤ 5 = ground (arith, fits, lt→ltb _ 5 h) in
    header_bytes r b c d w fits' ∙ ap (λ s. bytewise s d) (sym (take_in-header r (b ∷ c) h))
turn_bytes r b c d w (inr (h, more)) fits =
    let fits' : suc (length c) ≤ r.remaining = ground (arith, fits, h) in
    body_bytes r b c d w h fits' ∙ ap (λ s. bytewise s d) (sym (take_in-body r (b ∷ c) h))
