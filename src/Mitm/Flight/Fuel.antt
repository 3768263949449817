-- ===== src/Mitm/Flight/Fuel.antt =====
-- The loops of core/crates/mitm/src/flight.rs on messages and extensions have enough fuel: any fuel
-- above the number of bytes gives the same result.
use tollgate.Common.{
  ℕ, zero, suc, ◌+◌, ◌*◌, ◌<◌, ◌≡◌, refl, ap, Bool, none, [], ◌∷◌, arith, leb, if◌then◌else◌,
  length, length-drop, take, drop, Bytes,
}
use tollgate.Mitm.Flight.{
  Progress, u16_be, in_clear, message_progress, read_extensions, read_messages,
}

pub read_extensions-fuel :
    (n m : ℕ) (found : Bool × Bool) (rest : Bytes)
    → length rest < n
    → length rest < m
    → read_extensions n found rest ≡ read_extensions m found rest
unfolding read_extensions
read_extensions-fuel zero m found rest h k = absurd (omega arith)
read_extensions-fuel (suc n) zero found rest h k = absurd (omega arith)
read_extensions-fuel (suc n) (suc m) found [] h k = refl
read_extensions-fuel (suc n) (suc m) found (a ∷ []) h k = refl
read_extensions-fuel (suc n) (suc m) found (a ∷ b ∷ []) h k = refl
read_extensions-fuel (suc n) (suc m) found (a ∷ b ∷ c ∷ []) h k = refl
read_extensions-fuel (suc n) (suc m) found (a ∷ b ∷ c ∷ d ∷ rest) h k =
    ap (λ o. if leb (u16_be c d) (length rest) then o else none)
      (read_extensions-fuel n m _ (drop (u16_be c d) rest)
        (omega (arith, length-drop (u16_be c d) rest))
        (omega (arith, length-drop (u16_be c d) rest)))

pub read_messages-fuel :
    (n m : ℕ) (progress : Progress) (rest : Bytes)
    → length rest < n
    → length rest < m
    → read_messages n progress rest ≡ read_messages m progress rest
unfolding read_messages
read_messages-fuel zero m progress rest h k = absurd (omega arith)
read_messages-fuel (suc n) zero progress rest h k = absurd (omega arith)
read_messages-fuel (suc n) (suc m) progress [] h k = refl
read_messages-fuel (suc n) (suc m) progress (a ∷ []) h k = refl
read_messages-fuel (suc n) (suc m) progress (a ∷ b ∷ []) h k = refl
read_messages-fuel (suc n) (suc m) progress (a ∷ b ∷ c ∷ []) h k = refl
read_messages-fuel (suc n) (suc m) progress (kind ∷ a ∷ b ∷ c ∷ rest) h k =
    let len = a * 65536 + b * 256 + c in
    let progress' = message_progress progress kind (take len rest) in
    ap
      (λ o.
        if leb len (length rest)
        then (if in_clear progress' then o else (progress', []))
        else (progress, kind ∷ a ∷ b ∷ c ∷ rest))
      (read_messages-fuel n m progress' (drop len rest) (omega (arith, length-drop len rest))
        (omega (arith, length-drop len rest)))
