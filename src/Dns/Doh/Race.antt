-- ===== src/Dns/Doh/Race.antt =====
-- `mark_down`, `mark_up` and `reset_connections` of core/crates/dns/src/doh.rs on one upstream, run by
-- many tasks and threads at once: each load, swap or exchange of an atomic is one step.
use tollgate.Common.{
  ℕ, ◌+◌, ◌≤◌, ◌≡◌, refl, ◌∙◌, sym, ap, Bool, true, false, not, ◌&&◌, ◌||◌, ◌⊎◌, inl, inr, List, [],
  ◌∷◌, ◌++◌, arith, ◌==◌, ==_iff, if◌then◌else◌, any, any-append, Bool-cases,
}
use tollgate.Dns.Doh.{down_until_after}

-- where a call of `mark_down` or `reset_connections` is
pub data Thread : Type 0 where
  -- an attempt that began in that epoch and has failed
  failed : ℕ → Thread
  -- in `mark_down` after the first load, the swap, and the second load
  checked : ℕ → Thread
  marked : ℕ → ℕ → Thread
  overtaken : ℕ → ℕ → Thread
  -- in `reset_connections`, after the count and before the store
  resetting : Thread

-- the atomics, and the epoch of the attempt that set the mark
pub record Atomics : Type 0 where
  pub epoch : ℕ
  pub down_until : ℕ
  pub set_in : ℕ

-- the next step of a thread
unfoldable pub advance : ℕ → Atomics → Thread → Atomics × List Thread
advance now a (failed e) = (a, if a.epoch == e then checked e ∷ [] else [])
advance now a (checked e) =
    let until = down_until_after now in
    (record a { down_until = until; set_in = e }, marked e until ∷ [])
advance now a (marked e until) = (a, if a.epoch == e then [] else overtaken e until ∷ [])
advance now a (overtaken e until) =
    (record a { down_until = if a.down_until == until then 0 else a.down_until }, [])
advance now a resetting = (record a { down_until = 0 }, [])

-- any thread goes one step on, an attempt fails that began in that epoch, a reset begins, or an answer
-- brings the upstream back
pub data Step : Atomics × List Thread → Atomics × List Thread → Type 0 where
  run :
      (now : ℕ) (a : Atomics) (before : List Thread) (t : Thread) (after : List Thread)
      → Step
          (a, before ++ t ∷ after)
          ((advance now a t).0, before ++ ((advance now a t).1 ++ after))
  attempt_fails :
      (a : Atomics) (ts : List Thread) (e : ℕ) → e ≤ a.epoch → Step (a, ts) (a, failed e ∷ ts)
  begin_reset :
      (a : Atomics) (ts : List Thread)
      → Step (a, ts) (record a { epoch = a.epoch + 1 }, resetting ∷ ts)
  answered : (a : Atomics) (ts : List Thread) → Step (a, ts) (record a { down_until = 0 }, ts)

abbrev pub fresh : Atomics
fresh = record { epoch = 0; down_until = 0; set_in = 0 }

pub data Reach : Atomics × List Thread → Type 0 where
  here : Reach (fresh, [])
  next : {s t : Atomics × List Thread} → Reach s → Step s t → Reach t

-- a thread that will clear the mark, unless another mark is set first
abbrev clears : Atomics → Thread → Bool
clears a resetting = true
clears a (marked e until) = not (a.epoch == e) && a.down_until == until
clears a (overtaken e until) = a.down_until == until
clears a (failed e) = false
clears a (checked e) = false

abbrev is_justified : Atomics → List Thread → Bool
is_justified a ts = a.down_until == 0 || a.set_in == a.epoch || any (clears a) ts

abbrev Justified : Atomics × List Thread → Type 0
Justified s = is_justified s.0 s.1 ≡ true

-- whether a call is between two of its steps on the mark
abbrev pub is_under_way : Thread → Bool
is_under_way resetting = true
is_under_way (marked e until) = true
is_under_way (overtaken e until) = true
is_under_way (failed e) = false
is_under_way (checked e) = false

any-middle :
    (p : Thread → Bool) (before : List Thread) (t : Thread) (after : List Thread)
    → any p (before ++ t ∷ after) ≡ (any p before || p t || any p after)
any-middle p before t after = any-append p before (t ∷ after) ∙ ground arith

any-dropped :
    (p : Thread → Bool) (before : List Thread) (t : Thread) (after : List Thread)
    → p t ≡ false
    → any p (before ++ after) ≡ any p (before ++ t ∷ after)
any-dropped p before t after h =
    any-append p before after ∙ (ground arith ∙ sym (any-middle p before t after))

advance-Justified :
    (now : ℕ) (a : Atomics) (before : List Thread) (t : Thread) (after : List Thread)
    → is_justified a (before ++ t ∷ after) ≡ true
    → is_justified (advance now a t).0 (before ++ ((advance now a t).1 ++ after)) ≡ true
unfolding advance
advance-Justified now a before (failed e) after h = elim (Bool-cases (a.epoch == e)) [
  | inl same ↦ rw same (
      ap (λ b. a.down_until == 0 || a.set_in == a.epoch || b)
        (any-middle (clears a) before (checked e) after
          ∙ sym (any-middle (clears a) before (failed e) after))
      ∙ h)
  | inr other ↦ rw other (
      ap (λ b. a.down_until == 0 || a.set_in == a.epoch || b)
        (any-dropped (clears a) before (failed e) after refl)
      ∙ h)
]
advance-Justified now a before (checked e) after h =
    let until = down_until_after now in
    let a' : Atomics = record a { down_until = until; set_in = e } in
    set_now until (any-middle (clears a') before (marked e until) after)
  where
    set_now :
        (until : ℕ)
        → any
            (clears (record a { down_until = until; set_in = e }))
            (before ++ marked e until ∷ after)
          ≡ (any (clears (record a { down_until = until; set_in = e })) before
              || not (a.epoch == e) && until == until
              || any (clears (record a { down_until = until; set_in = e })) after)
        → (until == 0
            || e == a.epoch
            || any
                (clears (record a { down_until = until; set_in = e }))
                (before ++ marked e until ∷ after))
          ≡ true
    set_now until m = ground arith
advance-Justified now a before (marked e until) after h = elim (Bool-cases (a.epoch == e)) [
  | inl same ↦ rw same (
      ap (λ b. a.down_until == 0 || a.set_in == a.epoch || b)
        (any-dropped (clears a) before (marked e until) after (ground arith))
      ∙ h)
  | inr other ↦ rw other (
      ap (λ b. a.down_until == 0 || a.set_in == a.epoch || b)
        (any-middle (clears a) before (overtaken e until) after
          ∙ (ground arith ∙ sym (any-middle (clears a) before (marked e until) after)))
      ∙ h)
]
advance-Justified now a before (overtaken e until) after h =
    elim (Bool-cases (a.down_until == until)) [
      | inl same ↦ rw same refl
      | inr other ↦ rw other (
          ap (λ b. a.down_until == 0 || a.set_in == a.epoch || b)
            (any-dropped (clears a) before (overtaken e until) after other)
          ∙ h)
    ]
advance-Justified now a before resetting after h = refl

Step-Justified : {s t : Atomics × List Thread} → Step s t → Justified s → Justified t
Step-Justified (run now a before t after) h = advance-Justified now a before t after h
Step-Justified (attempt_fails a ts e began) h = h
Step-Justified (begin_reset a ts) h = ground arith
Step-Justified (answered a ts) h = refl

Reach-Justified : {s : Atomics × List Thread} → Reach s → Justified s
Reach-Justified here = refl
Reach-Justified (next r st) = Step-Justified st (Reach-Justified r)

nothing_clears :
    (a : Atomics) (ts : List Thread) → any is_under_way ts ≡ false → any (clears a) ts ≡ false
nothing_clears a [] h = refl
nothing_clears a (resetting ∷ ts) h = cc
nothing_clears a (marked e until ∷ ts) h = cc
nothing_clears a (overtaken e until ∷ ts) h = cc
nothing_clears a (failed e ∷ ts) h = nothing_clears a ts h
nothing_clears a (checked e ∷ ts) h = nothing_clears a ts h

-- However the steps of failing attempts, resets and answers mix, once no call is between its steps an
-- upstream is up, or it is down by an attempt that began after the last reset: a reset clears the marks
-- of all attempts before it, late ones too.
pub Reach-mark :
    (a : Atomics) (ts : List Thread)
    → Reach (a, ts)
    → any is_under_way ts ≡ false
    → (a.down_until ≡ 0) ⊎ (a.set_in ≡ a.epoch)
Reach-mark a ts r quiet = decided (Reach-Justified r) (nothing_clears a ts quiet)
  where
    decided :
        is_justified a ts ≡ true
        → any (clears a) ts ≡ false
        → (a.down_until ≡ 0) ⊎ (a.set_in ≡ a.epoch)
    decided h n = elim (Bool-cases (a.down_until == 0)) [
      | inl e ↦ inl ((==_iff a.down_until 0).0 e)
      | inr e ↦ inr (ground arith)
    ]
