-- ===== src/Policy/Decisions/Suppressed.antt =====
-- Silent refusals after a burst, in `Policy` of core/crates/policy/src/policy.rs.
use tollgate.Common.{
  ℕ, ◌+◌, ◌≤◌, ◌<◌, ◌≡◌, true, false, some, List, [], ◌∷◌, arith, Bytes, is_empty, u64_max,
  Bool-cases, inl, inr, refl,
}
use tollgate.Policy.Times.{silent_suppress_secs}
use tollgate.Policy.PatternSet.{lookup_key}
use tollgate.Policy.Learning.{Learning, still_suppressed, silent_burst}
use tollgate.Policy.Refusals.{silent_refusal}
use tollgate.Policy.Refusals.TakeBack.{silent_burst-pins}
use tollgate.Policy.Refusals.Untouched.{suppressed_refusal, intercepted_handshake-suppression}
use tollgate.Policy.Decisions.{Policy, record_silent_refusal}
use tollgate.Policy.Decisions.Acts.{act, is_other, act-Untouched, perform-elim}
use tollgate.Policy.Decisions.Runs.{
  Call, rejection, untrusted, refusal, handshake, change, forget, run,
}

-- The silent refusals of the calls come one after the other, from one time to another.
abbrev pub InOrder : ℕ → List Call → ℕ → Type 0
InOrder from [] to = from ≤ to
InOrder from (refusal host now ∷ calls) to = (from ≤ now) × InOrder now calls to
InOrder from (rejection host kind now ∷ calls) to = InOrder from calls to
InOrder from (untrusted host now ∷ calls) to = InOrder from calls to
InOrder from (handshake host now ∷ calls) to = InOrder from calls to
InOrder from (change now ∷ calls) to = InOrder from calls to
InOrder from (forget hosts ∷ calls) to = InOrder from calls to

order : (calls : List Call) (from to : ℕ) → InOrder from calls to → from ≤ to
order [] from to h = h
order (refusal host now ∷ calls) from to h = omega (arith, order calls now to h.1, h.0)
order (rejection host kind now ∷ calls) from to h = order calls from to h
order (untrusted host now ∷ calls) from to h = order calls from to h
order (handshake host now ∷ calls) from to h = order calls from to h
order (change now ∷ calls) from to h = order calls from to h
order (forget hosts ∷ calls) from to h = order calls from to h

-- the suppression of silent refusals at a time lasts until after `end`, and at most 60 seconds
record Held (from end : ℕ) (s : Learning) : Type 0 where
  until : ℕ
  found : s.silent_suppressed_until ≡ some until
  late : end ≤ until
  soon : until ≤ from + silent_suppress_secs

module _ (end : ℕ) (small : end ≤ u64_max) where
  kept :
      (from : ℕ) (s s' : Learning)
      → s'.silent_suppressed_until ≡ s.silent_suppressed_until
      → Held from end s
      → Held from end s'
  kept from s s' e h = record {
    until = h.until;
    found = rw e (h.found);
    late = h.late;
    soon = h.soon;
  }

  later : (from now : ℕ) (s : Learning) → from ≤ now → Held from end s → Held now end s
  later from now s le h = record {
    until = h.until;
    found = h.found;
    late = h.late;
    soon = omega (arith, h.soon, le);
  }

  still :
      (from now : ℕ) (s : Learning)
      → from ≤ now
      → now < end
      → Held from end s
      → still_suppressed s.silent_suppressed_until now silent_suppress_secs ≡ true
  still from now s le lt h = rw (h.found) (ground (arith, h.late, h.soon))

  refused :
      (key : Bytes) (from now : ℕ) (s : Learning)
      → from ≤ now
      → now < end
      → end ≤ now + silent_suppress_secs
      → Held from end s
      → Held now end (silent_refusal key now s).0
  refused key from now s le lt near h =
      elim ((suppressed_refusal key now s (still from now s le lt h)).1) [
        | inl same ↦ kept now s _ same (later from now s le h)
        | inr again ↦ record {
          until = _;
          found = again;
          late = ground (arith, small, near);
          soon = ground arith;
        }
      ]

module _ (end : ℕ) (small : end ≤ u64_max) where
  acted :
      (c : Call) (s : Learning) (from : ℕ)
      → is_other c ≡ true
      → Held from end s
      → Held from end (act c s)
  acted c s from other h = kept end small from s (act c s) (act-Untouched c s other).1 h

  -- the suppression is held through any calls
  run-Held :
      (calls : List Call) (p : Policy) (from to : ℕ)
      → InOrder from calls to
      → to < end
      → end ≤ from + silent_suppress_secs
      → Held from end p.learning
      → (last : ℕ) × (last ≤ to) × Held last end (run p calls).learning
  unfolding run
  run-Held [] p from to o lt near h = (from, o, h)
  run-Held (rejection host kind now ∷ calls) p from to o lt near h =
      run-Held calls _ from to o lt near (
        perform-elim (Held from end) p (rejection host kind now) h
          (acted (rejection host kind now) p.learning from refl h))
  run-Held (untrusted host now ∷ calls) p from to o lt near h = run-Held calls _ from to o lt near (
      perform-elim (Held from end) p (untrusted host now) h
        (acted (untrusted host now) p.learning from refl h))
  run-Held (handshake host now ∷ calls) p from to o lt near h = run-Held calls _ from to o lt near (
      perform-elim (Held from end) p (handshake host now) h (
        kept end small from p.learning _
          (intercepted_handshake-suppression (lookup_key host) now p.learning) h))
  run-Held (change now ∷ calls) p from to o lt near h =
      run-Held calls _ from to o lt near
        (perform-elim (Held from end) p (change now) h (acted (change now) p.learning from refl h))
  run-Held (forget hosts ∷ calls) p from to o lt near h = run-Held calls _ from to o lt near (
      perform-elim (Held from end) p (forget hosts) h (acted (forget hosts) p.learning from refl h))
  run-Held (refusal host now ∷ calls) p from to o lt near h =
      let soon : now < end = omega (arith, order calls now to o.1, lt) in
      let near' : end ≤ now + silent_suppress_secs = omega (arith, near, o.0) in
      run-Held calls _ now to o.1 lt near' (
        perform-elim (Held now end) p (refusal host now) (later end small from now p.learning o.0 h)
          (refused end small (lookup_key host) from now p.learning o.0 soon near' h))

-- the policy after a burst of silent refusals
abbrev pub after_silent_burst : Policy → ℕ → Policy
after_silent_burst p t = record p { learning = silent_burst p.learning t }

silent_burst-Held :
    (t : ℕ) (s : Learning)
    → t + silent_suppress_secs ≤ u64_max
    → Held t (t + silent_suppress_secs) (silent_burst s t)
silent_burst-Held t s small = record {
  until = _;
  found = (silent_burst-pins t s []).3;
  late = ground arith;
  soon = ground arith;
}

-- For 60 seconds after a burst of silent refusals no silent refusal of any host makes a pin, whatever
-- calls of the policy come in between, silent refusals and further bursts among them, as long as the
-- clock does not go back from one silent refusal to the next (and times stay in 64 bits).
pub burst_suppresses :
    (t now : ℕ) (p : Policy) (between : List Call) (host : Bytes)
    → InOrder t between now
    → now < t + silent_suppress_secs
    → t + silent_suppress_secs ≤ u64_max
    → (record_silent_refusal (run (after_silent_burst p t) between) host now).1 ≡ false
unfolding record_silent_refusal
burst_suppresses t now p between host o lt small =
    let end = t + silent_suppress_secs in
    let q = run (after_silent_burst p t) between in
    let (last, le, h) =
      run-Held end small between (after_silent_burst p t) t now o lt (omega arith)
        (silent_burst-Held t p.learning small) in
    elim (Bool-cases (is_empty (lookup_key host))) [
      | inl e ↦ rw e refl
      | inr e ↦ rw e (
          (suppressed_refusal (lookup_key host) now q.learning
            (still end small last now q.learning le lt h)).0)
    ]
