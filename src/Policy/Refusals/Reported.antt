-- ===== src/Policy/Refusals/Reported.antt =====
-- The pins that the methods of `Policy` (core/crates/policy/src/policy.rs) make, and what they
-- return.
use tollgate.Common.{
  inl, ◌⊎◌, ℕ, ◌≡◌, refl, ap, Bool, true, false, some, List, [], ◌∷◌, arith, Bytes, str_eq_iff,
  if◌then◌else◌,
}
use tollgate.Common.HashMap.{HashMap, get, insert, IsDistinct, get-insert, get-retain}
use tollgate.Policy.Times.{pin_is_live}
use tollgate.Policy.PerSecond.{FloodCounts}
use tollgate.Policy.Learning.{
  Learning, take_back, learn_silent, log_held_back, silent_burst, silent_suppressed,
  upstream_suppressed, note_silent_host,
}
use tollgate.Policy.Refusals.{
  expire, client_rejection, learn_rejected, remember_rejection, learn_upstream, end_upstream_burst,
  take_back_all, count_upstream, upstream_untrusted, guarded_refusal, pending_refusal,
  count_refusal, after_burst, silent_refusal,
}
use tollgate.Policy.Refusals.TakeBack.{silent_burst-pins, get-take_back}

-- A pin of the new state was there before, or is the host's own, made now and reported.
pub record Reports (before : HashMap ℕ) (key : Bytes) (now : ℕ) (r : Learning × Bool) : Type 0 where
  pub pin :
      (k : Bytes) (at : ℕ)
      → get r.0.pins k ≡ some at
      → (get before k ≡ some at) ⊎ ((r.1 ≡ true) × (k ≡ key) × (at ≡ now))

if-Reports :
    (b : Bool) {m : HashMap ℕ} {key : Bytes} {now : ℕ} {p q : Learning × Bool}
    → Reports m key now p
    → Reports m key now q
    → Reports m key now (if b then p else q)
if-Reports true v w = v
if-Reports false v w = w

-- The pins of `p` are among those of `m`.
record KeepsPins (m p : HashMap ℕ) : Type 0 where
  pin : (k : Bytes) (at : ℕ) → get p k ≡ some at → get m k ≡ some at

KeepsPins-refl : (m : HashMap ℕ) → KeepsPins m m
KeepsPins-refl m = record { pin = λ k at h. h }

kept :
    {m : HashMap ℕ} (key : Bytes) (now : ℕ) (t : Learning)
    → KeepsPins m t.pins
    → Reports m key now (t, false)
kept key now t h = record { pin = λ k at e. inl (h.pin k at e) }

learned :
    {m : HashMap ℕ} (key : Bytes) (now : ℕ) (s t : Learning)
    → KeepsPins m s.pins
    → t.pins ≡ insert s.pins key now
    → Reports m key now (t, true)
learned key now s t h e = record {
  pin = λ k at g. ground (
    arith,
    ap (λ (p : HashMap ℕ). get p k) e,
    get-insert s.pins key k now,
    str_eq_iff key k,
    h.pin k at,
  );
}

expire-KeepsPins :
    (now : ℕ) (s : Learning) → IsDistinct s.pins → KeepsPins s.pins (expire s now).pins
unfolding expire
expire-KeepsPins now s d = record {
  pin = λ k at h. ground (arith, get-retain (λ t. pin_is_live t now) s.pins k d);
}

take_back-KeepsPins :
    {m : HashMap ℕ} (host : Bytes) (at : ℕ) (s : Learning)
    → KeepsPins m s.pins
    → KeepsPins m (take_back s host at).0.pins
take_back-KeepsPins host t s h = record {
  pin = λ k at e. ground (arith, get-take_back s host k t, h.pin k at);
}

take_back_all-KeepsPins :
    {m : HashMap ℕ} (l : List (Bytes × ℕ)) (s : Learning)
    → KeepsPins m s.pins
    → KeepsPins m (take_back_all l s).pins
unfolding take_back_all
take_back_all-KeepsPins [] s h = h
take_back_all-KeepsPins ((host, t) ∷ rest) s h =
    take_back_all-KeepsPins rest (take_back s host t).0 (take_back-KeepsPins host t s h)

module _ {m : HashMap ℕ} (key : Bytes) (now : ℕ) (s : Learning) (h : KeepsPins m s.pins) where
  silent_burst-KeepsPins : KeepsPins m (silent_burst s now).pins
  silent_burst-KeepsPins = record {
    pin = λ k at e. ground (arith, (silent_burst-pins now s k).0, h.pin k at);
  }

  log_held_back-KeepsPins :
      (counts : FloodCounts) → KeepsPins m (log_held_back s key counts now).pins
  unfolding log_held_back
  log_held_back-KeepsPins counts = record { pin = λ k at e. ground (arith, h.pin k at) }

  upstream_suppressed-KeepsPins : KeepsPins m (upstream_suppressed s now).0.pins
  unfolding upstream_suppressed
  upstream_suppressed-KeepsPins = record { pin = λ k at e. ground (arith, h.pin k at) }

  silent_suppressed-KeepsPins : KeepsPins m (silent_suppressed s now).0.pins
  unfolding silent_suppressed
  silent_suppressed-KeepsPins = record { pin = λ k at e. ground (arith, h.pin k at) }

  end_upstream_burst-KeepsPins :
      (l : List (Bytes × ℕ)) → KeepsPins m (end_upstream_burst l now s).pins
  unfolding end_upstream_burst
  end_upstream_burst-KeepsPins l = take_back_all-KeepsPins l s h

  learn_upstream-Reports : Reports m key now (learn_upstream key now s, true)
  unfolding learn_upstream
  learn_upstream-Reports = learned key now s _ h refl

  learn_silent-Reports : Reports m key now (learn_silent s key now, true)
  unfolding learn_silent
  learn_silent-Reports = learned key now s _ h refl

  learn_rejected-Reports : Reports m key now (learn_rejected key now s, true)
  unfolding learn_rejected
  learn_rejected-Reports = learned key now s _ h refl

  remember_rejection-Reports : Reports m key now (remember_rejection key now s, false)
  unfolding remember_rejection
  remember_rejection-Reports = kept key now _ h

ruleset report_rules = (
  if-Reports, kept, silent_burst-KeepsPins, log_held_back-KeepsPins, end_upstream_burst-KeepsPins,
  learn_upstream-Reports, learn_silent-Reports, learn_rejected-Reports, remember_rejection-Reports,
)

module _ {m : HashMap ℕ} (key : Bytes) (now : ℕ) (s : Learning) (h : KeepsPins m s.pins) where
  pending_refusal-Reports : Reports m key now (pending_refusal key now s)
  unfolding pending_refusal
  pending_refusal-Reports = search report_rules

  guarded_refusal-Reports :
      (counts : FloodCounts) → Reports m key now (guarded_refusal key now counts s)
  unfolding guarded_refusal
  guarded_refusal-Reports counts = search report_rules

  count_upstream-Reports : Reports m key now (count_upstream key now s)
  unfolding count_upstream
  count_upstream-Reports = search report_rules

module _ {m : HashMap ℕ} (key : Bytes) (now : ℕ) (s : Learning) (h : KeepsPins m s.pins) where
  count_refusal-Reports : Reports m key now (count_refusal key now s)
  unfolding count_refusal
  count_refusal-Reports = search (if-Reports, pending_refusal-Reports, guarded_refusal-Reports)

module _ {m : HashMap ℕ} (key : Bytes) (now : ℕ) (s : Learning) (h : KeepsPins m s.pins) where
  after_burst-Reports : Reports m key now (after_burst key now s)
  unfolding after_burst
  after_burst-Reports =
      let free = silent_suppressed-KeepsPins key now s h in
      if-Reports _ (kept key now _ free) (count_refusal-Reports key now _ free)

module _ (key : Bytes) (now : ℕ) (s : Learning) (d : IsDistinct s.pins) where
  client_rejection-Reports : Reports s.pins key now (client_rejection key now s)
  unfolding client_rejection
  client_rejection-Reports =
      let t = expire s now in
      let live = expire-KeepsPins now s d in
      if-Reports _ (kept key now t live) (
        if-Reports _ (learn_rejected-Reports key now t live)
          (remember_rejection-Reports key now t live))

  upstream_untrusted-Reports : Reports s.pins key now (upstream_untrusted key now s)
  unfolding upstream_untrusted
  upstream_untrusted-Reports =
      let t = expire s now in
      let live = expire-KeepsPins now s d in
      let u = (upstream_suppressed t now).0 in
      let free = upstream_suppressed-KeepsPins key now t live in
      if-Reports _ (kept key now t live)
        (if-Reports _ (kept key now u free) (count_upstream-Reports key now u free))

  silent_refusal-Reports : Reports s.pins key now (silent_refusal key now s)
  unfolding silent_refusal
  silent_refusal-Reports =
      let t = expire s now in
      let live = expire-KeepsPins now s d in
      let noted = (note_silent_host t key now).0 in
      if-Reports _ (kept key now t live) (
        if-Reports _
          (kept key now (silent_burst noted now) (silent_burst-KeepsPins key now noted live))
          (after_burst-Reports key now noted live))

  -- Whatever one of the three methods that learn is told, every pin of the new state was a pin
  -- before, learned at the same time, or it is the pin of the very host, learned now, and the method
  -- returned true.
  pub learners-Reports :
      Reports s.pins key now (client_rejection key now s)
      × Reports s.pins key now (upstream_untrusted key now s)
      × Reports s.pins key now (silent_refusal key now s)
  learners-Reports = (client_rejection-Reports, upstream_untrusted-Reports, silent_refusal-Reports)
