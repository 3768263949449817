-- ===== src/Policy/Decisions/Rules.antt =====
-- What the learning rules of core/crates/policy/src/policy.rs decide for the next connection.
use tollgate.Common.{
  ℕ, ◌≤◌, ◌≡◌, ◌∙◌, true, false, Option, none, arith, Bytes, is_empty, if◌then◌else◌, is_some_and,
  u64_max,
}
use tollgate.Common.HashMap.{get, IsDistinct}
use tollgate.Policy.PatternSet
use tollgate.Policy.PatternSet.{PatternSet, lookup_key}
use tollgate.Policy.Times.{within, pin_is_live, rejection_window_secs}
use tollgate.Policy.Learning.{Learning}
use tollgate.Policy.Refusals.{client_rejection}
use tollgate.Policy.Refusals.Alerts.{live_now, first_alert, second_alert}
use tollgate.Policy.Decisions.{
  Policy, RejectionKind, Decision, intercept, passthrough, learned_pin, with_learning, classify,
  record_client_rejection,
}

-- A host whose connections are intercepted unless it has a learned pin.
pub record IsOpen (compiled_in : PatternSet) (p : Policy) (host : Bytes) : Type 0 where
  pub named : is_empty (lookup_key host) ≡ false
  pub enabled : p.mitm_enabled ≡ true
  pub not_user : PatternSet.matches p.user (lookup_key host) ≡ false
  pub not_bundled : PatternSet.matches compiled_in (lookup_key host) ≡ false

-- the decision for a pin, if there is one
abbrev pub pin_decision : Option ℕ → ℕ → Decision
pin_decision pin now =
    if is_some_and pin (λ at. pin_is_live at now) then passthrough learned_pin else intercept

module _ (compiled_in : PatternSet) (p : Policy) (host : Bytes)
    (free : IsOpen compiled_in p host) where
  classify_pin :
      (l : Learning) (now : ℕ)
      → classify compiled_in (record p { learning = l }) host now
        ≡ pin_decision (get l.pins (lookup_key host)) now
  unfolding classify
  classify_pin l now = ground (arith, free.enabled, free.not_user, free.not_bundled)

  rejection_step :
      (l : Learning) (kind : RejectionKind) (now : ℕ)
      → record_client_rejection (record p { learning = l }) host kind now
        ≡ with_learning p (client_rejection (lookup_key host) now l)
  unfolding record_client_rejection
  rejection_step l kind now = rw free.named

  -- Where interception is on and the host has a lookup key that is on neither the user's nor the
  -- bundled passthrough list, in a state that holds no host's pin twice and at times of 64 bits: the
  -- first TLS alert of a client for a host without a pin and without a remembered alert is not reported
  -- as a pin, and after it the host is intercepted, whatever the time; a second alert makes it a pin, so
  -- that the next connection is passed through, exactly when the first lies within the last 600 seconds
  -- (and not far in the future), and else it stays intercepted.
  pub two_alerts :
      (kind kind' : RejectionKind) (t between now : ℕ)
      → IsDistinct p.learning.pins
      → get p.learning.pins (lookup_key host) ≡ none
      → get p.learning.recent (lookup_key host) ≡ none
      → now ≤ u64_max
      → ((record_client_rejection p host kind t).1 ≡ false)
        × (classify compiled_in (record_client_rejection p host kind t).0 host between ≡ intercept)
        × ((record_client_rejection (record_client_rejection p host kind t).0 host kind' now).1
            ≡ within t now rejection_window_secs)
        × (classify compiled_in
              (record_client_rejection (record_client_rejection p host kind t).0 host kind' now).0
              host
              now
            ≡ (if within t now rejection_window_secs then passthrough learned_pin else intercept))
  two_alerts kind kind' t between now d unpinned unseen small =
      let key = lookup_key host in
      let l = (client_rejection key t p.learning).0 in
      let (quiet, still, seen, d') = first_alert key t p.learning d unpinned unseen in
      let (told, pin) = second_alert key now l d' t still seen in
      rw (rejection_step p.learning kind t, rejection_step l kind' now)
        (
          quiet,
          classify_pin l between ∙ ground (arith, still),
          told,
          classify_pin (client_rejection key now l).0 now ∙ ground (arith, pin, live_now now small),
        )
