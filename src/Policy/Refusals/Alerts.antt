-- ===== src/Policy/Refusals/Alerts.antt =====
-- The rule of two alerts: `record_client_rejection` of core/crates/policy/src/policy.rs.
use tollgate.Common.{
  ℕ, ◌≤◌, ◌≡◌, refl, Bool, true, false, Option, none, some, List, [], ◌∷◌, arith, Bytes,
  str_eq_refl, if◌then◌else◌, u64_max, ◌∙◌, retain,
}
use tollgate.Common.HashMap.{get, IsDistinct, get-insert, get-retain, retain-IsDistinct}
use tollgate.Policy.Times.{
  pin_is_live, within, rejection_window_secs, upstream_recent_secs, silent_recent_secs,
}
use tollgate.Policy.Learning.{Learning, others}
use tollgate.Policy.Refusals.{expire, rejection_room, client_rejection, network_change}
use tollgate.Policy.Refusals.TakeBack.{network_change-pins, taken}

-- the pin just made is live
pub live_now : (now : ℕ) → now ≤ u64_max → pin_is_live now now ≡ true
unfolding pin_is_live
live_now now h = ground arith

module _ (key : Bytes) (now : ℕ) (s : Learning) (d : IsDistinct s.pins) where
  pub expire_absent : get s.pins key ≡ none → get (expire s now).pins key ≡ none
  unfolding expire
  expire_absent h = ground (arith, get-retain (λ t. pin_is_live t now) s.pins key d)

  -- the first alert is remembered
  pub first_alert :
      get s.pins key ≡ none
      → get s.recent key ≡ none
      → ((client_rejection key now s).1 ≡ false)
        × (get (client_rejection key now s).0.pins key ≡ none)
        × (get (client_rejection key now s).0.recent key ≡ some now)
        × IsDistinct (client_rejection key now s).0.pins
  unfolding client_rejection
  first_alert h g = ground (
    arith,
    get-retain (λ t. pin_is_live t now) s.pins key d,
    retain-IsDistinct (λ t. pin_is_live t now) s.pins d,
    str_eq_refl key,
    get-insert (rejection_room (expire s now) now) key key now,
  )

  -- a second one counts within the window
  pub second_alert :
      (before : ℕ)
      → get s.pins key ≡ none
      → get s.recent key ≡ some before
      → ((client_rejection key now s).1 ≡ within before now rejection_window_secs)
        × (get (client_rejection key now s).0.pins key
            ≡ (if within before now rejection_window_secs then some now else none))
  unfolding client_rejection
  second_alert before h g = ground (
    arith,
    get-retain (λ t. pin_is_live t now) s.pins key d,
    get-insert (expire s now).pins key key now,
    str_eq_refl key,
  )

-- an entry of another host records no pin of this one
taken-others :
    (l : List (Bytes × ℕ)) (test : ℕ → Bool) (key : Bytes) (pin : Option ℕ)
    → taken (others key l) test key pin ≡ false
unfolding retain
taken-others l test key none = refl
taken-others [] test key (some at) = refl
taken-others ((host, t) ∷ rest) test key (some at) =
    ground (arith, taken-others rest test key (some at))

module _ (key : Bytes) (now : ℕ) (s : Learning) where
  learned_alert :
      (client_rejection key now s).1 ≡ true
      → (get (client_rejection key now s).0.pins key ≡ some now)
        × ((client_rejection key now s).0.upstream ≡ others key s.upstream)
        × ((client_rejection key now s).0.silent ≡ others key s.silent)
  unfolding client_rejection
  learned_alert h = ground (arith, get-insert (expire s now).pins key key now, str_eq_refl key)

  -- A pin made by client alerts survives any later network change.
  pub alert_pin_survives :
      (later : ℕ)
      → (client_rejection key now s).1 ≡ true
      → get (network_change later (client_rejection key now s).0).pins key ≡ some now
  alert_pin_survives later h =
      let (pinned, up, quiet) = learned_alert h in
      (network_change-pins later (client_rejection key now s).0 key).0
      ∙ ground (
        arith,
        pinned,
        up,
        quiet,
        taken-others s.upstream (λ at. within at later upstream_recent_secs) key (some now),
        taken-others s.silent (λ at. within at later silent_recent_secs) key (some now),
      )
