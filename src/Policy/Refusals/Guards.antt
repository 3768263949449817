-- ===== src/Policy/Refusals/Guards.antt =====
-- What keeps silent refusals of a host that a client trusted us for from making a pin:
-- `record_silent_refusal` of core/crates/policy/src/policy.rs.
use tollgate.Common.{
  ℕ, ◌≡◌, refl, true, false, none, [], arith, Bytes, str_eq_refl, unwrap_or, leb, Bool-cases, ◌⊎◌,
  inl, inr,
}
use tollgate.Common.HashMap.{get, contains_key, get-insert}
use tollgate.Policy.Times.{within, rejection_window_secs, silent_suppress_secs, silent_burst_hosts}
use tollgate.Policy.PerSecond
use tollgate.Policy.PerSecond.{FloodCounts, is_flood}
use tollgate.Policy.Learning.{
  Learning, still_suppressed, note_silent_host, silent_suppressed, count_for_flood,
  recent_handshakes, flood_room,
}
use tollgate.Policy.Refusals.{
  expire, trusted_lately, guarded_refusal, count_refusal, silent_refusal, intercepted_handshake,
}

-- the counts that the guard looks at
abbrev pub guard_counts : Bytes → ℕ → Learning → FloodCounts
guard_counts key now s =
    let seconds = PerSecond.add (unwrap_or (get (flood_room s key now) key) []) now in
    record {
      refusals = (PerSecond.count seconds now).0;
      seconds = (PerSecond.count seconds now).1;
      handshakes = recent_handshakes s key now;
    }

guarded_refusal-result :
    (key : Bytes) (now : ℕ) (counts : FloodCounts) (s : Learning)
    → (guarded_refusal key now counts s).1 ≡ is_flood counts
unfolding guarded_refusal
guarded_refusal-result key now counts s = elim (Bool-cases (is_flood counts)) [
  | inl e ↦ rw e
  | inr e ↦ rw e
]

suppressed_state :
    (now : ℕ) (s : Learning)
    → ((silent_suppressed s now).0 ≡ s)
      ⊎ ((silent_suppressed s now).0 ≡ record s { silent_suppressed_until = none })
unfolding silent_suppressed
suppressed_state now s =
    elim (Bool-cases (still_suppressed s.silent_suppressed_until now silent_suppress_secs)) [
      | inl e ↦ inl (rw e)
      | inr e ↦ inr (rw e)
    ]

-- the state in which a refusal is counted
abbrev before_count : Bytes → ℕ → Learning → Learning
before_count key now s = (silent_suppressed (note_silent_host (expire s now) key now).0 now).0

module _ (key : Bytes) (now : ℕ) (s : Learning) where
  guarded :
      trusted_lately s key now ≡ true
      → (count_refusal key now s).1 ≡ is_flood (guard_counts key now s)
  unfolding count_refusal
  guarded h =
      rw h (guarded_refusal-result key now (guard_counts key now s) (count_for_flood s key now).0)

module _ (key : Bytes) (now : ℕ) (s : Learning) where
  -- the refusal is not learned from, or it is counted
  refusal_counted :
      ((silent_refusal key now s).1 ≡ false)
      ⊎ ((silent_refusal key now s).1 ≡ (count_refusal key now (before_count key now s)).1)
  unfolding silent_refusal
  refusal_counted = elim (Bool-cases (contains_key (expire s now).pins key)) [
    | inl pinned ↦ inl (rw pinned)
    | inr new ↦
        elim (Bool-cases (leb silent_burst_hosts (note_silent_host (expire s now) key now).1)) [
          | inl burst ↦ inl (rw (new, burst))
          | inr alone ↦
              elim (Bool-cases
                (silent_suppressed (note_silent_host (expire s now) key now).0 now).1) [
                  | inl held ↦ inl (rw (new, alone, held))
                  | inr free ↦ inr (rw (new, alone, free))
                ]
        ]
  ]

  before_count-parts :
      ((before_count key now s).trusted ≡ s.trusted)
      × (guard_counts key now (before_count key now s) ≡ guard_counts key now s)
  unfolding expire note_silent_host recent_handshakes
  before_count-parts = elim (suppressed_state now (note_silent_host (expire s now) key now).0) [
    | inl e ↦ rw e (refl, refl)
    | inr e ↦ rw e (refl, refl)
  ]

  pub guarded_refusal_learns :
      trusted_lately s key now ≡ true
      → (silent_refusal key now s).1 ≡ true
      → is_flood (guard_counts key now s) ≡ true
  guarded_refusal_learns h learnt = elim refusal_counted [
    | inl e ↦ absurd (ground (arith, e))
    | inr e ↦
        let (trusted, counts) = before_count-parts in
        let h' : trusted_lately (before_count key now s) key now ≡ true = rw trusted h in
        cc (e, learnt, counts, guarded key now (before_count key now s) h')
  ]

pub handshake_trusts :
    (key : Bytes) (t now : ℕ) (s : Learning)
    → within t now rejection_window_secs ≡ true
    → trusted_lately (intercepted_handshake key t s) key now ≡ true
unfolding intercepted_handshake
handshake_trusts key t now s h = rw get-insert (ground (arith, str_eq_refl key))
