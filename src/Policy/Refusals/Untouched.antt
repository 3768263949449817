-- ===== src/Policy/Refusals/Untouched.antt =====
-- What the methods of `Policy` (core/crates/policy/src/policy.rs) leave as it is of the hosts that
-- clients trusted us for and of the end of the suppression of silent refusals.
use tollgate.Common.{
  ℕ, ◌≡◌, refl, Bool, true, false, List, [], ◌∷◌, ◌++◌, arith, Bytes, retain, if◌then◌else◌,
  Bool-cases, inl, inr, ◌⊎◌, some, leb, saturating_add_u64,
}
use tollgate.Policy.Times.{
  within, upstream_recent_secs, silent_burst_secs, silent_burst_hosts, silent_suppress_secs,
  silent_recent_secs,
}
use tollgate.Policy.Learning.{
  Learning, take_back, silent_burst, upstream_suppressed, still_suppressed, burst_loop,
  silent_suppressed, note_silent_host, learn_silent, log_held_back, count_for_flood,
}
use tollgate.Common.HashMap.{contains_key}
use tollgate.Policy.Refusals.TakeBack.{silent_burst-pins}
use tollgate.Policy.Refusals.{
  expire, client_rejection, take_back_all, upstream_burst, count_upstream, upstream_untrusted,
  guarded_refusal, pending_refusal, count_refusal, after_burst, silent_refusal,
  intercepted_handshake, take_back_recent, network_change,
}

-- The trusted hosts and the end of the suppression are those of the state before.
abbrev pub Untouched : Learning → Learning → Type 0
Untouched s s' = (s'.trusted ≡ s.trusted) × (s'.silent_suppressed_until ≡ s.silent_suppressed_until)

pub client_rejection-Untouched :
    (key : Bytes) (now : ℕ) (s : Learning) → Untouched s (client_rejection key now s).0
unfolding client_rejection expire
client_rejection-Untouched key now s = ground arith

take_back-Untouched : (s : Learning) (host : Bytes) (at : ℕ) → Untouched s (take_back s host at).0
unfolding take_back
take_back-Untouched s host at = ground arith

take_back_all-Untouched : (l : List (Bytes × ℕ)) (s : Learning) → Untouched s (take_back_all l s)
unfolding take_back_all
take_back_all-Untouched [] s = (refl, refl)
take_back_all-Untouched ((host, at) ∷ rest) s =
    ground
      (arith, take_back-Untouched s host at, take_back_all-Untouched rest (take_back s host at).0)

count_upstream-Untouched :
    (key : Bytes) (now : ℕ) (s : Learning) → Untouched s (count_upstream key now s).0
unfolding count_upstream
count_upstream-Untouched key now s =
    let s' = record s { upstream = retain (λ e. within e.1 now upstream_recent_secs) s.upstream } in
    ground (arith, take_back_all-Untouched (upstream_burst s' now) s')

pub upstream_untrusted-Untouched :
    (key : Bytes) (now : ℕ) (s : Learning) → Untouched s (upstream_untrusted key now s).0
unfolding upstream_untrusted expire upstream_suppressed
upstream_untrusted-Untouched key now s =
    ground (arith, count_upstream-Untouched key now (upstream_suppressed (expire s now) now).0)

take_back_recent-Untouched :
    (l : List (Bytes × ℕ)) (now max_age : ℕ) (s : Learning)
    → Untouched s (take_back_recent l now max_age s)
unfolding take_back_recent
take_back_recent-Untouched [] now max_age s = (refl, refl)
take_back_recent-Untouched ((host, at) ∷ rest) now max_age s = ground (
  arith,
  take_back-Untouched s host at,
  take_back_recent-Untouched rest now max_age
      (if within at now max_age then (take_back s host at).0 else s),
)

pub network_change-Untouched : (now : ℕ) (s : Learning) → Untouched s (network_change now s)
unfolding network_change
network_change-Untouched now s =
    let s1 = take_back_recent s.upstream now upstream_recent_secs (record s { upstream = [] }) in
    ground (
      arith,
      take_back_recent-Untouched s.upstream now upstream_recent_secs (record s { upstream = [] }),
      take_back_recent-Untouched s1.silent now silent_recent_secs (record s1 { silent = [] }),
    )

burst_loop-trusted :
    (l : List (Bytes × ℕ)) (now : ℕ) (s : Learning) → (burst_loop l now s).trusted ≡ s.trusted
unfolding burst_loop
burst_loop-trusted [] now s = refl
burst_loop-trusted ((host, at) ∷ rest) now s = ground (
  arith,
  take_back-Untouched s host at,
  burst_loop-trusted rest now (
      if within at now silent_burst_secs
      then (take_back s host at).0
      else record s { silent = s.silent ++ (host, at) ∷ [] }),
)

silent_burst-trusted : (now : ℕ) (s : Learning) → (silent_burst s now).trusted ≡ s.trusted
unfolding silent_burst silent_suppressed
silent_burst-trusted now s =
    let s' = (silent_suppressed s now).0 in
    ground (arith, burst_loop-trusted s'.silent now (record s' { silent = [] }))

-- counting a refusal
count_refusal-Untouched :
    (key : Bytes) (now : ℕ) (s : Learning) → Untouched s (count_refusal key now s).0
unfolding count_refusal guarded_refusal pending_refusal count_for_flood learn_silent log_held_back
count_refusal-Untouched key now s = ground arith

after_burst-trusted :
    (key : Bytes) (now : ℕ) (s : Learning) → (after_burst key now s).0.trusted ≡ s.trusted
unfolding after_burst silent_suppressed
after_burst-trusted key now s =
    ground (arith, count_refusal-Untouched key now (silent_suppressed s now).0)

module _ (key : Bytes) (now : ℕ) (s : Learning) where
  -- what holds of every way through a silent refusal holds of the refusal
  silent_refusal-elim :
      (P : Learning × Bool → Type 0)
      → P (expire s now, false)
      → P (silent_burst (note_silent_host (expire s now) key now).0 now, false)
      → P (after_burst key now (note_silent_host (expire s now) key now).0)
      → P (silent_refusal key now s)
  unfolding silent_refusal
  silent_refusal-elim P pinned burst alone =
      elim (Bool-cases (contains_key (expire s now).pins key)) [
        | inl known ↦ rw known pinned
        | inr new ↦
            elim (Bool-cases (leb silent_burst_hosts (note_silent_host (expire s now) key now).1)) [
              | inl many ↦ rw (new, many) burst
              | inr few ↦ rw (new, few) alone
            ]
      ]

  pub silent_refusal-trusted : (silent_refusal key now s).0.trusted ≡ s.trusted
  unfolding expire note_silent_host
  silent_refusal-trusted =
      let noted = (note_silent_host (expire s now) key now).0 in
      silent_refusal-elim (λ r. r.0.trusted ≡ s.trusted) refl (silent_burst-trusted now noted)
        (after_burst-trusted key now noted)

  -- A suppressed refusal makes no pin, and the suppression stays or, in a burst, begins again.
  pub suppressed_refusal :
      still_suppressed s.silent_suppressed_until now silent_suppress_secs ≡ true
      → ((silent_refusal key now s).1 ≡ false)
        × (((silent_refusal key now s).0.silent_suppressed_until ≡ s.silent_suppressed_until)
            ⊎ ((silent_refusal key now s).0.silent_suppressed_until
                ≡ some (saturating_add_u64 now silent_suppress_secs)))
  unfolding expire note_silent_host after_burst silent_suppressed
  suppressed_refusal h =
      let noted = (note_silent_host (expire s now) key now).0 in
      silent_refusal-elim
        (λ r.
          (r.1 ≡ false)
          × ((r.0.silent_suppressed_until ≡ s.silent_suppressed_until)
              ⊎ (r.0.silent_suppressed_until ≡ some (saturating_add_u64 now silent_suppress_secs))))
        (refl, inl refl) (refl, inr ((silent_burst-pins now noted key).3)) (rw h (refl, inl refl))

pub intercepted_handshake-suppression :
    (key : Bytes) (now : ℕ) (s : Learning)
    → (intercepted_handshake key now s).silent_suppressed_until ≡ s.silent_suppressed_until
unfolding intercepted_handshake
intercepted_handshake-suppression key now s = refl
