-- ===== src/Policy/Refusals/Upstream.antt =====
-- Pins learned from upstream TLS failures: `learn_upstream_untrusted` of
-- core/crates/policy/src/policy.rs.
use tollgate.Common.{
  ℕ, ◌+◌, ◌≤◌, ◌<◌, ◌≡◌, ◌∙◌, refl, true, false, Option, none, some, List, [], ◌∷◌, ◌++◌, arith,
  any-append, retain, length, Bytes, str_eq, str_eq_refl, if◌then◌else◌, le→leb, lt→leb, ◌&&◌, ◌==◌,
}
use tollgate.Common.HashMap.{get, IsDistinct, get-insert}
use tollgate.Policy.Times.{
  within, upstream_burst_hosts, upstream_burst_secs, upstream_recent_secs, upstream_suppress_secs,
  wrapping_add,
}
use tollgate.Policy.Learning.{Learning, take_back, still_suppressed, upstream_suppressed}
use tollgate.Policy.Refusals.{
  expire, hosts_of, take_back_all, upstream_burst, count_upstream, upstream_untrusted,
  network_change,
}
use tollgate.Policy.Refusals.TakeBack.{get-take_back, taken, network_change-pins}
use tollgate.Policy.Refusals.Alerts.{expire_absent}

get-take_back_all :
    (l : List (Bytes × ℕ)) (s : Learning) (k : Bytes)
    → get (take_back_all l s).pins k
      ≡ (if taken l (λ _. true) k (get s.pins k) then none else get s.pins k)
unfolding take_back_all
get-take_back_all [] s k = ground arith
get-take_back_all ((host, at) ∷ rest) s k =
    ground (arith, get-take_back s host k at, get-take_back_all rest (take_back s host at).0 k)

-- a list of which only the entries of a burst are kept
taken-retain :
    (l : List (Bytes × ℕ)) (now : ℕ) (k : Bytes) (pin : Option ℕ)
    → taken (retain (λ e. within e.1 now upstream_burst_secs) l) (λ _. true) k pin
      ≡ taken l (λ at. within at now upstream_burst_secs) k pin
unfolding retain
taken-retain l now k none = refl
taken-retain [] now k (some at) = refl
taken-retain ((host, t) ∷ rest) now k (some at) = ground (arith, taken-retain rest now k (some at))

-- an entry of the last 60 seconds is one of the last 300
burst_of_recent :
    (l : List (Bytes × ℕ)) (now : ℕ)
    → retain
        (λ e. within e.1 now upstream_burst_secs)
        (retain (λ e. within e.1 now upstream_recent_secs) l)
      ≡ retain (λ e. within e.1 now upstream_burst_secs) l
unfolding retain within
burst_of_recent [] now = refl
burst_of_recent ((host, t) ∷ rest) now = ground (arith, burst_of_recent rest now)

module _ (key : Bytes) (now : ℕ) (s : Learning) where
  count_upstream_burst :
      upstream_burst_hosts ≤ length (hosts_of (upstream_burst s now)) + 1
      → ((count_upstream key now s).1 ≡ false)
        × ((k : Bytes)
            → get (count_upstream key now s).0.pins k ≡ (
                if taken s.upstream (λ at. within at now upstream_burst_secs) k (get s.pins k)
                then none
                else get s.pins k))
        × ((count_upstream key now s).0.upstream_suppressed_until
            ≡ some (wrapping_add now upstream_suppress_secs))
  unfolding count_upstream
  count_upstream_burst many =
      rw (burst_of_recent s.upstream now, le→leb _ _ many)
        (
          refl,
          (λ k.
              get-take_back_all (retain (λ e. within e.1 now upstream_burst_secs) s.upstream) _ k
              ∙ rw (taken-retain s.upstream now k (get s.pins k)) refl),
          refl,
        )

  -- the state in which a failure is counted
  abbrev free_state : Learning
  free_state = record (expire s now) { upstream_suppressed_until = none }

  reaches_count :
      IsDistinct s.pins
      → get s.pins key ≡ none
      → still_suppressed s.upstream_suppressed_until now upstream_suppress_secs ≡ false
      → upstream_untrusted key now s ≡ count_upstream key now free_state
  reaches_count d unpinned free = go
    where
      freed : upstream_suppressed (expire s now) now ≡ (free_state, false)
      freed = unfold upstream_suppressed expire in rw free

      go : upstream_untrusted key now s ≡ count_upstream key now free_state
      go = unfold upstream_untrusted in rw (expire_absent key now s d unpinned, freed)

module _ (key : Bytes) (now : ℕ) (s : Learning) (d : IsDistinct s.pins)
    (unpinned : get s.pins key ≡ none) where
  -- An upstream failure of a further host, when those learned in the last 60 seconds already are of
  -- two or more, is a burst: nothing is learned, exactly the pins that upstream failures made in those
  -- 60 seconds are taken back, and upstream failures are suppressed until 600 seconds later.
  pub upstream_untrusted_burst :
      still_suppressed s.upstream_suppressed_until now upstream_suppress_secs ≡ false
      → upstream_burst_hosts ≤ length (hosts_of (upstream_burst s now)) + 1
      → ((upstream_untrusted key now s).1 ≡ false)
        × ((k : Bytes)
            → get (upstream_untrusted key now s).0.pins k ≡ (
                if taken s.upstream
                  (λ at. within at now upstream_burst_secs)
                  k
                  (get (expire s now).pins k)
                then none
                else get (expire s now).pins k))
        × ((upstream_untrusted key now s).0.upstream_suppressed_until
            ≡ some (wrapping_add now upstream_suppress_secs))
  upstream_untrusted_burst free many =
      rw (reaches_count key now s d unpinned free)
        (unfold expire in count_upstream_burst key now (free_state key now s) many)

  learned_upstream :
      still_suppressed s.upstream_suppressed_until now upstream_suppress_secs ≡ false
      → length (hosts_of (upstream_burst s now)) + 1 < upstream_burst_hosts
      → ((upstream_untrusted key now s).1 ≡ true)
        × (get (upstream_untrusted key now s).0.pins key ≡ some now)
        × ((upstream_untrusted key now s).0.upstream
            ≡ retain (λ e. within e.1 now upstream_recent_secs) s.upstream ++ (key, now) ∷ [])
  learned_upstream free few = rw (reaches_count key now s d unpinned free) (
      unfold expire count_upstream in
      rw (burst_of_recent s.upstream now, lt→leb _ _ few)
        (refl, ground (arith, get-insert (expire s now).pins key key now, str_eq_refl key), refl))

  -- A host learned from an upstream failure outside a burst is a pin at once, and a network change at
  -- most 300 seconds later takes the pin back.
  pub upstream_pin_dropped :
      (later : ℕ)
      → still_suppressed s.upstream_suppressed_until now upstream_suppress_secs ≡ false
      → length (hosts_of (upstream_burst s now)) + 1 < upstream_burst_hosts
      → within now later upstream_recent_secs ≡ true
      → ((upstream_untrusted key now s).1 ≡ true)
        × (get (upstream_untrusted key now s).0.pins key ≡ some now)
        × (get (network_change later (upstream_untrusted key now s).0).pins key ≡ none)
  upstream_pin_dropped later free few soon =
      let (told, pinned, listed) = learned_upstream free few in
      let s' = (upstream_untrusted key now s).0 in
      let old = retain (λ e. within e.1 now upstream_recent_secs) s.upstream in
      (
        told,
        pinned,
        (network_change-pins later s' key).0
            ∙ rw (pinned, listed)
                (ground (
                  arith,
                  any-append
                      (λ e. str_eq e.0 key && now == e.1 && within e.1 later upstream_recent_secs)
                      old ((key, now) ∷ []),
                  str_eq_refl key,
                )),
      )
