-- ===== src/Policy/Refusals/TakeBack.antt =====
-- Which pins a network change or a burst takes back (core/crates/policy/src/policy.rs).
use tollgate.Common.{
  ℕ, ◌≡◌, refl, Bool, true, ◌&&◌, ◌||◌, saturating_add_u64, Option, none, some, List, [], ◌∷◌, ◌++◌,
  arith, any, Bytes, ◌==◌, str_eq, str_eq_iff, if◌then◌else◌, is_some_and,
}
use tollgate.Common.HashMap.{get, get-remove}
use tollgate.Policy.Times.{
  within, upstream_recent_secs, silent_recent_secs, silent_burst_secs, silent_suppress_secs,
}
use tollgate.Policy.Learning.{Learning, take_back, silent_suppressed, burst_loop, silent_burst}
use tollgate.Policy.Refusals.{take_back_recent, network_change}

-- Whether the pin that a host has is the one that an entry of the list records, and the entry's
-- time passes the test.
abbrev pub taken : List (Bytes × ℕ) → (ℕ → Bool) → Bytes → Option ℕ → Bool
taken l test k pin = is_some_and pin (λ at. any (λ e. str_eq e.0 k && at == e.1 && test e.1) l)

pub get-take_back :
    (s : Learning) (host k : Bytes) (at : ℕ)
    → get (take_back s host at).0.pins k
      ≡ (if taken ((host, at) ∷ []) (λ _. true) k (get s.pins k) then none else get s.pins k)
unfolding take_back
get-take_back s host k at = ground (arith, get-remove s.pins host k, str_eq_iff host k)

get-take_back_recent :
    (l : List (Bytes × ℕ)) (now max_age : ℕ) (s : Learning) (k : Bytes)
    → get (take_back_recent l now max_age s).pins k
      ≡ (if taken l (λ at. within at now max_age) k (get s.pins k) then none else get s.pins k)
unfolding take_back_recent
get-take_back_recent [] now max_age s k = ground arith
get-take_back_recent ((host, at) ∷ rest) now max_age s k = ground (
  arith,
  get-take_back s host k at,
  get-take_back_recent rest now max_age
      (if within at now max_age then (take_back s host at).0 else s) k,
)

-- taking back changes the pins alone
take_back-silent :
    (s : Learning) (host : Bytes) (at : ℕ) → (take_back s host at).0.silent ≡ s.silent
unfolding take_back
take_back-silent s host at = ground arith

take_back_recent-silent :
    (l : List (Bytes × ℕ)) (now max_age : ℕ) (s : Learning)
    → (take_back_recent l now max_age s).silent ≡ s.silent
unfolding take_back_recent
take_back_recent-silent [] now max_age s = refl
take_back_recent-silent ((host, at) ∷ rest) now max_age s = ground (
  arith,
  take_back-silent s host at,
  take_back_recent-silent rest now max_age
      (if within at now max_age then (take_back s host at).0 else s),
)

-- A network change takes back exactly the pins that an upstream failure of the last 300 seconds or
-- silent refusals of the last 60 seconds made, as long as the pin is still that one; it keeps every
-- other pin, and forgets the silent refusals that are pending or counted.
pub network_change-pins :
    (now : ℕ) (s : Learning) (k : Bytes)
    → (get (network_change now s).pins k ≡ (
        if taken s.upstream (λ at. within at now upstream_recent_secs) k (get s.pins k)
          || taken s.silent (λ at. within at now silent_recent_secs) k (get s.pins k)
        then none
        else get s.pins k))
      × ((network_change now s).silent_pending ≡ [])
      × ((network_change now s).silent_flood ≡ [])
      × ((network_change now s).silent_hosts ≡ [])
unfolding network_change
network_change-pins now s k =
    let s1 = take_back_recent s.upstream now upstream_recent_secs (record s { upstream = [] }) in
    (
      ground (
        arith,
        get-take_back_recent s.upstream now upstream_recent_secs (record s { upstream = [] }) k,
        take_back_recent-silent s.upstream now upstream_recent_secs (record s { upstream = [] }),
        get-take_back_recent s1.silent now silent_recent_secs (record s1 { silent = [] }) k,
      ),
      refl,
      refl,
      refl,
    )

get-burst_loop :
    (l : List (Bytes × ℕ)) (now : ℕ) (s : Learning) (k : Bytes)
    → get (burst_loop l now s).pins k ≡ (
        if taken l (λ at. within at now silent_burst_secs) k (get s.pins k)
        then none
        else get s.pins k)
unfolding burst_loop
get-burst_loop [] now s k = ground arith
get-burst_loop ((host, at) ∷ rest) now s k = ground (
  arith,
  get-take_back s host k at,
  get-burst_loop rest now
      (if within at now silent_burst_secs
        then (take_back s host at).0
        else record s { silent = s.silent ++ (host, at) ∷ [] })
      k,
)

-- A burst of silent refusals takes back exactly the pins that silent refusals of the last 10 seconds
-- made, keeps every other pin, forgets the pending and the counted refusals, and suppresses learning
-- from silent refusals until 60 seconds later.
pub silent_burst-pins :
    (now : ℕ) (s : Learning) (k : Bytes)
    → (get (silent_burst s now).pins k ≡ (
        if taken s.silent (λ at. within at now silent_burst_secs) k (get s.pins k)
        then none
        else get s.pins k))
      × ((silent_burst s now).silent_pending ≡ [])
      × ((silent_burst s now).silent_flood ≡ [])
      × ((silent_burst s now).silent_suppressed_until
          ≡ some (saturating_add_u64 now silent_suppress_secs))
unfolding silent_burst silent_suppressed
silent_burst-pins now s k =
    let s' = (silent_suppressed s now).0 in
    (ground (arith, get-burst_loop s'.silent now (record s' { silent = [] }) k), refl, refl, refl)
