-- ===== src/Policy/Refusals.antt =====
-- How `Policy` of core/crates/policy/src/policy.rs learns: the bodies of its methods behind the
-- lock, for a lookup key that is not empty. Each returns the new state, and whether the host
-- became a pin.
pub mod Wf
pub mod TakeBack
pub mod Alerts
pub mod Silent
pub mod Guards
pub mod Upstream
pub mod Reported
pub mod Untouched
use tollgate.Common.{
  ℕ, ◌+◌, Bool, true, false, not, some, List, [], ◌∷◌, ◌++◌, ltb, leb, ◌==◌, if◌then◌else◌,
  is_some_and, unwrap_or, length, any, retain, Bytes, max,
}
use tollgate.Common.HashMap
use tollgate.Common.HashMap.{HashMap, get, insert, remove, contains_key}
use tollgate.Policy.Times.{
  within, pin_is_live, rejection_window_secs, upstream_burst_hosts, upstream_burst_secs,
  upstream_recent_secs, upstream_suppress_secs, silent_refusals, silent_burst_hosts,
  silent_recent_secs, wrapping_add,
}
use tollgate.Policy.PatternSet.{set_insert}
use tollgate.Policy.PerSecond
use tollgate.Policy.PerSecond.{Trusted, FloodCounts, no_trust, is_flood}
use tollgate.Policy.Learning.{
  Learning, make_room, take_back, upstream_suppressed, silent_suppressed, note_silent_host,
  count_for_flood, recent_handshakes, others, learn_silent, log_held_back, silent_burst,
}

-- `learning.pins.retain(|_, at| pin_is_live(*at, now))`
unfoldable pub expire : Learning → ℕ → Learning
expire s now = record s { pins = HashMap.retain (λ at. pin_is_live at now) s.pins }

-- the first arm of the `match` in `record_client_rejection`
unfoldable pub learn_rejected : Bytes → ℕ → Learning → Learning
learn_rejected key now s = record s {
  recent = remove s.recent key;
  silent_pending = remove s.silent_pending key;
  silent_flood = remove s.silent_flood key;
  upstream = others key s.upstream;
  silent = others key s.silent;
  pins = insert s.pins key now;
}

-- the limit on the hosts with one rejection, which keeps and drops what `make_room` would
abbrev pub rejection_room : Learning → ℕ → HashMap ℕ
rejection_room s now = make_room s.recent (λ at. within at now rejection_window_secs) (λ at. at)

-- the second arm
unfoldable pub remember_rejection : Bytes → ℕ → Learning → Learning
unfolding make_room
remember_rejection key now s = record s { recent = insert (rejection_room s now) key now }

-- `Policy::record_client_rejection`
unfoldable pub client_rejection : Bytes → ℕ → Learning → Learning × Bool
unfolding expire learn_rejected remember_rejection
client_rejection key now s0 =
    let s = expire s0 now in
    if contains_key s.pins key
    then (s, false)
    else if is_some_and (get s.recent key) (λ previous. within previous now rejection_window_secs)
    then (learn_rejected key now s, true)
    else (remember_rejection key now s, false)

-- the different hosts of a list of pins, `collect`ed to a `HashSet`
unfoldable pub hosts_of : List (Bytes × ℕ) → List Bytes
hosts_of [] = []
hosts_of ((host, _) ∷ rest) = set_insert (hosts_of rest) host

unfoldable pub take_back_all : List (Bytes × ℕ) → Learning → Learning
unfolding take_back
take_back_all [] s = s
take_back_all ((host, at) ∷ rest) s = take_back_all rest (take_back s host at).0

abbrev pub upstream_burst : Learning → ℕ → List (Bytes × ℕ)
upstream_burst s now = retain (λ e. within e.1 now upstream_burst_secs) s.upstream

-- a burst of upstream failures on the hosts of `burst`
unfoldable pub end_upstream_burst : List (Bytes × ℕ) → ℕ → Learning → Learning
unfolding take_back_all
end_upstream_burst burst now s =
    let s' = take_back_all burst s in
    record s' {
      upstream = retain (λ e. not (within e.1 now upstream_burst_secs)) s'.upstream;
      upstream_suppressed_until = some (wrapping_add now upstream_suppress_secs);
    }

unfoldable pub learn_upstream : Bytes → ℕ → Learning → Learning
learn_upstream key now s = record s {
  recent = remove s.recent key;
  silent_pending = remove s.silent_pending key;
  silent_flood = remove s.silent_flood key;
  pins = insert s.pins key now;
  upstream = s.upstream ++ (key, now) ∷ [];
}

-- `learn_upstream_untrusted` where upstream failures are not suppressed
unfoldable pub count_upstream : Bytes → ℕ → Learning → Learning × Bool
unfolding hosts_of end_upstream_burst learn_upstream
count_upstream key now s0 =
    let s = record s0 {
      upstream = retain (λ e. within e.1 now upstream_recent_secs) s0.upstream;
    } in
    let burst = upstream_burst s now in
    if leb upstream_burst_hosts (length (hosts_of burst) + 1)
    then (end_upstream_burst burst now s, false)
    else (learn_upstream key now s, true)

-- `Policy::learn_upstream_untrusted`
unfoldable pub upstream_untrusted : Bytes → ℕ → Learning → Learning × Bool
unfolding expire upstream_suppressed count_upstream
upstream_untrusted key now s0 =
    let s = expire s0 now in
    if contains_key s.pins key
    then (s, false)
    else let (s', suppressed) = upstream_suppressed s now in
      if suppressed then (s', false) else count_upstream key now s'

-- a silent refusal of a host that a client trusted us for lately
unfoldable pub guarded_refusal : Bytes → ℕ → FloodCounts → Learning → Learning × Bool
unfolding is_flood learn_silent log_held_back
guarded_refusal key now counts s0 =
    let s = record s0 { silent_pending = remove s0.silent_pending key } in
    if is_flood counts
    then (learn_silent s key now, true)
    else (log_held_back s key counts now, false)

unfoldable pub latest : List ℕ → ℕ
latest [] = 0
latest (at ∷ rest) = max at (latest rest)

abbrev pub pending_room : Learning → Bytes → ℕ → HashMap (List ℕ)
pending_room s key now =
    if contains_key s.silent_pending key
    then s.silent_pending
    else make_room s.silent_pending (any (λ at. within at now rejection_window_secs)) latest

abbrev pub pending_seconds : Learning → Bytes → ℕ → List ℕ
pending_seconds s key now =
    retain (λ at. within at now rejection_window_secs)
      (unwrap_or (get (pending_room s key now) key) [])

-- a silent refusal of a host that no client trusted us for lately
unfoldable pub pending_refusal : Bytes → ℕ → Learning → Learning × Bool
unfolding make_room latest learn_silent
pending_refusal key now s =
    let seconds = pending_seconds s key now in
    let seen = record s { silent_pending = insert (pending_room s key now) key seconds } in
    let more = seconds ++ now ∷ [] in
    let noted = record s { silent_pending = insert (pending_room s key now) key more } in
    if any (λ at. at == now) seconds
    then (seen, false)
    else if ltb (length more) silent_refusals
    then (noted, false)
    else (learn_silent noted key now, true)

abbrev pub trusted_lately : Learning → Bytes → ℕ → Bool
trusted_lately s key now =
    is_some_and (get s.trusted key) (λ trusted. within trusted.last now rejection_window_secs)

-- `record_silent_refusal` where silent refusals are not suppressed
unfoldable pub count_refusal : Bytes → ℕ → Learning → Learning × Bool
unfolding count_for_flood recent_handshakes guarded_refusal pending_refusal
count_refusal key now s0 =
    let (s, counted) = count_for_flood s0 key now in
    let counts : FloodCounts = record {
      refusals = counted.0;
      seconds = counted.1;
      handshakes = recent_handshakes s key now;
    } in
    if trusted_lately s key now then guarded_refusal key now counts s else pending_refusal key now s

-- `record_silent_refusal` once the burst has been looked for
unfoldable pub after_burst : Bytes → ℕ → Learning → Learning × Bool
unfolding silent_suppressed count_refusal
after_burst key now s0 =
    let (s, suppressed) = silent_suppressed s0 now in
    if suppressed then (s, false) else count_refusal key now s

-- `Policy::record_silent_refusal`
unfoldable pub silent_refusal : Bytes → ℕ → Learning → Learning × Bool
unfolding expire note_silent_host silent_burst after_burst
silent_refusal key now s0 =
    let s = expire s0 now in
    if contains_key s.pins key
    then (s, false)
    else let (s', hosts) = note_silent_host s key now in
      if leb silent_burst_hosts hosts then (silent_burst s' now, false) else after_burst key now s'

abbrev pub trust_room : Learning → Bytes → ℕ → HashMap Trusted
trust_room s key now =
    if contains_key s.trusted key
    then s.trusted
    else make_room s.trusted (λ t. within t.last now rejection_window_secs) (λ t. t.last)

-- `Policy::record_intercepted_handshake`
unfoldable pub intercepted_handshake : Bytes → ℕ → Learning → Learning
unfolding make_room
intercepted_handshake key now s0 =
    let s = record s0 { silent_pending = remove s0.silent_pending key } in
    let before = unwrap_or (get (trust_room s key now) key) no_trust in
    let trusted : Trusted = record { last = now; recent = PerSecond.add before.recent now } in
    record s { trusted = insert (trust_room s key now) key trusted }

-- the loops of `on_network_change`: take back what was learned at most `max_age` ago
unfoldable pub take_back_recent : List (Bytes × ℕ) → ℕ → ℕ → Learning → Learning
unfolding take_back
take_back_recent [] now max_age s = s
take_back_recent ((host, at) ∷ rest) now max_age s =
    take_back_recent rest now max_age (if within at now max_age then (take_back s host at).0 else s)

-- `Policy::on_network_change`
unfoldable pub network_change : ℕ → Learning → Learning
unfolding take_back_recent
network_change now s0 =
    let s1 = take_back_recent s0.upstream now upstream_recent_secs (record s0 { upstream = [] }) in
    let s2 = take_back_recent s1.silent now silent_recent_secs (record s1 { silent = [] }) in
    record s2 { silent_pending = []; silent_flood = []; silent_hosts = [] }

-- one round of `Policy::forget_pins`
unfoldable pub forget_pin : Bytes → Learning → Learning × Bool
forget_pin key s = (
  record s {
    pins = remove s.pins key;
    recent = remove s.recent key;
    silent_pending = remove s.silent_pending key;
    silent_flood = remove s.silent_flood key;
    upstream = others key s.upstream;
    silent = others key s.silent;
  },
  contains_key s.pins key,
)
