-- ===== src/Policy/Learning.antt =====
-- `Learning` and its methods, and `make_room`, of core/crates/policy/src/policy.rs. A method
-- returns the new state, beside its result if it has one. What is only logged is left out.
pub mod Room
pub mod Bounded
use tollgate.Common.{
  ℕ, ◌+◌, ◌-◌, Bool, true, false, not, ◌&&◌, Option, none, some, List, [], ◌∷◌, ◌++◌, ltb, leb,
  ◌==◌, if◌then◌else◌, is_some_and, unwrap_or, length, any, retain, Bytes, str_eq,
  saturating_add_u64,
}
use tollgate.Common.HashMap
use tollgate.Common.HashMap.{HashMap, get, insert, remove, contains_key, min_by_key}
use tollgate.Policy.Times.{
  within, max_recent_rejections, upstream_suppress_secs, silent_burst_secs, silent_recent_secs,
  silent_suppress_secs, silent_refusals, silent_held_back_log_secs,
}
use tollgate.Policy.PerSecond
use tollgate.Policy.PerSecond.{PerSecond, Trusted, FloodCounts}

pub record Learning : Type 0 where
  pub pins : HashMap ℕ
  pub recent : HashMap ℕ
  pub upstream : List (Bytes × ℕ)
  pub upstream_suppressed_until : Option ℕ
  pub silent_pending : HashMap (List ℕ)
  pub silent_hosts : HashMap ℕ
  pub silent_flood : HashMap PerSecond
  pub trusted : HashMap Trusted
  pub held_back_logged : HashMap ℕ
  pub silent : List (Bytes × ℕ)
  pub silent_suppressed_until : Option ℕ

-- `Learning { pins, ..Learning::default() }`
abbrev pub with_pins : HashMap ℕ → Learning
with_pins pins = record {
  pins = pins;
  recent = [];
  upstream = [];
  upstream_suppressed_until = none;
  silent_pending = [];
  silent_hosts = [];
  silent_flood = [];
  trusted = [];
  held_back_logged = [];
  silent = [];
  silent_suppressed_until = none;
}

module _ {V : Type 0} where
  unfoldable pub drop_oldest : (V → ℕ) → HashMap V → HashMap V
  drop_oldest last m = elim (min_by_key last m) [ none ↦ m | some (host, _) ↦ remove m host ]

  unfoldable pub make_room : HashMap V → (V → Bool) → (V → ℕ) → HashMap V
  unfolding drop_oldest
  make_room m fresh last =
      if ltb (length m) max_recent_rejections
      then m
      else let m' = HashMap.retain fresh m in
        if ltb (length m') max_recent_rejections then m' else drop_oldest last m'

unfoldable pub take_back : Learning → Bytes → ℕ → Learning × Bool
take_back s host at =
    if is_some_and (get s.pins host) (λ learned_at. learned_at == at)
    then (record s { pins = remove s.pins host }, true)
    else (s, false)

-- the guard of the first arm of the two tests below
abbrev pub still_suppressed : Option ℕ → ℕ → ℕ → Bool
still_suppressed until now secs = is_some_and until (λ t. ltb now t && leb (t - now) secs)

unfoldable pub upstream_suppressed : Learning → ℕ → Learning × Bool
upstream_suppressed s now =
    if still_suppressed s.upstream_suppressed_until now upstream_suppress_secs
    then (s, true)
    else (record s { upstream_suppressed_until = none }, false)

unfoldable pub silent_suppressed : Learning → ℕ → Learning × Bool
silent_suppressed s now =
    if still_suppressed s.silent_suppressed_until now silent_suppress_secs
    then (s, true)
    else (record s { silent_suppressed_until = none }, false)

-- the hosts refused lately, with room for one more if `host` is new
abbrev pub burst_hosts : Learning → Bytes → ℕ → HashMap ℕ
burst_hosts s host now =
    let hosts = HashMap.retain (λ at. within at now silent_burst_secs) s.silent_hosts in
    if contains_key hosts host then hosts else make_room hosts (λ _. true) (λ at. at)

unfoldable pub note_silent_host : Learning → Bytes → ℕ → Learning × ℕ
unfolding make_room
note_silent_host s host now =
    let hosts = insert (burst_hosts s host now) host now in
    (record s { silent_hosts = hosts }, length hosts)

abbrev pub flood_room : Learning → Bytes → ℕ → HashMap PerSecond
flood_room s host now =
    if contains_key s.silent_flood host
    then s.silent_flood
    else make_room s.silent_flood (λ refusals. ltb 0 (PerSecond.count refusals now).1)
        PerSecond.last

unfoldable pub count_for_flood : Learning → Bytes → ℕ → Learning × (ℕ × ℕ)
unfolding make_room
count_for_flood s host now =
    let flood = flood_room s host now in
    let refusals = PerSecond.add (unwrap_or (get flood host) []) now in
    (record s { silent_flood = insert flood host refusals }, PerSecond.count refusals now)

unfoldable pub recent_handshakes : Learning → Bytes → ℕ → ℕ
recent_handshakes s host now = elim (get s.trusted host) [
  | none ↦ 0
  | some trusted ↦ (PerSecond.count trusted.recent now).0
]

-- the entries of other hosts
abbrev pub others : Bytes → List (Bytes × ℕ) → List (Bytes × ℕ)
others host = retain (λ e. not (str_eq e.0 host))

unfoldable pub learn_silent : Learning → Bytes → ℕ → Learning
learn_silent s host now = record s {
  silent_pending = remove s.silent_pending host;
  silent_flood = remove s.silent_flood host;
  recent = remove s.recent host;
  upstream = others host s.upstream;
  silent = retain (λ e. within e.1 now silent_recent_secs) s.silent ++ (host, now) ∷ [];
  pins = insert s.pins host now;
}

-- a host that was logged before needs no room
abbrev pub log_room : Learning → Bytes → ℕ → HashMap ℕ
log_room s host now =
    if contains_key s.held_back_logged host
    then s.held_back_logged
    else make_room s.held_back_logged (λ at. within at now (silent_held_back_log_secs - 1))
        (λ at. at)

unfoldable pub log_held_back : Learning → Bytes → FloodCounts → ℕ → Learning
unfolding make_room
log_held_back s host counts now =
    let logged = get s.held_back_logged host in
    if ltb counts.seconds silent_refusals
    then s
    else if is_some_and logged (λ at. within at now (silent_held_back_log_secs - 1))
    then s
    else record s { held_back_logged = insert (log_room s host now) host now }

-- the loop of `silent_burst` over the pins learned from silent refusals
unfoldable pub burst_loop : List (Bytes × ℕ) → ℕ → Learning → Learning
unfolding take_back
burst_loop [] now s = s
burst_loop ((host, at) ∷ rest) now s = burst_loop rest now (
    if within at now silent_burst_secs
    then (take_back s host at).0
    else record s { silent = s.silent ++ (host, at) ∷ [] })

unfoldable pub silent_burst : Learning → ℕ → Learning
unfolding burst_loop silent_suppressed
silent_burst s now =
    let s' = (silent_suppressed s now).0 in
    record (burst_loop s'.silent now (record s' { silent = [] })) {
      silent_pending = [];
      silent_flood = [];
      silent_suppressed_until = some (saturating_add_u64 now silent_suppress_secs);
    }
