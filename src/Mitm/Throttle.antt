-- ===== src/Mitm/Throttle.antt =====
-- `LogThrottle` of core/crates/mitm/src/throttle.rs. A time is a number of ticks of the monotonic
-- clock, an argument of each call.
pub mod Once
use tollgate.Common.{
  ℕ, ◌-◌, Bool, true, false, List, [], ◌∷◌, ltb, leb, if◌then◌else◌, is_some_and, length, Bytes,
}
use tollgate.Common.HashMap.{HashMap, get, insert, retain}

abbrev pub max_keys : ℕ
max_keys = 256

pub record LogThrottle : Type 0 where
  pub interval : ℕ
  pub last : HashMap ℕ

unfoldable pub new : ℕ → LogThrottle
new interval = record { interval = interval; last = [] }

-- the closure `recent`
abbrev pub is_recent : ℕ → ℕ → ℕ → Bool
is_recent interval now at = ltb (now - at) interval

-- the insertion at the end, once the table has room
unfoldable pub log : LogThrottle → Bytes → ℕ → LogThrottle × Bool
log s key now = (record { interval = s.interval; last = insert s.last key now }, true)

-- `last.retain(|_, at| recent(at))`
abbrev pub expired : LogThrottle → ℕ → LogThrottle
expired s now = record { interval = s.interval; last = retain (is_recent s.interval now) s.last }

-- the call at a time, with its answer
unfoldable pub allow : LogThrottle → Bytes → ℕ → LogThrottle × Bool
unfolding log
allow s key now =
    if is_some_and (get s.last key) (is_recent s.interval now)
    then (s, false)
    else if leb max_keys (length s.last)
    then (if leb max_keys (length (expired s now).last)
        then (expired s now, false)
        else log (expired s now) key now)
    else log s key now

-- A sequence of calls.
unfoldable pub allow_all : LogThrottle → List (Bytes × ℕ) → LogThrottle
unfolding allow
allow_all s [] = s
allow_all s ((key, now) ∷ calls) = allow_all (allow s key now).0 calls
