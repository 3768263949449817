-- ===== src/Dns/Doh.antt =====
-- Upstreams, their health and failover of core/crates/dns/src/doh.rs, with the clock readings of
-- core/crates/common/src/clock.rs. The exchanges with an upstream are asynchronous I/O: their results
-- are arguments.
pub mod Race
pub mod Failover
pub mod Tests
use tollgate.Common.{
  ℕ, zero, suc, ◌+◌, ◌-◌, ◌*◌, ◌/◌, max, Bool, true, false, not, ◌&&◌, ◌||◌, Option, none, some,
  List, [], ◌∷◌, ◌++◌, ltb, ◌==◌, if◌then◌else◌, length, take, drop, Bytes, Text,
  saturating_add_u64,
}

pub record Reading : Type 0 where
  pub total_ms : ℕ
  pub awake_ms : ℕ

abbrev pub total_secs : Reading → ℕ
total_secs r = r.total_ms / 1000

abbrev pub awake_since : Reading → Reading → ℕ
awake_since r earlier = r.awake_ms - earlier.awake_ms

abbrev pub slept_since : Reading → Reading → ℕ
slept_since r earlier = r.total_ms - earlier.total_ms - (r.awake_ms - earlier.awake_ms)

-- the order that `Reading` derives
abbrev pub later : Reading → Reading → Reading
later a b =
    if ltb a.total_ms b.total_ms || a.total_ms == b.total_ms && ltb a.awake_ms b.awake_ms
    then b
    else a

-- in milliseconds
abbrev pub max_idle : ℕ
max_idle = 120 * 1000

abbrev pub max_sleep : ℕ
max_sleep = 1000

-- in seconds
abbrev pub down_for : ℕ
down_for = 30

abbrev pub dns_header_len : ℕ
dns_header_len = 12

pub data DohError : Type 0 where
  no_upstream bad_query busy stopped timeout : DohError
  connect tls http bad_answer config : Text → DohError
  status : ℕ → DohError

pub data Health : Type 0 where
  up down due : Health

-- an upstream, for connections that are handles; `open_sender` asks whether one is closed
pub record Upstream : Type 0 where
  pub sender : Option ℕ
  pub generation : ℕ
  pub last_used : Reading
  pub down_until : ℕ
  pub probing : Bool
  pub epoch : ℕ

abbrev pub health : Upstream → ℕ → Health
health u now =
    if u.down_until == 0
    then up
    else if ltb now u.down_until
    then down
    else if u.probing
    then down
    else due

abbrev pub mark_up : Upstream → Upstream
mark_up u = record u { down_until = 0 }

-- until when an upstream that failed is down: never 0, which means up
abbrev pub down_until_after : ℕ → ℕ
down_until_after now = max (saturating_add_u64 now down_for) 1

-- one round of `reset_connections`
abbrev pub reset : Upstream → Upstream
reset u = elim u.sender [
  | none ↦ record u { epoch = u.epoch + 1; down_until = 0 }
  | some s ↦ record u {
    epoch = u.epoch + 1;
    down_until = 0;
    sender = none;
    generation = u.generation + 1;
  }
]

abbrev use_sender : Upstream → Reading → ℕ → Upstream × Option (ℕ × ℕ)
use_sender u now s =
    if ltb max_sleep (slept_since now u.last_used) || ltb max_idle (awake_since now u.last_used)
    then (record u { sender = none }, none)
    else (u, some (u.generation, s))

abbrev pub open_sender : (ℕ → Bool) → Upstream → Reading → Upstream × Option (ℕ × ℕ)
open_sender is_closed u now = elim u.sender [
  | none ↦ (u, none)
  | some s ↦ if is_closed s then (u, none) else use_sender u now s
]

abbrev pub touch : Upstream → ℕ → Reading → Upstream
touch u generation now =
    if u.generation == generation then record u { last_used = later u.last_used now } else u

abbrev pub discard : Upstream → ℕ → Upstream
discard u generation = if u.generation == generation then record u { sender = none } else u

-- `probe` up to the task that it spawns
abbrev pub probe : Upstream → Upstream
probe u = record u { probing = true }

abbrev pub if_due : Health → Upstream → Upstream
if_due due u = probe u
if_due up u = u
if_due down u = u

abbrev pub is_up : Health → Bool
is_up up = true
is_up down = false
is_up due = false

-- the upstreams after `order`
unfoldable pub probe_due : List Upstream → ℕ → List Upstream
probe_due [] now = []
probe_due (u ∷ ups) now = if_due (health u now) u ∷ probe_due ups now

-- the lists `up` and `down` of the loop of `order`, from that index
unfoldable pub split_order : ℕ → List Upstream → ℕ → List ℕ × List ℕ
split_order index [] now = ([], [])
split_order index (u ∷ ups) now =
    let (ups_up, ups_down) = split_order (suc index) ups now in
    if is_up (health u now) then (index ∷ ups_up, ups_down) else (ups_up, index ∷ ups_down)

unfoldable pub order : List Upstream → ℕ → List ℕ
unfolding split_order
order ups now = let (ups_up, ups_down) = split_order 0 ups now in ups_up ++ ups_down

-- `Result<Vec<u8>, DohError>`
pub data Answer : Type 0 where
  ok : Bytes → Answer
  err : DohError → Answer

-- the id 0, and the answer with the query's
abbrev pub without_id : Bytes → Bytes
without_id query = 0 ∷ 0 ∷ drop 2 query

abbrev pub with_id : Bytes → Bytes → Bytes
with_id query answer = take 2 query ++ drop 2 answer

-- the loop of `resolve`, given what each upstream answers
unfoldable pub try_all : (ℕ → Bytes → Answer) → Bytes → DohError → List ℕ → Answer
try_all ask query last [] = err last
try_all ask query last (index ∷ rest) = elim (ask index (without_id query)) [
  | ok answer ↦ ok (with_id query answer)
  | err e ↦ try_all ask query e rest
]

-- `resolve`, with a permit or without
unfoldable pub resolve : Bool → (ℕ → Bytes → Answer) → List Upstream → ℕ → Bytes → Answer
unfolding try_all order
resolve permit ask ups now query =
    if ltb (length query) dns_header_len
    then err bad_query
    else if not permit
    then err busy
    else try_all ask query no_upstream (order ups now)
