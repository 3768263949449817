-- ===== src/Events.antt =====
-- The blocked log of core/crates/common/src/events.rs, its newest event last.
pub mod Newest
pub mod Tests
use tollgate.Common.{
  ℕ, ◌-◌, Option, none, some, Option, List, [], ◌∷◌, ◌++◌, leb, if◌then◌else◌, length, take, drop,
  Text, utf8_length, byte_length,
}

pub data EventKind : Type 0 where
  dns request : EventKind

pub record BlockEvent : Type 0 where
  pub unix_secs : ℕ
  pub kind : EventKind
  pub host : Text
  pub url : Option Text
  pub source_host : Option Text

abbrev pub EventLog : Type 0
EventLog = List BlockEvent

abbrev pub capacity : ℕ
capacity = 500

abbrev pub max_url_bytes : ℕ
max_url_bytes = 512

abbrev pub max_host_bytes : ℕ
max_host_bytes = 253

-- the characters that lie within the first `max` bytes
unfoldable pub prefix_within : Text → ℕ → Text
prefix_within [] max = []
prefix_within (c ∷ s) max =
    let rest = prefix_within s (max - utf8_length c) in
    if leb (utf8_length c) max then c ∷ rest else []

unfoldable pub truncate_at_char_boundary : Text → ℕ → Text
unfolding prefix_within byte_length
truncate_at_char_boundary s max = if leb (byte_length s) max then s else prefix_within s max

abbrev pub truncate_option : Option Text → ℕ → Option Text
truncate_option none max = none
truncate_option (some s) max = some (truncate_at_char_boundary s max)

-- the event as it is stored
unfoldable pub truncated : BlockEvent → BlockEvent
unfolding truncate_at_char_boundary
truncated event = record event {
  url = truncate_option event.url max_url_bytes;
  host = truncate_at_char_boundary event.host max_host_bytes;
  source_host = truncate_option event.source_host max_host_bytes;
}

-- `EventLog::record`
unfoldable pub record_event : EventLog → BlockEvent → EventLog
unfolding truncated
record_event events event =
    (if leb capacity (length events) then drop 1 events else events) ++ truncated event ∷ []

abbrev pub reverse : EventLog → EventLog
reverse [] = []
reverse (e ∷ events) = reverse events ++ e ∷ []

unfoldable pub recent : EventLog → ℕ → List BlockEvent
recent events limit = take limit (reverse events)
