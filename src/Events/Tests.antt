-- ===== src/Events/Tests.antt =====
-- Concrete inputs for the theorems on the blocked log.
use tollgate.Common.{◌≡◌, ◌≤◌, [], ◌∷◌, none, map, codes, length}
use tollgate.Common.{byte_length}
use tollgate.Events.{BlockEvent, dns, truncated, truncate_at_char_boundary, capacity}
use tollgate.Events.Newest.{
  IsCut, newest, record_all, record_all-newest, truncate_at_char_boundary-IsCut,
}

abbrev blocked_event : BlockEvent
blocked_event = record {
  unix_secs = 7;
  kind = dns;
  host = codes "ads.example";
  url = none;
  source_host = none;
}

record_all-newest_example :
    (record_all [] (blocked_event ∷ []) ≡ newest capacity (map truncated (blocked_event ∷ [])))
    × (length (record_all [] (blocked_event ∷ [])) ≤ capacity)
record_all-newest_example = record_all-newest (blocked_event ∷ [])

truncate_at_char_boundary-IsCut_example :
    IsCut (codes "abc") 2 (truncate_at_char_boundary (codes "abc") 2)
    × (byte_length (codes "abc") ≤ 2 → truncate_at_char_boundary (codes "abc") 2 ≡ codes "abc")
truncate_at_char_boundary-IsCut_example = truncate_at_char_boundary-IsCut (codes "abc") 2
