-- ===== src/Policy/Times.antt =====
-- The constants and the tests of times of core/crates/policy/src/policy.rs. A time is a `u64` of
-- Unix seconds.
use tollgate.Common.{ℕ, ◌+◌, ◌-◌, ◌%◌, Bool, ◌&&◌, leb, saturating_add_u64, u64_max}

abbrev pub rejection_window_secs : ℕ
rejection_window_secs = 600

abbrev pub pin_lifetime_secs : ℕ
pin_lifetime_secs = 2592000

abbrev pub max_recent_rejections : ℕ
max_recent_rejections = 1024

abbrev pub upstream_burst_hosts : ℕ
upstream_burst_hosts = 3

abbrev pub upstream_burst_secs : ℕ
upstream_burst_secs = 60

abbrev pub upstream_suppress_secs : ℕ
upstream_suppress_secs = 600

abbrev pub upstream_recent_secs : ℕ
upstream_recent_secs = 300

abbrev pub silent_refusals : ℕ
silent_refusals = 3

abbrev pub silent_flood_secs : ℕ
silent_flood_secs = 60

abbrev pub silent_flood_seconds : ℕ
silent_flood_seconds = 10

abbrev pub silent_flood_ratio : ℕ
silent_flood_ratio = 5

abbrev pub silent_held_back_log_secs : ℕ
silent_held_back_log_secs = 300

abbrev pub silent_recent_secs : ℕ
silent_recent_secs = 60

abbrev pub silent_burst_hosts : ℕ
silent_burst_hosts = 4

abbrev pub silent_burst_secs : ℕ
silent_burst_secs = 10

abbrev pub silent_suppress_secs : ℕ
silent_suppress_secs = 60

abbrev pub clock_tolerance_secs : ℕ
clock_tolerance_secs = 3600

unfoldable pub within : ℕ → ℕ → ℕ → Bool
within at now max_age =
    leb at (saturating_add_u64 now clock_tolerance_secs) && leb (now - at) max_age

unfoldable pub pin_is_live : ℕ → ℕ → Bool
unfolding within
pin_is_live learned_at now = within learned_at now (pin_lifetime_secs - 1)

-- `now + secs` on `u64`, which wraps where overflow is not checked
abbrev pub wrapping_add : ℕ → ℕ → ℕ
wrapping_add now secs = (now + secs) % (u64_max + 1)
