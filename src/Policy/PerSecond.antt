-- ===== src/Policy/PerSecond.antt =====
-- `PerSecond`, `Trusted` and `FloodCounts` of core/crates/policy/src/policy.rs.
use tollgate.Common.{
  ℕ, ◌+◌, ◌*◌, Bool, ◌&&◌, List, [], ◌∷◌, leb, ◌==◌, if◌then◌else◌, max, retain, saturating_add_u32,
}
use tollgate.Policy.Times.{within, silent_flood_secs, silent_flood_seconds, silent_flood_ratio}

-- the second, and the connections counted in it
abbrev pub PerSecond : Type 0
PerSecond = List (ℕ × ℕ)

-- the `match` on `iter_mut().find(..)`
unfoldable pub bump : PerSecond → ℕ → PerSecond
bump [] now = (now, 1) ∷ []
bump ((at, count) ∷ rest) now =
    let later = bump rest now in
    if at == now then (at, saturating_add_u32 count 1) ∷ rest else (at, count) ∷ later

unfoldable pub add : PerSecond → ℕ → PerSecond
unfolding bump
add seconds now = bump (retain (λ e. within e.0 now silent_flood_secs) seconds) now

-- the `fold` over the entries that the filter keeps, from given sums
unfoldable pub count_from : ℕ × ℕ → PerSecond → ℕ → ℕ × ℕ
count_from sums [] now = sums
count_from sums ((at, count) ∷ rest) now =
    count_from
      (if within at now silent_flood_secs
        then (saturating_add_u32 sums.0 count, sums.1 + 1)
        else sums)
      rest now

unfoldable pub count : PerSecond → ℕ → ℕ × ℕ
unfolding count_from
count seconds now = count_from (0, 0) seconds now

unfoldable pub last : PerSecond → ℕ
last [] = 0
last ((at, _) ∷ rest) = max at (last rest)

pub record Trusted : Type 0 where
  pub last : ℕ
  pub recent : PerSecond

abbrev pub no_trust : Trusted
no_trust = record { last = 0; recent = [] }

pub record FloodCounts : Type 0 where
  pub refusals : ℕ
  pub seconds : ℕ
  pub handshakes : ℕ

unfoldable pub is_flood : FloodCounts → Bool
is_flood c =
    leb silent_flood_seconds c.seconds && leb (c.handshakes * silent_flood_ratio) c.refusals
