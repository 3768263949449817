-- ===== src/Dns/Local.antt =====
-- The names that only the local network knows, of core/crates/dns/src/local.rs.
pub mod Under
use tollgate.Common.{
  ℕ, ◌-◌, Bool, false, not, ◌&&◌, ◌||◌, List, [], ◌∷◌, ◌++◌, ◌==◌, ltb, if◌then◌else◌, length,
  is_empty, any, get_or, drop, Bytes, codes, eq_ignore_ascii_case, strip_dot,
}

abbrev pub local_suffixes : List Bytes
local_suffixes =
    codes "lan"
    ∷ codes "home.arpa"
    ∷ codes "internal"
    ∷ codes "localdomain"
    ∷ codes "fritz.box"
    ∷ codes "intranet"
    ∷ codes "corp"
    ∷ codes "private"
    ∷ []

abbrev pub local_reverse_zones : List Bytes
local_reverse_zones =
    codes "10.in-addr.arpa"
    ∷ codes "16.172.in-addr.arpa"
    ∷ codes "17.172.in-addr.arpa"
    ∷ codes "18.172.in-addr.arpa"
    ∷ codes "19.172.in-addr.arpa"
    ∷ codes "20.172.in-addr.arpa"
    ∷ codes "21.172.in-addr.arpa"
    ∷ codes "22.172.in-addr.arpa"
    ∷ codes "23.172.in-addr.arpa"
    ∷ codes "24.172.in-addr.arpa"
    ∷ codes "25.172.in-addr.arpa"
    ∷ codes "26.172.in-addr.arpa"
    ∷ codes "27.172.in-addr.arpa"
    ∷ codes "28.172.in-addr.arpa"
    ∷ codes "29.172.in-addr.arpa"
    ∷ codes "30.172.in-addr.arpa"
    ∷ codes "31.172.in-addr.arpa"
    ∷ codes "168.192.in-addr.arpa"
    ∷ codes "254.169.in-addr.arpa"
    ∷ codes "c.f.ip6.arpa"
    ∷ codes "d.f.ip6.arpa"
    ∷ codes "8.e.f.ip6.arpa"
    ∷ codes "9.e.f.ip6.arpa"
    ∷ codes "a.e.f.ip6.arpa"
    ∷ codes "b.e.f.ip6.arpa"
    ∷ []

unfoldable pub under : Bytes → Bytes → Bool
under name suffix =
    let start = length name - length suffix in
    if ltb (length name) (length suffix)
    then false
    else eq_ignore_ascii_case (drop start name) suffix
      && (start == 0 || get_or name (start - 1) 0 == b'.')

-- `is_local_name` for a name without its final dot
abbrev pub is_local : Bytes → Bool
is_local name =
    if is_empty name
    then false
    else not (any (λ b. b == b'.') name)
      || any (λ suffix. under name suffix) (local_suffixes ++ local_reverse_zones)

unfoldable pub is_local_name : Bytes → Bool
unfolding under
is_local_name name = is_local (strip_dot name)
