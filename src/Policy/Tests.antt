-- ===== src/Policy/Tests.antt =====
-- Concrete inputs for the theorems on core/crates/policy.
use tollgate.Common.{
  ℕ, zero, suc, ◌≤◌, ◌<◌, ◌≡◌, ◌⊎◌, refl, Bool, true, false, ◌||◌, Option, none, some, List, [],
  ◌∷◌, arith, Bytes, Text, codes, lower, strip_dot, str_eq, any, length, All, unwrap_or,
  saturating_add_u64, if◌then◌else◌, split, byte_length, ◌+◌, retain,
}
use tollgate.Common.HashMap.{HashMap, get, IsDistinct, remove}
use tollgate.Policy.Times.{within}
use tollgate.Policy.Pattern
use tollgate.Policy.Pattern.{HostPattern, ok, parse, display}
use tollgate.Policy.Pattern.Parsing.{IsStored, parse-display}
use tollgate.Policy.PatternSet
use tollgate.Policy.PatternSet.{PatternSet, lookup_key}
use tollgate.Policy.PatternSet.Refines.{matches-new}
use tollgate.Policy.Learning.{Learning, with_pins, silent_burst}
use tollgate.Policy.Learning.Bounded.{nil-Bounded}
use tollgate.Policy.Refusals.{
  client_rejection, upstream_untrusted, silent_refusal, intercepted_handshake, network_change,
  expire,
}
use tollgate.Policy.Refusals.Wf.{IsWf}
use tollgate.Policy.Refusals.TakeBack.{taken, network_change-pins, silent_burst-pins}
use tollgate.Policy.Refusals.Reported.{Reports, learners-Reports}
use tollgate.Policy.Refusals.Alerts.{alert_pin_survives}
use tollgate.Policy.Refusals.Silent.{IsQuiet, three_refusals}
use tollgate.Policy.Decisions.Suppressed.{after_silent_burst, burst_suppresses}
use tollgate.Policy.Refusals.Upstream.{upstream_untrusted_burst, upstream_pin_dropped}
use tollgate.Policy.Decisions
use tollgate.Policy.Decisions.{
  Config, Policy, PinsFile, unknown_ca, bad_certificate, learned, classify, record_client_rejection,
  record_silent_refusal, record_intercepted_handshake,
}
use tollgate.Policy.Decisions.Runs.{run, run_new-IsWf}
use tollgate.Policy.Decisions.Runs
use tollgate.Policy.Decisions.Rules.{two_alerts}
use tollgate.Policy.Decisions.Forget.{forget_pins-pins}
use tollgate.Policy.Decisions.{forget_pins}
use tollgate.Common.{◌+◌}

abbrev host : Bytes
host = codes "a.example"

abbrev ads : HostPattern
ads = record { name = codes "ads.example"; wildcard = true }

abbrev nothing : Learning
nothing = with_pins []

-- a pin that an upstream failure made, one that silent refusals made, a host with one alert, two
-- hosts that failed upstream, and a host with refusals in eight seconds
abbrev learned_upstream : Learning
learned_upstream = record (with_pins ((host, 900) ∷ [])) { upstream = (host, 900) ∷ [] }

abbrev learned_silent : Learning
learned_silent = record (with_pins ((host, 1000) ∷ [])) { silent = (host, 1000) ∷ [] }

abbrev alerted : Learning
alerted = record nothing { recent = (host, 1000) ∷ [] }

abbrev two_upstream : Learning
two_upstream = record (with_pins ((codes "b", 1000) ∷ (codes "c", 1001) ∷ [])) {
  upstream = (codes "b", 1000) ∷ (codes "c", 1001) ∷ [];
}

abbrev flooded : Learning
flooded = record nothing {
  silent_flood =
      (
        host,
        (1000, 1)
            ∷ (1001, 1)
            ∷ (1002, 1)
            ∷ (1003, 1)
            ∷ (1004, 1)
            ∷ (1005, 1)
            ∷ (1006, 1)
            ∷ (1007, 1)
            ∷ [],
      )
      ∷ [];
}

ads-IsStored : IsStored ads
unfolding byte_length split lower
ads-IsStored = record {
  fits = omega arith;
  labels = ((refl, omega arith, refl), ((refl, omega arith, refl), tt));
  lowercase = refl;
}

parse-display_example : parse (display ads) ≡ ok ads
parse-display_example = parse-display ads ads-IsStored

-- patterns of both kinds, and a host that one of them matches
abbrev patterns : List HostPattern
patterns = record { name = codes "b.example"; wildcard = false } ∷ ads ∷ []

matches-new_example :
    PatternSet.matches (PatternSet.new patterns) (lookup_key (codes "x.ads.example"))
    ≡ any (λ p. Pattern.matches p (codes "x.ads.example")) patterns
unfolding lower PatternSet.strip_brackets tollgate.Common.strip_prefix tollgate.Common.strip_suffix
matches-new_example = matches-new patterns (codes "x.ads.example") (refl, (refl, tt)) refl

-- a map of `n` hosts, the one with the earliest time last
numbered : ℕ → HashMap ℕ
numbered zero = []
numbered (suc n) = (n ∷ [], n) ∷ numbered n

get-numbered : (n m : ℕ) → n ≤ m → get (numbered n) (m ∷ []) ≡ none
unfolding numbered get str_eq
get-numbered zero m h = refl
get-numbered (suc n) m h = ground (arith, h, get-numbered n m)

numbered-IsDistinct : (n : ℕ) → IsDistinct (numbered n)
unfolding numbered
numbered-IsDistinct zero = tt
numbered-IsDistinct (suc n) = (get-numbered n n (omega arith), numbered-IsDistinct n)

network_change-pins_example :
    (get (network_change 1000 learned_upstream).pins host ≡ none)
    × ((network_change 1000 learned_upstream).silent_pending ≡ [])
    × ((network_change 1000 learned_upstream).silent_flood ≡ [])
    × ((network_change 1000 learned_upstream).silent_hosts ≡ [])
unfolding get str_eq within
network_change-pins_example = network_change-pins 1000 learned_upstream host

silent_burst-pins_example :
    (get (silent_burst learned_silent 1005).pins host ≡ none)
    × ((silent_burst learned_silent 1005).silent_pending ≡ [])
    × ((silent_burst learned_silent 1005).silent_flood ≡ [])
    × ((silent_burst learned_silent 1005).silent_suppressed_until ≡ some 1065)
unfolding get str_eq within
silent_burst-pins_example = silent_burst-pins 1005 learned_silent host

learners-Reports_example :
    Reports
      (with_pins ((host, 900) ∷ [])).pins
      host
      1000
      (client_rejection host 1000 (with_pins ((host, 900) ∷ [])))
    × Reports
        (with_pins ((host, 900) ∷ [])).pins
        host
        1000
        (upstream_untrusted host 1000 (with_pins ((host, 900) ∷ [])))
    × Reports
        (with_pins ((host, 900) ∷ [])).pins
        host
        1000
        (silent_refusal host 1000 (with_pins ((host, 900) ∷ [])))
unfolding get
learners-Reports_example = learners-Reports host 1000 (with_pins ((host, 900) ∷ [])) (refl, tt)

alert_pin_survives_example :
    get (network_change 1300 (client_rejection host 1200 alerted).0).pins host ≡ some 1200
unfolding client_rejection get tollgate.Common.HashMap.retain str_eq within
alert_pin_survives_example = alert_pin_survives host 1200 alerted 1300 refl

nothing-IsQuiet : IsQuiet host [] nothing
unfolding get remove
nothing-IsQuiet = record {
  wf = record {
    pins = tt;
    recent = nil-Bounded;
    silent_pending = nil-Bounded;
    silent_hosts = nil-Bounded;
    silent_flood = nil-Bounded;
    trusted = nil-Bounded;
    held_back_logged = nil-Bounded;
  };
  unpinned = refl;
  few = omega arith;
  free = refl;
  untrusted = refl;
  pending = refl;
}

three_refusals_example :
    let r = silent_refusal host 1000 nothing in
    let r' = silent_refusal host 1004 r.0 in
    let r'' = silent_refusal host 1300 r'.0 in
    (r.1 ≡ false)
    × (get r.0.pins host ≡ none)
    × (r'.1 ≡ false)
    × (get r'.0.pins host ≡ none)
    × (r''.1 ≡ true)
    × (get r''.0.pins host ≡ some 1300)
three_refusals_example =
    three_refusals host 1000 1004 1300 nothing nothing-IsQuiet (omega arith) (omega arith)
      (omega arith) (omega arith)

upstream_untrusted_burst_example :
    ((upstream_untrusted host 1010 two_upstream).1 ≡ false)
    × ((k : Bytes)
        → get (upstream_untrusted host 1010 two_upstream).0.pins k ≡ (
            if taken two_upstream.upstream
              (λ at. within at 1010 60)
              k
              (get (expire two_upstream 1010).pins k)
            then none
            else get (expire two_upstream 1010).pins k))
    × ((upstream_untrusted host 1010 two_upstream).0.upstream_suppressed_until ≡ some 1610)
unfolding get str_eq tollgate.Policy.Refusals.hosts_of retain within PatternSet.set_insert
upstream_untrusted_burst_example =
    upstream_untrusted_burst host 1010 two_upstream ((refl, (refl, tt))) refl refl (omega arith)

upstream_pin_dropped_example :
    ((upstream_untrusted host 1000 nothing).1 ≡ true)
    × (get (upstream_untrusted host 1000 nothing).0.pins host ≡ some 1000)
    × (get (network_change 1200 (upstream_untrusted host 1000 nothing).0).pins host ≡ none)
unfolding get tollgate.Policy.Refusals.hosts_of retain within
upstream_pin_dropped_example =
    upstream_pin_dropped host 1000 nothing tt refl 1200 refl (omega arith) refl

abbrev no_pins : Text → Option PinsFile
no_pins json = none

abbrev config : Config
config = record { passthrough = []; allowlist = []; mitm_enabled = true }

abbrev fresh_policy : Policy
fresh_policy = record {
  mitm_enabled = true;
  user = PatternSet.empty;
  allowlist = PatternSet.empty;
  learning = nothing;
}

run_new-IsWf_example :
    IsWf (run fresh_policy (Runs.refusal host 1000 ∷ Runs.change 1001 ∷ [])).learning
unfolding Decisions.new PatternSet.new
run_new-IsWf_example =
    run_new-IsWf no_pins config none fresh_policy refl
      (Runs.refusal host 1000 ∷ Runs.change 1001 ∷ [])

two_alerts_example :
    ((record_client_rejection fresh_policy host unknown_ca 1000).1 ≡ false)
    × (classify PatternSet.empty
          (record_client_rejection fresh_policy host unknown_ca 1000).0
          host
          1200
        ≡ Decisions.intercept)
    × ((record_client_rejection
          (record_client_rejection fresh_policy host unknown_ca 1000).0
          host
          bad_certificate
          1300).1
        ≡ true)
    × (classify PatternSet.empty
          (record_client_rejection
            (record_client_rejection fresh_policy host unknown_ca 1000).0
            host
            bad_certificate
            1300).0
          host
          1300
        ≡ Decisions.passthrough Decisions.learned_pin)
unfolding lookup_key lower PatternSet.strip_brackets tollgate.Common.strip_prefix
    tollgate.Common.strip_suffix PatternSet.matches get within
two_alerts_example =
    two_alerts PatternSet.empty fresh_policy host
      (record { named = refl; enabled = refl; not_user = refl; not_bundled = refl }) unknown_ca
      bad_certificate 1000 1200 1300 tt refl refl (omega arith)

abbrev pinned_policy : Policy
pinned_policy = record fresh_policy { learning = with_pins ((host, 900) ∷ (codes "b", 901) ∷ []) }

forget_pins-pins_example :
    (get (forget_pins pinned_policy (codes "A.example." ∷ [])).0.learning.pins host ≡ none)
    × (length (forget_pins pinned_policy (codes "A.example." ∷ [])).0.learning.pins
          + (forget_pins pinned_policy (codes "A.example." ∷ [])).1
        ≡ 2)
unfolding get str_eq lookup_key lower PatternSet.strip_brackets tollgate.Common.strip_prefix
    tollgate.Common.strip_suffix
forget_pins-pins_example =
    forget_pins-pins pinned_policy (codes "A.example." ∷ []) host (refl, (refl, tt))

-- calls after a burst: refusals of two hosts, a handshake, a change of the network
abbrev after_burst_calls : List Runs.Call
after_burst_calls =
    Runs.refusal host 1010
    ∷ Runs.handshake host 1011
    ∷ Runs.change 1012
    ∷ Runs.refusal (codes "b") 1020
    ∷ []

burst_suppresses_example :
    (record_silent_refusal
      (run (after_silent_burst fresh_policy 1000) after_burst_calls)
      host
      1030).1
    ≡ false
burst_suppresses_example =
    burst_suppresses 1000 1030 fresh_policy after_burst_calls host
      (omega arith, (omega arith, omega arith)) (omega arith) (omega arith)

-- calls after a handshake: an alert for another host and its handshake, and a refusal
abbrev between_calls : List Runs.Call
between_calls =
    Runs.rejection (codes "b") unknown_ca 1001
    ∷ Runs.handshake (codes "b") 1002
    ∷ Runs.refusal host 1008
    ∷ []

abbrev flooded_policy : Policy
flooded_policy = record fresh_policy { learning = flooded }

abbrev trusting_policy : Policy
unfolding run record_intercepted_handshake
trusting_policy = run (record_intercepted_handshake flooded_policy host 1000) between_calls
