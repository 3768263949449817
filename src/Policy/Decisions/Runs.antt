-- ===== src/Policy/Decisions/Runs.antt =====
-- Any sequence of calls of `Policy` (core/crates/policy/src/policy.rs).
use tollgate.Common.{
  ℕ, ◌≡◌, Bool, true, false, Option, none, some, List, [], ◌∷◌, arith, Bytes, Text, ◌==◌, is_empty,
  Bool-cases, inl, inr, if◌then◌else◌,
}
use tollgate.Common.HashMap.{HashMap, IsDistinct, insert-IsDistinct}
use tollgate.Policy.Pattern.{ok}
use tollgate.Policy.PatternSet.{lookup_key}
use tollgate.Policy.Learning.{Learning, with_pins}
use tollgate.Policy.Learning.Bounded.{nil-Bounded}
use tollgate.Policy.Refusals.Wf.{
  IsWf, client_rejection-GivesWf, silent_refusal-GivesWf, upstream_untrusted-GivesWf,
  intercepted_handshake-IsWf, network_change-IsWf, forget_pin-GivesWf,
}
use tollgate.Policy.Decisions.{
  Policy, PinEntry, PinsFile, Config, RejectionKind, collect_pins, pins_of, parse_pins, new,
  learned, record_client_rejection, learn_upstream_untrusted, record_silent_refusal,
  record_intercepted_handshake, on_network_change, forget_all, forget_pins,
}

-- The calls that change the state of a `Policy`.
pub data Call : Type 0 where
  rejection : Bytes → RejectionKind → ℕ → Call
  untrusted : Bytes → ℕ → Call
  refusal : Bytes → ℕ → Call
  handshake : Bytes → ℕ → Call
  change : ℕ → Call
  forget : List Bytes → Call

unfoldable pub perform : Policy → Call → Policy
perform p (rejection host kind now) = (record_client_rejection p host kind now).0
perform p (untrusted host now) = (learn_upstream_untrusted p host now).0
perform p (refusal host now) = (record_silent_refusal p host now).0
perform p (handshake host now) = record_intercepted_handshake p host now
perform p (change now) = on_network_change p now
perform p (forget hosts) = (forget_pins p hosts).0

unfoldable pub run : Policy → List Call → Policy
unfolding perform
run p [] = p
run p (c ∷ calls) = run (perform p c) calls

collect_pins-IsDistinct :
    (l : List PinEntry) (pins : HashMap ℕ) → IsDistinct pins → IsDistinct (collect_pins pins l)
unfolding collect_pins
collect_pins-IsDistinct [] pins d = d
collect_pins-IsDistinct (e ∷ l) pins d = elim (Bool-cases (is_empty (lookup_key e.host))) [
  | inl e' ↦ rw e' (collect_pins-IsDistinct l pins d)
  | inr e' ↦ rw e' (collect_pins-IsDistinct l _ (insert-IsDistinct pins _ _ d))
]

parse_pins-IsDistinct :
    (decode : Text → Option PinsFile) (json : Text) → IsDistinct (parse_pins decode json)
unfolding parse_pins
parse_pins-IsDistinct decode json = go (decode json)
  where
    go : (file : Option PinsFile) → IsDistinct (pins_of file)
    go none = tt
    go (some file) = elim (Bool-cases (file.version == 1)) [
      | inl current ↦ rw current (collect_pins-IsDistinct file.pins [] tt)
      | inr other ↦ rw other tt
    ]

learned-IsDistinct :
    (decode : Text → Option PinsFile) (json : Option Text) → IsDistinct (learned decode json)
learned-IsDistinct decode none = tt
learned-IsDistinct decode (some json) = parse_pins-IsDistinct decode json

with_pins-IsWf : (pins : HashMap ℕ) → IsDistinct pins → IsWf (with_pins pins)
with_pins-IsWf pins d = search nil-Bounded

new-learning :
    (decode : Text → Option PinsFile) (config : Config) (json : Option Text) {p : Policy}
    → new decode config json ≡ ok p
    → p.learning ≡ with_pins (learned decode json)
unfolding new
new-learning decode config json h = ground arith

forget_all-IsWf :
    (hosts : List Bytes) (removed : ℕ) {s : Learning} → IsWf s → IsWf (forget_all hosts removed s).0
unfolding forget_all
forget_all-IsWf [] removed w = w
forget_all-IsWf (host ∷ rest) removed w =
    forget_all-IsWf rest _ (forget_pin-GivesWf (lookup_key host) 0 w).state

-- a call that does nothing for an empty key
if_empty-IsWf :
    (b : Bool) (p q : Policy × Bool)
    → IsWf p.0.learning
    → IsWf q.0.learning
    → IsWf (if b then p else q).0.learning
if_empty-IsWf true p q v w = v
if_empty-IsWf false p q v w = w

if_none-IsWf :
    (b : Bool) (p q : Policy)
    → IsWf p.learning
    → IsWf q.learning
    → IsWf (if b then p else q).learning
if_none-IsWf true p q v w = v
if_none-IsWf false p q v w = w

perform-IsWf : (p : Policy) (c : Call) → IsWf p.learning → IsWf (perform p c).learning
unfolding perform record_client_rejection learn_upstream_untrusted record_silent_refusal
    record_intercepted_handshake on_network_change forget_pins
perform-IsWf p (rejection host kind now) w =
    if_empty-IsWf (is_empty (lookup_key host)) _ _ w
      (client_rejection-GivesWf (lookup_key host) now w).state
perform-IsWf p (untrusted host now) w =
    if_empty-IsWf (is_empty (lookup_key host)) _ _ w
      (upstream_untrusted-GivesWf (lookup_key host) now w).state
perform-IsWf p (refusal host now) w =
    if_empty-IsWf (is_empty (lookup_key host)) _ _ w
      (silent_refusal-GivesWf (lookup_key host) now w).state
perform-IsWf p (handshake host now) w =
    if_none-IsWf (is_empty (lookup_key host)) _ _ w
      (intercepted_handshake-IsWf (lookup_key host) now w)
perform-IsWf p (change now) w = network_change-IsWf now w
perform-IsWf p (forget hosts) w = forget_all-IsWf hosts 0 w

run-IsWf : (calls : List Call) (p : Policy) → IsWf p.learning → IsWf (run p calls).learning
unfolding run
run-IsWf [] p w = w
run-IsWf (c ∷ calls) p w = run-IsWf calls (perform p c) (perform-IsWf p c w)

-- However a policy that was built is called, in whatever order and with whatever times, none of
-- its maps of hosts holds a host twice, and the maps of pending evidence, of refused, trusted and
-- logged hosts hold at most 1024 hosts each.
pub run_new-IsWf :
    (decode : Text → Option PinsFile) (config : Config) (json : Option Text) (p : Policy)
    → new decode config json ≡ ok p
    → (calls : List Call) → IsWf (run p calls).learning
run_new-IsWf decode config json p built calls =
    let e = new-learning decode config json built in
    run-IsWf calls p (rw e (with_pins-IsWf _ (learned-IsDistinct decode json)))
