-- ===== src/Policy/Decisions.antt =====
-- `Policy` of core/crates/policy/src/policy.rs: the decision for a connection, and the methods
-- that learn, for hosts as they are given. The compiled-in passthrough list (bundled.rs) and the
-- JSON decoder of learned pins (serde) are parameters.
pub mod Runs
pub mod Acts
pub mod Suppressed
pub mod Guarded
pub mod Rules
pub mod Forget
use tollgate.Common.{
  ℕ, ◌+◌, Bool, true, false, not, ◌&&◌, Option, none, some, List, [], ◌∷◌, ◌==◌, if◌then◌else◌,
  is_some_and, is_empty, Bytes, Text,
}
use tollgate.Common.HashMap.{HashMap, get, insert}
use tollgate.Policy.Pattern
use tollgate.Policy.Pattern.{HostPattern, Parsed, ok, ◌>>=◌}
use tollgate.Policy.PatternSet
use tollgate.Policy.PatternSet.{PatternSet, lookup_key}
use tollgate.Policy.Times.{pin_is_live}
use tollgate.Policy.Learning.{Learning, with_pins}
use tollgate.Policy.Refusals.{
  client_rejection, upstream_untrusted, silent_refusal, intercepted_handshake, network_change,
  forget_pin,
}

pub data PassthroughReason : Type 0 where
  mitm_disabled user bundled learned_pin not_tls capacity low_memory : PassthroughReason

pub data Decision : Type 0 where
  intercept : Decision
  passthrough : PassthroughReason → Decision

pub data RejectionKind : Type 0 where
  unknown_ca bad_certificate certificate_unknown decrypt_error : RejectionKind

pub record Policy : Type 0 where
  pub mitm_enabled : Bool
  pub user : PatternSet
  pub allowlist : PatternSet
  pub learning : Learning

pub record PinEntry : Type 0 where
  pub host : Bytes
  pub learned_at : ℕ

pub record PinsFile : Type 0 where
  pub version : ℕ
  pub pins : List PinEntry

-- `collect` to a `HashMap`, a later entry for a host in place of an earlier one
unfoldable pub collect_pins : HashMap ℕ → List PinEntry → HashMap ℕ
unfolding lookup_key
collect_pins pins [] = pins
collect_pins pins (e ∷ rest) =
    let key = lookup_key e.host in
    collect_pins (if is_empty key then pins else insert pins key e.learned_at) rest

pub pins_of : Option PinsFile → HashMap ℕ
unfolding collect_pins
pins_of none = []
pins_of (some file) = if file.version == 1 then collect_pins [] file.pins else []

unfoldable pub parse_pins : (Text → Option PinsFile) → Text → HashMap ℕ
unfolding pins_of
parse_pins decode json = pins_of (decode json)

unfoldable pub parse_patterns : List Text → Parsed (List HostPattern)
parse_patterns [] = ok []
parse_patterns (s ∷ rest) = do p ← Pattern.parse s; ps ← parse_patterns rest; ok (p ∷ ps)

-- the fields of `Config` that `Policy` reads
pub record Config : Type 0 where
  pub passthrough : List Text
  pub allowlist : List Text
  pub mitm_enabled : Bool

abbrev pub learned : (Text → Option PinsFile) → Option Text → HashMap ℕ
learned decode none = []
learned decode (some json) = parse_pins decode json

-- `Policy::new`
unfoldable pub new : (Text → Option PinsFile) → Config → Option Text → Parsed Policy
unfolding parse_patterns parse_pins
new decode config json = do
  passthroughs ← parse_patterns config.passthrough
  allowed ← parse_patterns config.allowlist
  ok (record {
    mitm_enabled = config.mitm_enabled;
    user = PatternSet.new passthroughs;
    allowlist = PatternSet.new allowed;
    learning = with_pins (learned decode json);
  })

-- `Policy::classify`; `compiled_in` is the bundled passthrough list
unfoldable pub classify : PatternSet → Policy → Bytes → ℕ → Decision
classify compiled_in p host now =
    let key = lookup_key host in
    if not p.mitm_enabled
    then passthrough mitm_disabled
    else if PatternSet.matches p.user key
    then passthrough user
    else if PatternSet.matches compiled_in key
    then passthrough bundled
    else if is_some_and (get p.learning.pins key) (λ at. pin_is_live at now)
    then passthrough learned_pin
    else intercept

abbrev with_learning : Policy → Learning × Bool → Policy × Bool
with_learning p (learning, learned) = (record p { learning = learning }, learned)

unfoldable pub record_client_rejection : Policy → Bytes → RejectionKind → ℕ → Policy × Bool
unfolding client_rejection
record_client_rejection p host kind now =
    let key = lookup_key host in
    if is_empty key then (p, false) else with_learning p (client_rejection key now p.learning)

unfoldable pub learn_upstream_untrusted : Policy → Bytes → ℕ → Policy × Bool
unfolding upstream_untrusted
learn_upstream_untrusted p host now =
    let key = lookup_key host in
    if is_empty key then (p, false) else with_learning p (upstream_untrusted key now p.learning)

unfoldable pub record_silent_refusal : Policy → Bytes → ℕ → Policy × Bool
unfolding silent_refusal
record_silent_refusal p host now =
    let key = lookup_key host in
    if is_empty key then (p, false) else with_learning p (silent_refusal key now p.learning)

unfoldable pub record_intercepted_handshake : Policy → Bytes → ℕ → Policy
unfolding intercepted_handshake
record_intercepted_handshake p host now =
    let key = lookup_key host in
    if is_empty key then p else record p { learning = intercepted_handshake key now p.learning }

unfoldable pub on_network_change : Policy → ℕ → Policy
unfolding network_change
on_network_change p now = record p { learning = network_change now p.learning }

-- the loop of `forget_pins`, from the number removed so far
unfoldable pub forget_all : List Bytes → ℕ → Learning → Learning × ℕ
unfolding forget_pin
forget_all [] removed s = (s, removed)
forget_all (host ∷ rest) removed s =
    let (s', was_pin) = forget_pin (lookup_key host) s in
    forget_all rest (if was_pin then removed + 1 else removed) s'

unfoldable pub forget_pins : Policy → List Bytes → Policy × ℕ
unfolding forget_all
forget_pins p hosts =
    let (learning, removed) = forget_all hosts 0 p.learning in
    (record p { learning = learning }, removed)

unfoldable pub is_allowlisted : Policy → Bytes → Bool
is_allowlisted p host =
    let key = lookup_key host in not (is_empty key) && PatternSet.matches p.allowlist key
