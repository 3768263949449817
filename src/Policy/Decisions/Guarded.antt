-- ===== src/Policy/Decisions/Guarded.antt =====
-- Silent refusals of a host after a completed handshake, in `Policy` of
-- core/crates/policy/src/policy.rs.
use tollgate.Common.{ℕ, ◌+◌, ◌≤◌, ◌≡◌, true, List, [], ◌∷◌, Bytes, unwrap_or, length}
use tollgate.Common.HashMap.{HashMap, get}
use tollgate.Policy.Times.{within, max_recent_rejections, rejection_window_secs}
use tollgate.Policy.PerSecond
use tollgate.Policy.PerSecond.{Trusted, no_trust}
use tollgate.Policy.Learning.{Learning}
use tollgate.Policy.Refusals.{trusted_lately}
use tollgate.Policy.Decisions.{Policy}
use tollgate.Policy.Decisions.Runs.{Call, rejection, untrusted, refusal, handshake, change, forget}

-- How many of the calls report a completed handshake.
abbrev pub handshakes : List Call → ℕ
handshakes [] = 0
handshakes (handshake host at ∷ calls) = handshakes calls + 1
handshakes (rejection host kind at ∷ calls) = handshakes calls
handshakes (untrusted host at ∷ calls) = handshakes calls
handshakes (refusal host at ∷ calls) = handshakes calls
handshakes (change at ∷ calls) = handshakes calls
handshakes (forget hosts ∷ calls) = handshakes calls

-- The handshakes among the calls are in the 600 seconds before a time.
abbrev pub Recent : ℕ → List Call → Type 0
Recent now [] = Unit
Recent now (handshake host at ∷ calls) =
    (within at now rejection_window_secs ≡ true) × Recent now calls
Recent now (rejection host kind at ∷ calls) = Recent now calls
Recent now (untrusted host at ∷ calls) = Recent now calls
Recent now (refusal host at ∷ calls) = Recent now calls
Recent now (change at ∷ calls) = Recent now calls
Recent now (forget hosts ∷ calls) = Recent now calls

-- a host that a client trusted us for lately, with room for some more hosts
record Trusting (key : Bytes) (now room : ℕ) (s : Learning) : Type 0 where
  lately : trusted_lately s key now ≡ true
  small : length s.trusted + room ≤ max_recent_rejections

-- what a handshake stores of its host
abbrev handshaken : Bytes → ℕ → Learning → Trusted
handshaken j at s = record {
  last = at;
  recent = PerSecond.add (unwrap_or (get s.trusted j) no_trust).recent at;
}
