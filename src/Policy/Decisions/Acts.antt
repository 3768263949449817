-- ===== src/Policy/Decisions/Acts.antt =====
-- What the calls of `Policy` (core/crates/policy/src/policy.rs) do to its state, one by one.
use tollgate.Common.{
  ℕ, refl, Bool, true, false, List, [], ◌∷◌, arith, Bytes, is_empty, if◌then◌else◌, ◌≡◌,
}
use tollgate.Policy.PatternSet.{lookup_key}
use tollgate.Policy.Learning.{Learning}
use tollgate.Policy.Refusals.{
  client_rejection, upstream_untrusted, silent_refusal, intercepted_handshake, network_change,
  forget_pin,
}
use tollgate.Policy.Refusals.Untouched.{
  Untouched, client_rejection-Untouched, upstream_untrusted-Untouched, network_change-Untouched,
}
use tollgate.Policy.Decisions.{
  Policy, record_client_rejection, learn_upstream_untrusted, record_silent_refusal,
  record_intercepted_handshake, on_network_change, forget_all, forget_pins,
}
use tollgate.Policy.Decisions.Runs.{
  Call, rejection, untrusted, refusal, handshake, change, forget, perform,
}

-- a call on the state, where the host's key is not empty
abbrev pub act : Call → Learning → Learning
act (rejection host kind now) s = (client_rejection (lookup_key host) now s).0
act (untrusted host now) s = (upstream_untrusted (lookup_key host) now s).0
act (refusal host now) s = (silent_refusal (lookup_key host) now s).0
act (handshake host now) s = intercepted_handshake (lookup_key host) now s
act (change now) s = network_change now s
act (forget hosts) s = (forget_all hosts 0 s).0

either-result :
    (P : Learning → Type 0) (b : Bool) (p q : Policy × Bool)
    → P p.0.learning
    → P q.0.learning
    → P (if b then p else q).0.learning
either-result P true p q v w = v
either-result P false p q v w = w

either-state :
    (P : Learning → Type 0) (b : Bool) (p q : Policy)
    → P p.learning
    → P q.learning
    → P (if b then p else q).learning
either-state P true p q v w = v
either-state P false p q v w = w

-- a call does nothing, or acts on the state
pub perform-elim :
    (P : Learning → Type 0) (p : Policy) (c : Call)
    → P p.learning
    → P (act c p.learning)
    → P (perform p c).learning
unfolding perform record_client_rejection learn_upstream_untrusted record_silent_refusal
    record_intercepted_handshake on_network_change forget_pins
perform-elim P p (rejection host kind now) same acted =
    either-result P (is_empty (lookup_key host)) _ _ same acted
perform-elim P p (untrusted host now) same acted =
    either-result P (is_empty (lookup_key host)) _ _ same acted
perform-elim P p (refusal host now) same acted =
    either-result P (is_empty (lookup_key host)) _ _ same acted
perform-elim P p (handshake host now) same acted =
    either-state P (is_empty (lookup_key host)) _ _ same acted
perform-elim P p (change now) same acted = acted
perform-elim P p (forget hosts) same acted = acted

forget_all-Untouched :
    (hosts : List Bytes) (removed : ℕ) (s : Learning) → Untouched s (forget_all hosts removed s).0
unfolding forget_all
forget_all-Untouched [] removed s = (refl, refl)
forget_all-Untouched (host ∷ rest) removed s =
    forget_all-Untouched rest _ (forget_pin (lookup_key host) s).0

-- the calls that are no silent refusal and no handshake
abbrev pub is_other : Call → Bool
is_other (rejection host kind now) = true
is_other (untrusted host now) = true
is_other (refusal host now) = false
is_other (handshake host now) = false
is_other (change now) = true
is_other (forget hosts) = true

pub act-Untouched : (c : Call) (s : Learning) → is_other c ≡ true → Untouched s (act c s)
act-Untouched (rejection host kind now) s h = client_rejection-Untouched (lookup_key host) now s
act-Untouched (untrusted host now) s h = upstream_untrusted-Untouched (lookup_key host) now s
act-Untouched (refusal host now) s h = absurd (ground arith)
act-Untouched (handshake host now) s h = absurd (ground arith)
act-Untouched (change now) s h = network_change-Untouched now s
act-Untouched (forget hosts) s h = forget_all-Untouched hosts 0 s
