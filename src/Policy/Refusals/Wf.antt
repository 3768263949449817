-- ===== src/Policy/Refusals/Wf.antt =====
-- The well-formed states of `Policy` (core/crates/policy/src/policy.rs) and the methods that learn.
use tollgate.Common.{ℕ, ◌++◌, Bool, true, false, List, [], ◌∷◌, Bytes, if◌then◌else◌}
use tollgate.Common.HashMap.{
  insert, IsDistinct, insert-IsDistinct, remove-IsDistinct, retain-IsDistinct,
}
use tollgate.Policy.PerSecond.{FloodCounts}
use tollgate.Policy.Times.{within, silent_burst_secs, upstream_recent_secs, silent_recent_secs}
use tollgate.Policy.Learning.{
  Learning, take_back, learn_silent, log_held_back, note_silent_host, count_for_flood, silent_burst,
  burst_loop, upstream_suppressed, silent_suppressed,
}
use tollgate.Policy.Learning.Bounded.{
  Bounded, nil-Bounded, remove-Bounded, retain-Bounded, insert-make_room-Bounded,
  insert_host-Bounded,
}
use tollgate.Policy.Refusals.{
  expire, learn_rejected, remember_rejection, client_rejection, take_back_all, end_upstream_burst,
  learn_upstream, count_upstream, upstream_untrusted, guarded_refusal, pending_room,
  pending_refusal, count_refusal, after_burst, silent_refusal, intercepted_handshake,
  take_back_recent, network_change, forget_pin,
}

pub record IsWf (s : Learning) : Type 0 where
  pub pins : IsDistinct s.pins
  pub recent : Bounded s.recent
  pub silent_pending : Bounded s.silent_pending
  pub silent_hosts : Bounded s.silent_hosts
  pub silent_flood : Bounded s.silent_flood
  pub trusted : Bounded s.trusted
  pub held_back_logged : Bounded s.held_back_logged

ruleset wf_rules = (
  nil-Bounded, remove-Bounded, retain-Bounded, insert-make_room-Bounded, insert_host-Bounded,
  insert-IsDistinct, remove-IsDistinct, retain-IsDistinct,
)

expire-IsWf : (now : ℕ) {s : Learning} → IsWf s → IsWf (expire s now)
unfolding expire
expire-IsWf now w = search wf_rules

learn_rejected-IsWf :
    (key : Bytes) (now : ℕ) {s : Learning} → IsWf s → IsWf (learn_rejected key now s)
unfolding learn_rejected
learn_rejected-IsWf key now w = search wf_rules

remember_rejection-IsWf :
    (key : Bytes) (now : ℕ) {s : Learning} → IsWf s → IsWf (remember_rejection key now s)
unfolding remember_rejection
remember_rejection-IsWf key now w = search wf_rules

-- A method gives a well-formed state beside its result.
pub record GivesWf {A : Type 0} (r : Learning × A) : Type 0 where
  pub state : IsWf r.0

if-IsWf : (b : Bool) {s t : Learning} → IsWf s → IsWf t → IsWf (if b then s else t)
if-IsWf true v w = v
if-IsWf false v w = w

if-GivesWf :
    {A : Type 0} (b : Bool) {p q : Learning × A}
    → GivesWf p
    → GivesWf q
    → GivesWf (if b then p else q)
if-GivesWf true v w = v
if-GivesWf false v w = w

ruleset wf_methods =
    (wf_rules, if-IsWf, if-GivesWf, expire-IsWf, learn_rejected-IsWf, remember_rejection-IsWf)

take_back-IsWf : (host : Bytes) (at : ℕ) {s : Learning} → IsWf s → GivesWf (take_back s host at)
unfolding take_back
take_back-IsWf host at w = search wf_methods

take_back_all-IsWf : (l : List (Bytes × ℕ)) {s : Learning} → IsWf s → IsWf (take_back_all l s)
unfolding take_back_all
take_back_all-IsWf [] w = w
take_back_all-IsWf ((host, at) ∷ rest) w = take_back_all-IsWf rest (take_back-IsWf host at w).state

take_back_recent-IsWf :
    (l : List (Bytes × ℕ)) (now max_age : ℕ) {s : Learning}
    → IsWf s
    → IsWf (take_back_recent l now max_age s)
unfolding take_back_recent
take_back_recent-IsWf [] now max_age w = w
take_back_recent-IsWf ((host, at) ∷ rest) now max_age w =
    take_back_recent-IsWf rest now max_age
      (if-IsWf (within at now max_age) (take_back-IsWf host at w).state w)

with_silent-IsWf : (l : List (Bytes × ℕ)) {s : Learning} → IsWf s → IsWf (record s { silent = l })
with_silent-IsWf l w = search w

with_upstream-IsWf :
    (l : List (Bytes × ℕ)) {s : Learning} → IsWf s → IsWf (record s { upstream = l })
with_upstream-IsWf l w = search w

burst_loop-IsWf :
    (l : List (Bytes × ℕ)) (now : ℕ) {s : Learning} → IsWf s → IsWf (burst_loop l now s)
unfolding burst_loop
burst_loop-IsWf [] now w = w
burst_loop-IsWf ((host, at) ∷ rest) now {s} w = burst_loop-IsWf rest now (
    if-IsWf (within at now silent_burst_secs) (take_back-IsWf host at w).state
      (with_silent-IsWf (s.silent ++ (host, at) ∷ []) w))

end_upstream_burst-IsWf :
    (burst : List (Bytes × ℕ)) (now : ℕ) {s : Learning}
    → IsWf s
    → IsWf (end_upstream_burst burst now s)
unfolding end_upstream_burst
end_upstream_burst-IsWf burst now {s} w = let w' = take_back_all-IsWf burst w in search w'

upstream_suppressed-GivesWf :
    (now : ℕ) {s : Learning} → IsWf s → GivesWf (upstream_suppressed s now)
unfolding upstream_suppressed
upstream_suppressed-GivesWf now w = search wf_methods

silent_suppressed-GivesWf : (now : ℕ) {s : Learning} → IsWf s → GivesWf (silent_suppressed s now)
unfolding silent_suppressed
silent_suppressed-GivesWf now w = search wf_methods

silent_burst-IsWf : (now : ℕ) {s : Learning} → IsWf s → IsWf (silent_burst s now)
unfolding silent_burst
silent_burst-IsWf now {s} w =
    let free = (silent_suppressed-GivesWf now w).state in
    let looped =
      burst_loop-IsWf (silent_suppressed s now).0.silent now (with_silent-IsWf [] free) in
    search (looped, wf_rules)

log_held_back-IsWf :
    (key : Bytes) (counts : FloodCounts) (now : ℕ) {s : Learning}
    → IsWf s
    → IsWf (log_held_back s key counts now)
unfolding log_held_back
log_held_back-IsWf key counts now w = search wf_methods

module _ (key : Bytes) (now : ℕ) {s : Learning} (w : IsWf s) where
  pub client_rejection-GivesWf : GivesWf (client_rejection key now s)
  unfolding client_rejection
  client_rejection-GivesWf = search wf_methods

  learn_upstream-IsWf : IsWf (learn_upstream key now s)
  unfolding learn_upstream
  learn_upstream-IsWf = search wf_rules

  learn_silent-IsWf : IsWf (learn_silent s key now)
  unfolding learn_silent
  learn_silent-IsWf = search wf_rules

  note_silent_host-GivesWf : GivesWf (note_silent_host s key now)
  unfolding note_silent_host
  note_silent_host-GivesWf = search wf_rules

  count_for_flood-GivesWf : GivesWf (count_for_flood s key now)
  unfolding count_for_flood
  count_for_flood-GivesWf = search wf_rules

  pub intercepted_handshake-IsWf : IsWf (intercepted_handshake key now s)
  unfolding intercepted_handshake
  intercepted_handshake-IsWf = search wf_rules

ruleset wf_parts = (
  wf_methods, end_upstream_burst-IsWf, silent_burst-IsWf, log_held_back-IsWf, learn_upstream-IsWf,
  learn_silent-IsWf,
)

module _ (key : Bytes) (now : ℕ) {s : Learning} (w : IsWf s) where
  count_upstream-GivesWf : GivesWf (count_upstream key now s)
  unfolding count_upstream
  count_upstream-GivesWf = search wf_parts

  guarded_refusal-GivesWf : (counts : FloodCounts) → GivesWf (guarded_refusal key now counts s)
  unfolding guarded_refusal
  guarded_refusal-GivesWf counts = search wf_parts

  with_pending-IsWf :
      (l : List ℕ) → IsWf (record s { silent_pending = insert (pending_room s key now) key l })
  with_pending-IsWf l = search wf_rules

module _ (key : Bytes) (now : ℕ) {s : Learning} (w : IsWf s) where
  pending_refusal-GivesWf : GivesWf (pending_refusal key now s)
  unfolding pending_refusal
  pending_refusal-GivesWf = search (if-GivesWf, with_pending-IsWf key now w, learn_silent-IsWf)

module _ (key : Bytes) (now : ℕ) {s : Learning} (w : IsWf s) where
  count_refusal-GivesWf : GivesWf (count_refusal key now s)
  unfolding count_refusal
  count_refusal-GivesWf =
      let counted = (count_for_flood-GivesWf key now w).state in
      search (counted, if-GivesWf, guarded_refusal-GivesWf, pending_refusal-GivesWf)

module _ (key : Bytes) (now : ℕ) {s : Learning} (w : IsWf s) where
  after_burst-GivesWf : GivesWf (after_burst key now s)
  unfolding after_burst
  after_burst-GivesWf =
      let free = (silent_suppressed-GivesWf now w).state in
      search (free, if-GivesWf, count_refusal-GivesWf)

module _ (key : Bytes) (now : ℕ) {s : Learning} (w : IsWf s) where
  pub silent_refusal-GivesWf : GivesWf (silent_refusal key now s)
  unfolding silent_refusal
  silent_refusal-GivesWf =
      let live = expire-IsWf now w in
      let noted = (note_silent_host-GivesWf key now live).state in
      if-GivesWf _ (record { state = live })
        (if-GivesWf _ (record { state = silent_burst-IsWf now noted })
          (after_burst-GivesWf key now noted))

  pub upstream_untrusted-GivesWf : GivesWf (upstream_untrusted key now s)
  unfolding upstream_untrusted
  upstream_untrusted-GivesWf =
      let live = expire-IsWf now w in
      let free = (upstream_suppressed-GivesWf now live).state in
      search (live, free, if-GivesWf, count_upstream-GivesWf)

  pub forget_pin-GivesWf : GivesWf (forget_pin key s)
  unfolding forget_pin
  forget_pin-GivesWf = search wf_rules

pub network_change-IsWf : (now : ℕ) {s : Learning} → IsWf s → IsWf (network_change now s)
unfolding network_change
network_change-IsWf now {s} w =
    let first =
      take_back_recent-IsWf s.upstream now upstream_recent_secs (with_upstream-IsWf [] w) in
    let s1 = take_back_recent s.upstream now upstream_recent_secs (record s { upstream = [] }) in
    let second =
      take_back_recent-IsWf s1.silent now silent_recent_secs (with_silent-IsWf [] first) in
    search (second, wf_rules)
