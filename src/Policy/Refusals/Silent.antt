-- ===== src/Policy/Refusals/Silent.antt =====
-- The rule of three silent refusals: `record_silent_refusal` of core/crates/policy/src/policy.rs.
use tollgate.Common.{
  inl, inr, ℕ, zero, suc, ◌+◌, ◌≤◌, ◌<◌, ◌≡◌, ◌∙◌, refl, ap, Bool, true, false, none, some, List,
  [], ◌∷◌, ◌++◌, arith, any, retain, length, Bytes, str_eq_refl, unwrap_or, u64_max, ◌==◌,
  Option-cases, leb, lt→ltb, le→ltb,
}
use tollgate.Common.HashMap
use tollgate.Common.HashMap.{
  HashMap, get, insert, remove, contains_key, IsDistinct, get-insert, get-retain, retain-IsDistinct,
  length-remove, length-insert-le, length-remove-retain, remove-insert,
}
use tollgate.Policy.Times.{
  within, rejection_window_secs, silent_refusals, silent_burst_secs, silent_burst_hosts,
}
use tollgate.Policy.Learning.{
  Learning, make_room, learn_silent, burst_hosts, note_silent_host, silent_suppressed,
  count_for_flood,
}
use tollgate.Policy.Learning.Room.{make_room_keeps}
use tollgate.Policy.Refusals.{
  expire, latest, pending_room, pending_seconds, pending_refusal, count_refusal, after_burst,
  silent_refusal,
}
use tollgate.Policy.Refusals.Wf.{IsWf, silent_refusal-GivesWf}
use tollgate.Policy.Refusals.Alerts.{expire_absent}

-- A host that is no pin, that no client trusted us for, and whose silent refusals so far are in the
-- seconds `secs`; nothing is suppressed, and at most two other hosts were refused silently.
pub record IsQuiet (key : Bytes) (secs : List ℕ) (s : Learning) : Type 0 where
  pub wf : IsWf s
  pub unpinned : get s.pins key ≡ none
  pub few : length (remove s.silent_hosts key) ≤ 2
  pub free : s.silent_suppressed_until ≡ none
  pub untrusted : get s.trusted key ≡ none
  pub pending : unwrap_or (get s.silent_pending key) [] ≡ secs

module _ (key : Bytes) (now : ℕ) (s : Learning) (few : length (remove s.silent_hosts key) ≤ 2)
    (d : IsDistinct s.silent_hosts) where
  burst_hosts_few :
      (length (insert (burst_hosts s key now) key now) ≤ 3)
      × (length (remove (insert (burst_hosts s key now) key now) key) ≤ 2)
  unfolding make_room
  burst_hosts_few =
      let recent = λ (at : ℕ). within at now silent_burst_secs in
      let m = HashMap.retain recent s.silent_hosts in
      ground (
        arith,
        length-remove m key (retain-IsDistinct recent s.silent_hosts d),
        length-remove-retain recent s.silent_hosts key,
        length-insert-le m key now (retain-IsDistinct recent s.silent_hosts d),
        remove-insert m key now,
      )

-- the room made for a new host loses none of the seconds of this one
pending_room_keeps :
    (key : Bytes) (now : ℕ) (s : Learning) (d : IsDistinct s.silent_pending)
    → unwrap_or (get (pending_room s key now) key) [] ≡ unwrap_or (get s.silent_pending key) []
pending_room_keeps key now s d =
    let fresh = any (λ at. within at now rejection_window_secs) in
    elim (Option-cases (get (make_room s.silent_pending fresh latest) key)) [
      | inl e ↦ ground arith
      | inr (l, e) ↦
          let before = make_room_keeps s.silent_pending fresh latest key l d e in ground arith
    ]

-- the states that `record_silent_refusal` goes through when nothing stops it
abbrev noted : Bytes → ℕ → Learning → Learning
noted key now s = (note_silent_host (expire s now) key now).0

abbrev counted : Bytes → ℕ → Learning → Learning
counted key now s =
    (count_for_flood (record (noted key now s) { silent_suppressed_until = none }) key now).0

module _ (key : Bytes) (now : ℕ) (s : Learning) (secs : List ℕ) (q : IsQuiet key secs s) where
  noted_few :
      ((note_silent_host (expire s now) key now).1 ≤ 3)
      × (length (remove (noted key now s).silent_hosts key) ≤ 2)
  unfolding expire note_silent_host
  noted_few = burst_hosts_few key now s q.few q.wf.silent_hosts.distinct

  not_suppressed :
      silent_suppressed (noted key now s) now
      ≡ (record (noted key now s) { silent_suppressed_until = none }, false)
  unfolding silent_suppressed expire note_silent_host
  not_suppressed = rw q.free

  counts_refusal :
      count_refusal key now (record (noted key now s) { silent_suppressed_until = none })
      ≡ pending_refusal key now (counted key now s)
  unfolding count_refusal expire note_silent_host
  counts_refusal = rw q.untrusted

  no_burst : leb silent_burst_hosts (note_silent_host (expire s now) key now).1 ≡ false
  no_burst = ground (arith, noted_few)

  passes_burst : silent_refusal key now s ≡ after_burst key now (noted key now s)
  unfolding silent_refusal
  passes_burst = rw (expire_absent key now s q.wf.pins q.unpinned, no_burst)

  passes_suppression :
      after_burst key now (noted key now s)
      ≡ count_refusal key now (record (noted key now s) { silent_suppressed_until = none })
  unfolding after_burst
  passes_suppression = rw not_suppressed

  reaches_pending : silent_refusal key now s ≡ pending_refusal key now (counted key now s)
  reaches_pending = passes_burst ∙ passes_suppression ∙ counts_refusal

  -- what the refusal has not touched so far
  counted_parts :
      (get (counted key now s).pins key ≡ none)
      × ((counted key now s).silent_pending ≡ s.silent_pending)
      × (length (remove (counted key now s).silent_hosts key) ≤ 2)
      × ((counted key now s).trusted ≡ s.trusted)
  unfolding expire note_silent_host count_for_flood
  counted_parts = (expire_absent key now s q.wf.pins q.unpinned, refl, noted_few.1, refl)

  counted_seconds :
      pending_seconds (counted key now s) key now
      ≡ retain (λ at. within at now rejection_window_secs) secs
  unfolding expire note_silent_host count_for_flood
  counted_seconds = rw (pending_room_keeps key now s q.wf.silent_pending.distinct, q.pending)

  module _ (fresh : retain (λ at. within at now rejection_window_secs) secs ≡ secs) where
    fresh_seconds : pending_seconds (counted key now s) key now ≡ secs
    fresh_seconds = counted_seconds ∙ fresh

    abbrev with_seconds : List ℕ → Learning
    with_seconds l = record (counted key now s) {
      silent_pending = insert (pending_room (counted key now s) key now) key l;
    }

    -- a second that is counted already
    counts_once :
        any (λ at. at == now) secs ≡ true → silent_refusal key now s ≡ (with_seconds secs, false)
    counts_once h = reaches_pending ∙ (unfold pending_refusal in rw (fresh_seconds, h))

    -- a new second that does not complete the rule
    counts_one_more :
        any (λ at. at == now) secs ≡ false
        → length (secs ++ now ∷ []) < silent_refusals
        → silent_refusal key now s ≡ (with_seconds (secs ++ now ∷ []), false)
    counts_one_more h short =
        reaches_pending ∙ (unfold pending_refusal in rw (fresh_seconds, h, lt→ltb _ _ short))

    completes :
        any (λ at. at == now) secs ≡ false
        → silent_refusals ≤ length (secs ++ now ∷ [])
        → silent_refusal key now s ≡ (learn_silent (with_seconds (secs ++ now ∷ [])) key now, true)
    completes h full =
        reaches_pending ∙ (unfold pending_refusal in rw (fresh_seconds, h, le→ltb _ _ full))

    stays-IsQuiet :
        (l : List ℕ)
        → silent_refusal key now s ≡ (with_seconds l, false)
        → IsQuiet key l (silent_refusal key now s).0
    unfolding count_for_flood
    stays-IsQuiet l e =
        let (unpinned, pendings, few, trusted) = counted_parts in
        record {
          wf = (silent_refusal-GivesWf key now q.wf).state;
          unpinned = rw e unpinned;
          few = rw e few;
          free = rw e refl;
          untrusted = rw e (rw trusted q.untrusted);
          pending = rw (e, get-insert) (ground (arith, str_eq_refl key));
        }

    learns :
        silent_refusal key now s ≡ (learn_silent (with_seconds (secs ++ now ∷ [])) key now, true)
        → get (silent_refusal key now s).0.pins key ≡ some now
    unfolding learn_silent
    learns e = rw (e, get-insert) (ground (arith, str_eq_refl key))

-- A host that stays quiet: three silent refusals in different seconds within 600 seconds make it a
-- pin, learned at the last of them; the first two do not.
pub three_refusals :
    (key : Bytes) (t u now : ℕ) (s : Learning)
    → IsQuiet key [] s
    → t < u
    → u < now
    → now ≤ t + rejection_window_secs
    → now ≤ u64_max
    → let r = silent_refusal key t s in
      let r' = silent_refusal key u r.0 in
      let r'' = silent_refusal key now r'.0 in
      (r.1 ≡ false)
      × (get r.0.pins key ≡ none)
      × (r'.1 ≡ false)
      × (get r'.0.pins key ≡ none)
      × (r''.1 ≡ true)
      × (get r''.0.pins key ≡ some now)
unfolding retain within
three_refusals key t u now s q h h' h'' small =
    let e = counts_one_more key t s [] q refl refl (omega arith) in
    let q' = stays-IsQuiet key t s [] q refl (t ∷ []) e in
    let s' = (silent_refusal key t s).0 in
    let e' = counts_one_more key u s' (t ∷ []) q' (ground arith) (ground arith) (omega arith) in
    let q'' = stays-IsQuiet key u s' (t ∷ []) q' (ground arith) (t ∷ u ∷ []) e' in
    let s'' = (silent_refusal key u s').0 in
    let e'' = completes key now s'' (t ∷ u ∷ []) q'' (ground arith) (ground arith) (omega arith) in
    (
      ap (λ (r : Learning × Bool). r.1) e,
      q'.unpinned,
      ap (λ (r : Learning × Bool). r.1) e',
      q''.unpinned,
      ap (λ (r : Learning × Bool). r.1) e'',
      learns key now s'' (t ∷ u ∷ []) q'' (ground arith) e'',
    )

-- `n` silent refusals of a host in the same second
unfoldable pub refuse_at : ℕ → Bytes → ℕ → Learning → Learning
refuse_at zero key now s = s
refuse_at (suc n) key now s = refuse_at n key now (silent_refusal key now s).0

again-IsQuiet :
    (n : ℕ) (key : Bytes) (now : ℕ) (s : Learning)
    → now ≤ u64_max
    → IsQuiet key (now ∷ []) s
    → IsQuiet key (now ∷ []) (refuse_at n key now s)
unfolding refuse_at retain within
again-IsQuiet zero key now s small q = q
again-IsQuiet (suc n) key now s small q =
    let e = counts_once key now s (now ∷ []) q (ground arith) (ground arith) in
    again-IsQuiet n key now (silent_refusal key now s).0 small
      (stays-IsQuiet key now s (now ∷ []) q (ground arith) (now ∷ []) e)

-- However many connections of a quiet host are hung up in one second, they make no pin, and count
-- as that one second.
pub refuse_at-IsQuiet :
    (n : ℕ) (key : Bytes) (now : ℕ) (s : Learning)
    → now ≤ u64_max
    → IsQuiet key [] s
    → IsQuiet key (now ∷ []) (refuse_at (suc n) key now s)
unfolding refuse_at retain
refuse_at-IsQuiet n key now s small q =
    let e = counts_one_more key now s [] q refl refl (omega arith) in
    again-IsQuiet n key now (silent_refusal key now s).0 small
      (stays-IsQuiet key now s [] q refl (now ∷ []) e)
