-- ===== src/Mitm/Throttle/Once.antt =====
-- Sequences of calls of the throttle of core/crates/mitm/src/throttle.rs.
use tollgate.Common.{
  inl, inr, ℕ, ◌-◌, ◌≢◌, ◌∙◌, subst, refl, ◌≤◌, ◌<◌, ◌≡◌, Bool, true, false, some, List, [], ◌∷◌,
  arith, length, Bytes, str_eq_iff, Bool-cases, All, leb, is_some_and,
}
use tollgate.Common.HashMap.{
  get, IsDistinct, get-insert, get-retain, insert-IsDistinct, retain-IsDistinct, length-insert,
  length-retain-le,
}
use tollgate.Mitm.Throttle.{LogThrottle, max_keys, is_recent, expired, new, log, allow, allow_all}

pub record IsThrottle (s : LogThrottle) : Type 0 where
  pub distinct : IsDistinct s.last
  pub small : length s.last ≤ max_keys

-- what holds of every way through a call holds of the call
allow-elim :
    (P : LogThrottle × Bool → Type 0) (s : LogThrottle) (key : Bytes) (now : ℕ)
    → (is_some_and (get s.last key) (is_recent s.interval now) ≡ true → P (s, false))
    → (is_some_and (get s.last key) (is_recent s.interval now) ≡ false
        → leb max_keys (length s.last) ≡ false
        → P (log s key now))
    → (is_some_and (get s.last key) (is_recent s.interval now) ≡ false → P (expired s now, false))
    → (is_some_and (get s.last key) (is_recent s.interval now) ≡ false
        → leb max_keys (length (expired s now).last) ≡ false
        → P (log (expired s now) key now))
    → P (allow s key now)
unfolding allow
allow-elim P s key now seen logged full cleared =
    elim (Bool-cases (is_some_and (get s.last key) (is_recent s.interval now))) [
      | inl known ↦ rw known (seen known)
      | inr fresh ↦ rw fresh (elim (Bool-cases (leb max_keys (length s.last))) [
        | inr room ↦ rw room (logged fresh room)
        | inl filled ↦ rw filled (elim (Bool-cases (leb max_keys (length (expired s now).last))) [
          | inl still ↦ rw still (full fresh)
          | inr room ↦ rw room (cleared fresh room)
        ])
      ])
    ]

log-IsThrottle :
    (s : LogThrottle) (key : Bytes) (now : ℕ)
    → IsThrottle s
    → leb max_keys (length s.last) ≡ false
    → IsThrottle (log s key now).0
unfolding log
log-IsThrottle s key now w room = record {
  distinct = insert-IsDistinct s.last key now w.distinct;
  small = ground (arith, length-insert s.last key now);
}

expired-IsThrottle : (s : LogThrottle) (now : ℕ) → IsThrottle s → IsThrottle (expired s now)
expired-IsThrottle s now w = record {
  distinct = retain-IsDistinct (is_recent s.interval now) s.last w.distinct;
  small = omega (arith, length-retain-le (is_recent s.interval now) s.last, w.small);
}

allow-IsThrottle :
    (s : LogThrottle) (key : Bytes) (now : ℕ) → IsThrottle s → IsThrottle (allow s key now).0
allow-IsThrottle s key now w =
    let w' = expired-IsThrottle s now w in
    allow-elim (λ r. IsThrottle r.0) s key now (λ _. w) (λ _ room. log-IsThrottle s key now w room)
      (λ _. w') (λ _ room. log-IsThrottle (expired s now) key now w' room)

allow_all-IsThrottle :
    (s : LogThrottle) (calls : List (Bytes × ℕ)) → IsThrottle s → IsThrottle (allow_all s calls)
unfolding allow_all
allow_all-IsThrottle s [] w = w
allow_all-IsThrottle s ((key, now) ∷ calls) w =
    allow_all-IsThrottle (allow s key now).0 calls (allow-IsThrottle s key now w)

-- After any sequence of calls a throttle remembers each key once, and at most 256 keys.
pub allow_all_new-IsThrottle :
    (interval : ℕ) (calls : List (Bytes × ℕ)) → IsThrottle (allow_all (new interval) calls)
unfolding new
allow_all_new-IsThrottle interval calls =
    allow_all-IsThrottle (new interval) calls (record { distinct = tt; small = omega arith })

-- a key logged at `at` is still known
record Held (interval : ℕ) (key : Bytes) (at : ℕ) (s : LogThrottle) : Type 0 where
  same : s.interval ≡ interval
  found : get s.last key ≡ some at
  distinct : IsDistinct s.last

module _ (interval : ℕ) (key : Bytes) (at : ℕ) where
  expired-Held :
      (s : LogThrottle) (now : ℕ)
      → now - at < interval
      → Held interval key at s
      → Held interval key at (expired s now)
  expired-Held s now soon h = record {
    same = h.same;
    found =
        ground
          (arith, get-retain (is_recent s.interval now) s.last key h.distinct, h.found, h.same);
    distinct = retain-IsDistinct (is_recent s.interval now) s.last h.distinct;
  }

  log-Held :
      (s : LogThrottle) (j : Bytes) (now : ℕ)
      → Held interval key at s
      → j ≢ key
      → Held interval key at (log s j now).0
  unfolding log
  log-Held s j now h differ = record {
    same = h.same;
    found = ground (arith, get-insert s.last j key now, str_eq_iff j key, h.found);
    distinct = insert-IsDistinct s.last j now h.distinct;
  }

  other_key :
      (s : LogThrottle) (j : Bytes) (now : ℕ)
      → now - at < interval
      → Held interval key at s
      → is_some_and (get s.last j) (is_recent s.interval now) ≡ false
      → j ≢ key
  other_key s j now soon h fresh e = ground (arith, h.found, h.same)

  allow-Held :
      (s : LogThrottle) (j : Bytes) (now : ℕ)
      → now - at < interval
      → Held interval key at s
      → Held interval key at (allow s j now).0
  allow-Held s j now soon h =
      let h' = expired-Held s now soon h in
      allow-elim (λ r. Held interval key at r.0) s j now (λ _. h)
        (λ fresh _. log-Held s j now h (other_key s j now soon h fresh)) (λ _. h')
        (λ fresh _. log-Held (expired s now) j now h' (other_key s j now soon h fresh))

  allow_all-Held :
      (s : LogThrottle) (calls : List (Bytes × ℕ))
      → All (λ call. call.1 - at < interval) calls
      → Held interval key at s
      → Held interval key at (allow_all s calls)
  unfolding allow_all
  allow_all-Held s [] soon h = h
  allow_all-Held s ((j, now) ∷ calls) soon h =
      allow_all-Held (allow s j now).0 calls soon.1 (allow-Held s j now soon.0 h)

  Held-refused :
      (s : LogThrottle) (now : ℕ)
      → now - at < interval
      → Held interval key at s
      → (allow s key now).1 ≡ false
  unfolding allow
  Held-refused s now soon h = ground (arith, h.found, h.same)

-- a call that is allowed leaves its key known
allowed-Held :
    (s : LogThrottle) (key : Bytes) (now : ℕ)
    → IsThrottle s
    → (allow s key now).1 ≡ true
    → Held s.interval key now (allow s key now).0
unfolding log
allowed-Held s key now w allowed =
    allow-elim (λ r. r.1 ≡ true → Held s.interval key now r.0) s key now
      (λ _ no. absurd (ground arith)) (λ _ _ _. held s w.distinct) (λ _ no. absurd (ground arith))
      (λ _ _ _. held (expired s now) (expired-IsThrottle s now w).distinct) allowed
  where
    held : (t : LogThrottle) → IsDistinct t.last → Held t.interval key now (log t key now).0
    held t d = record {
      same = refl;
      found = ground (arith, get-insert t.last key key now, str_eq_iff key key);
      distinct = insert-IsDistinct t.last key now d;
    }

allow-interval :
    (s : LogThrottle) (key : Bytes) (now : ℕ) → (allow s key now).0.interval ≡ s.interval
unfolding log
allow-interval s key now =
    allow-elim (λ r. r.0.interval ≡ s.interval) s key now (λ _. refl) (λ _ _. refl) (λ _. refl)
      (λ _ _. refl)

allow_all-interval :
    (s : LogThrottle) (calls : List (Bytes × ℕ)) → (allow_all s calls).interval ≡ s.interval
unfolding allow_all
allow_all-interval s [] = refl
allow_all-interval s ((key, now) ∷ calls) =
    allow_all-interval (allow s key now).0 calls ∙ allow-interval s key now

-- Once a call of a throttle, in whatever state earlier calls left it, is allowed for a key, no call
-- for that key is allowed within the interval, whatever calls come in between within it.
pub allow-once :
    (interval : ℕ) (earlier between : List (Bytes × ℕ)) (key : Bytes) (at now : ℕ)
    → (allow (allow_all (new interval) earlier) key at).1 ≡ true
    → All (λ call. call.1 - at < interval) between
    → now - at < interval
    → (allow (allow_all (allow (allow_all (new interval) earlier) key at).0 between) key now).1
      ≡ false
unfolding new
allow-once interval earlier between key at now allowed soon late =
    let s = allow_all (new interval) earlier in
    let h =
      subst (λ i. Held i key at (allow s key at).0) (allow_all-interval (new interval) earlier)
        (allowed-Held s key at (allow_all_new-IsThrottle interval earlier) allowed) in
    Held-refused interval key at (allow_all (allow s key at).0 between) now late
      (allow_all-Held interval key at (allow s key at).0 between soon h)
