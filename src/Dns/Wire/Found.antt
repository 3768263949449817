-- ===== src/Dns/Wire/Found.antt =====
-- What `records` of core/crates/dns/src/wire.rs finds in a message.
use tollgate.Common.{
  ℕ, zero, suc, ◌+◌, ◌≤◌, ◌<◌, ◌≡◌, Bool, true, false, Option, none, some, List, [], ◌∷◌, ◌++◌,
  ◌||◌, is_some, length, Bytes, arith, All, refl, sym, leb, ltb, ◌==◌, Bool-cases, inl, inr, ◌⊎◌,
  get_or,
}
use mathlib.Core.Option.{some_inj}
use tollgate.Dns.Wire.{
  ◌>>=◌, u16_at, skip_name, within_message, type_opt, u16_max, Records, note_record, record_at,
  records_from, records, question_end, header_len,
}
use tollgate.Dns.Wire.Bounds.{skip_name-bounds}

bind-some :
    {A B : Type 0} (o : Option A) (f : A → Option B) {b : B}
    → (o >>= f) ≡ some b
    → (a : A) × ((o ≡ some a) × (f a ≡ some b))
bind-some none f h = absurd (ground (arith, h))
bind-some (some a) f h = (a, (refl, h))

-- a TTL field before or after an OPT record
abbrev pub IsApart : ℕ → ℕ → ℕ → Type 0
IsApart a e o = (o + 4 ≤ a) ⊎ (e ≤ o)

-- What is found in the bytes from `from` to `at`: TTL fields at offsets of 16 bits, and an OPT record that
-- is not empty and that no TTL field meets.
pub record IsFound (from at : ℕ) (found : Records) : Type 0 where
  pub since : from ≤ at
  pub ttls : All (λ o. (from ≤ o) × (o + 4 ≤ at) × (o ≤ u16_max)) found.ttl_offsets
  pub opt : (a e : ℕ) → found.opt ≡ some (a, e) → (from ≤ a) × (a < e) × (e ≤ at)
  pub apart : (a e : ℕ) → found.opt ≡ some (a, e) → All (IsApart a e) found.ttl_offsets

All-append : (P : ℕ → Type 0) (xs : List ℕ) (y : ℕ) → All P xs → P y → All P (xs ++ y ∷ [])
All-append P [] y h p = (p, tt)
All-append P (x ∷ xs) y (px, h) p = (px, All-append P xs y h p)

pub All-map : (P Q : ℕ → Type 0) (xs : List ℕ) → ((x : ℕ) → P x → Q x) → All P xs → All Q xs
All-map P Q [] f h = tt
All-map P Q (x ∷ xs) f (px, h) = (f x px, All-map P Q xs f h)

further-ttls :
    (from start e : ℕ) (xs : List ℕ)
    → start ≤ e
    → All (λ o. (from ≤ o) × (o + 4 ≤ start) × (o ≤ u16_max)) xs
    → All (λ o. (from ≤ o) × (o + 4 ≤ e) × (o ≤ u16_max)) xs
further-ttls from start e xs le =
    All-map _ _ xs (λ o (late, near, small). (late, omega (arith, near, le), small))

within_message-le :
    (msg : Bytes) (n : ℕ) {e : ℕ} → within_message msg n ≡ some e → (e ≡ n) × (n ≤ length msg)
within_message-le msg n h = ground (arith, h)

-- the first OPT record
opt-IsFound :
    (from start e rcode : ℕ) (found : Records)
    → IsFound from start found
    → start < e
    → IsFound from e (record found { opt = some (start, e); extended_rcode = rcode })
opt-IsFound from start e rcode found w lt = record {
  since = omega (arith, w.since, lt);
  ttls = further-ttls from start e found.ttl_offsets (omega (arith, lt)) w.ttls;
  opt = λ a b eq. ground (arith, eq, lt, w.since);
  apart = λ a b eq.
      (let is_a : start ≡ a = ground (arith, eq) in
        All-map _ _ found.ttl_offsets (λ o (_, near, _). inl (omega (arith, near, is_a))) w.ttls);
}

ttl-IsFound :
    (from start at e : ℕ) (found : Records)
    → IsFound from start found
    → start < at
    → at + 10 ≤ e
    → at + 4 ≤ u16_max
    → IsFound from e (record found { ttl_offsets = found.ttl_offsets ++ (at + 4) ∷ [] })
ttl-IsFound from start at e found w after fits small = record {
  since = omega (arith, w.since, after, fits);
  ttls =
      (All-append _ found.ttl_offsets (at + 4)
        (further-ttls from start e found.ttl_offsets (omega (arith, after, fits)) w.ttls)
        (omega (arith, w.since, after), omega (arith, fits), small));
  opt = λ a b eq. (let (late, lt, le) = w.opt a b eq in (late, lt, omega (arith, le, after, fits)));
  apart = λ a b eq.
      (let (_, _, le) = w.opt a b eq in
        All-append _ found.ttl_offsets (at + 4) (w.apart a b eq) (inr (omega (arith, le, after))));
}

note_record-IsFound :
    (msg : Bytes) (early : Bool) (from start at e rtype : ℕ) (found : Records) {found' : Records}
    → IsFound from start found
    → start < at
    → at + 10 ≤ e
    → note_record msg early start at e rtype found ≡ some found'
    → IsFound from e found'
unfolding note_record
note_record-IsFound msg early from start at e rtype found w after fits h =
    elim (Bool-cases (rtype == type_opt)) [
      | inl is_opt ↦ elim (Bool-cases (early || is_some found.opt)) [
        | inl refused ↦ absurd (ground (arith, is_opt, refused, h))
        | inr fine ↦
            rw (sym (some_inj.0 (rw (is_opt, fine) at h))) (
              opt-IsFound from start e (get_or msg (at + 4) 0) found w (omega (arith, after, fits)))
      ]
      | inr other ↦ elim (Bool-cases (leb (at + 4) u16_max)) [
        | inl small ↦
            rw (sym (some_inj.0 (rw (other, small) at h)))
              (ttl-IsFound from start at e found w after fits (ground (arith, small)))
        | inr big ↦ absurd (ground (arith, other, big, h))
      ]
    ]

record_at-IsFound :
    (msg : Bytes) (early : Bool) (from start : ℕ) (found : Records) {next : ℕ × Records}
    → IsFound from start found
    → record_at msg early start found ≡ some next
    → IsFound from next.0 next.1 × (start < next.0) × (next.0 ≤ length msg)
unfolding record_at
record_at-IsFound msg early from start found w h =
    let (at, (named, h1)) = bind-some (skip_name msg start true) _ h in
    let (rtype, (_, h2)) = bind-some (u16_at msg at) _ h1 in
    let (len, (_, h3)) = bind-some (u16_at msg (at + 8)) _ h2 in
    let (e, (inside, h4)) = bind-some (within_message msg (at + 10 + len)) _ h3 in
    let (found', (noted, h5)) = bind-some (note_record msg early start at e rtype found) _ h4 in
    let (e-is, e-le) = within_message-le msg (at + 10 + len) inside in
    let (after, _, _, _) = (skip_name-bounds msg start true).1 at named in
    let fits : at + 10 ≤ e = omega (arith, e-is) in
    rw (sym (some_inj.0 h5)) (
      note_record-IsFound msg early from start at e rtype found w after fits noted,
      omega (arith, after, fits),
      omega (arith, e-le, e-is),
    )

records_from-IsFound :
    (msg : Bytes) (from early left index at : ℕ) (found : Records) {r : Records}
    → IsFound from at found
    → at ≤ length msg
    → records_from msg early left index at found ≡ some r
    → IsFound from r.stop_at r × (r.stop_at ≤ length msg)
unfolding records_from
records_from-IsFound msg from early zero index at found w inside h =
    rw (sym (some_inj.0 h))
      (record { since = w.since; ttls = w.ttls; opt = w.opt; apart = w.apart }, inside)
records_from-IsFound msg from early (suc left) index at found w inside h =
    let (next, (stepped, h1)) = bind-some (record_at msg (ltb index early) at found) _ h in
    let (w', _, inside') = record_at-IsFound msg (ltb index early) from at found w stepped in
    records_from-IsFound msg from early left (index + 1) next.0 next.1 w' inside' h1

-- In a message whose records are read from within it, the records end within it and not before
-- that position; between, and at offsets of 16 bits, lie the TTL fields that `records` finds, and
-- an OPT record that is not empty and that none of these fields meets.
pub records-IsFound :
    (msg : Bytes) (from : ℕ) (r : Records)
    → from ≤ length msg
    → records msg from ≡ some r
    → IsFound from r.stop_at r × (r.stop_at ≤ length msg)
unfolding records
records-IsFound msg from r inside h =
    let (answers, (_, h1)) = bind-some (u16_at msg 6) _ h in
    let (authorities, (_, h2)) = bind-some (u16_at msg 8) _ h1 in
    let (additionals, (_, h3)) = bind-some (u16_at msg 10) _ h2 in
    records_from-IsFound msg from (answers + authorities) (answers + authorities + additionals) 0
      from _
      (record {
        since = omega arith;
        ttls = tt;
        opt = λ a e eq. absurd (ground (arith, eq));
        apart = λ a e eq. tt;
      })
      inside h3

-- A question that is found ends within the message, 5 to 259 bytes after the header.
pub question_end-bounds :
    (msg : Bytes) (e : ℕ)
    → question_end msg ≡ some e
    → (e ≤ length msg) × (header_len + 5 ≤ e) × (e ≤ header_len + 259)
unfolding question_end
question_end-bounds msg e h =
    let (questions, (_, h1)) = bind-some (u16_at msg 4) _ h in
    elim (Bool-cases (questions == 1)) [
      | inl single ↦
          (let h2 = rw single at h1 in
            let (name_end, (named, h3)) = bind-some (skip_name msg header_len false) _ h2 in
            let (e-is, e-le) = within_message-le msg (name_end + 4) h3 in
            let (after, _, _, plain) = (skip_name-bounds msg header_len false).1 name_end named in
            (
              omega (arith, e-is, e-le),
              omega (arith, e-is, after),
              omega (arith, e-is, after, plain refl),
            ))
      | inr other ↦ absurd (ground (arith, other, h1))
    ]
