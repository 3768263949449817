-- ===== src/Events/Newest.antt =====
-- What the blocked log of core/crates/common/src/events.rs holds.
use tollgate.Common.{
  ℕ, zero, suc, ◌+◌, ◌-◌, ◌≤◌, ◌<◌, ◌≡◌, ◌∙◌, refl, ap, sym, true, List, [], ◌∷◌, ◌++◌, leb,
  if◌then◌else◌, length, drop, map, arith, Text, utf8_length, byte_length, length-append,
  length-drop, drop-drop, leb→le, Bool-cases, inl, inr,
}
use tollgate.Events.{
  EventLog, BlockEvent, truncated, record_event, capacity, truncate_at_char_boundary, prefix_within,
}

unfoldable pub record_all : EventLog → List BlockEvent → EventLog
unfolding record_event
record_all log [] = log
record_all log (e ∷ events) = record_all (record_event log e) events

-- the last `n`
abbrev pub newest : ℕ → EventLog → EventLog
newest n events = drop (length events - n) events

drop-append : (n : ℕ) (xs ys : EventLog) → n ≤ length xs → drop n xs ++ ys ≡ drop n (xs ++ ys)
drop-append zero xs ys h = refl
drop-append (suc n) [] ys h = absurd (omega (arith, h))
drop-append (suc n) (x ∷ xs) ys h = drop-append n xs ys (omega (arith, h))

push_newest :
    (all : EventLog) (e : BlockEvent) (kept : EventLog)
    → newest capacity all ≡ kept
    → (if leb capacity (length kept) then drop 1 kept else kept) ++ e ∷ []
      ≡ newest capacity (all ++ e ∷ [])
push_newest all e kept is_kept = elim (Bool-cases (leb capacity (length all))) [
  | inl full ↦
      (let long = leb→le capacity (length all) full in
        let as_long : leb capacity (length (newest capacity all)) ≡ true =
          ground (arith, long, length-drop (length all - capacity) all) in
        let later : length (all ++ e ∷ []) - capacity ≡ length all - capacity + 1 =
          omega (arith, long, length-append all (e ∷ [])) in
        rw (sym is_kept, as_long, later, drop-drop 1 (length all - capacity) all)
          (drop-append (length all - capacity + 1) all (e ∷ []) (omega (arith, long))))
  | inr room ↦
      (let short : length all < capacity = ground (arith, room) in
        let before : length all - capacity ≡ 0 = omega (arith, short) in
        let after : length (all ++ e ∷ []) - capacity ≡ 0 =
          omega (arith, short, length-append all (e ∷ [])) in
        rw (sym is_kept, before, after, room) refl)
]

append-nil : {A : Type 0} (xs : List A) → xs ++ [] ≡ xs
append-nil [] = refl
append-nil (x ∷ xs) = ap (λ l. x ∷ l) (append-nil xs)

append-cons : (xs : EventLog) (y : BlockEvent) (ys : EventLog) → (xs ++ y ∷ []) ++ ys ≡ xs ++ y ∷ ys
append-cons [] y ys = refl
append-cons (x ∷ xs) y ys = ap (λ l. x ∷ l) (append-cons xs y ys)

record_newest :
    (all : EventLog) (e : BlockEvent)
    → record_event (newest capacity all) e ≡ newest capacity (all ++ truncated e ∷ [])
unfolding record_event
record_newest all e = push_newest all (truncated e) (newest capacity all) refl

record_all-append :
    (events : List BlockEvent) (all : EventLog)
    → record_all (newest capacity all) events ≡ newest capacity (all ++ map truncated events)
unfolding record_all
record_all-append [] all = ap (newest capacity) (sym (append-nil all))
record_all-append (e ∷ events) all =
    ap (λ log. record_all log events) (record_newest all e)
    ∙ record_all-append events (all ++ truncated e ∷ [])
    ∙ ap (newest capacity) (append-cons all (truncated e) (map truncated events))

-- Whatever is recorded, in order, the log holds exactly the newest 500 events, each with its host,
-- URL and source host cut.
pub record_all-newest :
    (events : List BlockEvent)
    → (record_all [] events ≡ newest capacity (map truncated events))
      × (length (record_all [] events) ≤ capacity)
record_all-newest events =
    let e = record_all-append events [] in
    (
      e,
      rw e (
          omega
            (arith, length-drop (length (map truncated events) - capacity) (map truncated events))),
    )

utf8_length-le : (c : ℕ) → utf8_length c ≤ 4
utf8_length-le c = ground arith

-- The longest text of whole characters in the first `max` bytes, up to the 4 bytes of one.
pub record IsCut (s : Text) (max : ℕ) (t : Text) : Type 0 where
  pub rest : Text
  pub begins : t ++ rest ≡ s
  pub short : byte_length t ≤ max
  pub long : max < byte_length s → max < byte_length t + 4

prefix_within-IsCut : (s : Text) (max : ℕ) → IsCut s max (prefix_within s max)
unfolding prefix_within byte_length
prefix_within-IsCut [] max = record {
  rest = [];
  begins = refl;
  short = omega arith;
  long = λ h. absurd (omega (arith, h));
}
prefix_within-IsCut (c ∷ s) max = elim (Bool-cases (leb (utf8_length c) max)) [
  | inl fits ↦
      (let w = prefix_within-IsCut s (max - utf8_length c) in
        let le = leb→le (utf8_length c) max fits in
        rw fits (record {
          rest = w.rest;
          begins = ap (λ t. c ∷ t) w.begins;
          short = omega (arith, w.short, le);
          long = λ h. omega (arith, le, w.long (omega (arith, h, le)));
        }))
  | inr wide ↦ rw wide (record {
    rest = c ∷ s;
    begins = refl;
    short = omega arith;
    long = λ h. ground (arith, wide, utf8_length-le c);
  })
]

-- A text is cut to at most `max` bytes at a character's end: what is left begins the text, and is
-- all of it where it fits, else less than 4 bytes shorter than `max` allows.
pub truncate_at_char_boundary-IsCut :
    (s : Text) (max : ℕ)
    → IsCut s max (truncate_at_char_boundary s max)
      × (byte_length s ≤ max → truncate_at_char_boundary s max ≡ s)
unfolding truncate_at_char_boundary
truncate_at_char_boundary-IsCut s max = elim (Bool-cases (leb (byte_length s) max)) [
  | inl fits ↦ rw fits (
    record {
      rest = [];
      begins = append-nil s;
      short = leb→le (byte_length s) max fits;
      long = λ h. absurd (omega (arith, h, leb→le (byte_length s) max fits));
    },
    λ h. refl,
  )
  | inr long ↦ rw long (prefix_within-IsCut s max, λ h. absurd (ground (arith, long, h)))
]
