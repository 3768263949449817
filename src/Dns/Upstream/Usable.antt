-- ===== src/Dns/Upstream/Usable.antt =====
-- The answers that `UpstreamAnswer::parse` of core/crates/dns/src/answer.rs accepts.
use Prim.Native.Nat.{bit_and}
use tollgate.Common.{
  ℕ, ◌+◌, ◌-◌, ◌≤◌, ◌≡◌, Bool, true, false, not, Option, none, some, List, [], ◌∷◌, ◌==◌, length,
  take, Bytes, arith, All, refl, inl, inr, length-append, length-take, length-drop, length-lower,
  lower, drop, ◌∙◌, str_eq, str_eq_iff, ap, ◌||◌, is_some, get_or, ◌/◌, ◌++◌, if◌then◌else◌,
}
use tollgate.Dns.Wire.{
  is_response, overwrite, set_u16, to_be16, header_len, question_end, question_key, Records,
  records,
}
use tollgate.Dns.Answer.{Message}
use tollgate.Dns.Upstream.{
  UpstreamAnswer, Rejection, extended_rcode, does_not_decode, not_a_response, other_question,
  opt_not_last, Checked, accepted, rejected, accept_cut, accept_records, accept_question, parse,
}
use tollgate.Dns.Wire.Found.{IsFound, records-IsFound, question_end-bounds, All-map}

-- Every position that rendering writes lies within the stored answer: the question, as long as the
-- key, and behind it the TTL fields.
pub record IsUsable (key : Bytes) (u : UpstreamAnswer) : Type 0 where
  pub question : u.question_end ≡ header_len + length key
  pub inside : u.question_end ≤ length u.bytes
  pub ttls : All (λ o. (u.question_end ≤ o) × (o + 4 ≤ length u.bytes)) u.ttl_offsets

IsAccepted : Bytes → Checked → Type 0
IsAccepted key (accepted u) = IsUsable key u
IsAccepted key (rejected reason) = Unit

length-overwrite :
    (msg : Bytes) (at : ℕ) (value : Bytes)
    → at + length value ≤ length msg
    → length (overwrite msg at value) ≡ length msg
length-overwrite msg at value h = omega (
  arith,
  h,
  length-append (take at msg ++ value) (drop (at + length value) msg),
  length-append (take at msg) value,
  length-take at msg,
  length-drop (at + length value) msg,
)

length-question_key :
    (msg : Bytes) (e : ℕ)
    → e ≤ length msg
    → header_len + 5 ≤ e
    → length (question_key msg e) ≡ e - header_len
unfolding question_key
length-question_key msg e h after =
    let key = take (e - header_len) (drop header_len msg) in
    let n = length key - 4 in
    omega (
      arith,
      h,
      after,
      length-append (lower (take n key)) (drop n key),
      length-lower (take n key),
      length-take n key,
      length-drop n key,
      length-take (e - header_len) (drop header_len msg),
      length-drop header_len msg,
    )

if_rejected :
    (key : Bytes) (b : Bool) (reason : Rejection) (c : Checked)
    → (b ≡ false → IsAccepted key c)
    → IsAccepted key (if b then rejected reason else c)
unfolding IsAccepted
if_rejected key true reason c h = tt
if_rejected key false reason c h = h refl

whole-IsUsable :
    (wire key : Bytes) (e : ℕ) (r : Records)
    → e ≡ header_len + length key
    → r.stop_at ≤ length wire
    → IsFound e r.stop_at r
    → IsUsable key
        (record { bytes = take r.stop_at wire; ttl_offsets = r.ttl_offsets; question_end = e })
whole-IsUsable wire key e r as_long inside w = record {
  question = as_long;
  inside = omega (arith, w.since, length-take r.stop_at wire, inside);
  ttls =
      (All-map _ _ r.ttl_offsets
        (λ o (late, near, _). (late, omega (arith, near, length-take r.stop_at wire, inside)))
        w.ttls);
}

All-both :
    (P Q R : ℕ → Type 0) (xs : List ℕ)
    → ((x : ℕ) → P x → Q x → R x)
    → All P xs
    → All Q xs
    → All R xs
All-both P Q R [] f hp hq = tt
All-both P Q R (x ∷ xs) f (px, hp) (qx, hq) = (f x px qx, All-both P Q R xs f hp hq)

cut-IsUsable :
    (wire key : Bytes) (e start stop : ℕ) (r : Records)
    → r.opt ≡ some (start, stop)
    → stop ≡ r.stop_at
    → header_len + 5 ≤ e
    → e ≡ header_len + length key
    → r.stop_at ≤ length wire
    → IsFound e r.stop_at r
    → (v : ℕ)
    → IsUsable key (record {
      bytes = set_u16 (take start (take r.stop_at wire)) 10 v;
      ttl_offsets = r.ttl_offsets;
      question_end = e;
    })
unfolding set_u16
cut-IsUsable wire key e start stop r has last after as_long inside w v =
    let (late, before, _) = w.opt start stop has in
    let cut : length (take start (take r.stop_at wire)) ≡ start = omega (
      arith,
      before,
      last,
      inside,
      length-take start (take r.stop_at wire),
      length-take r.stop_at wire,
    ) in
    let kept : length (overwrite (take start (take r.stop_at wire)) 10 (to_be16 v)) ≡ start =
      length-overwrite (take start (take r.stop_at wire)) 10 (to_be16 v)
        (omega (arith, cut, late, after))
      ∙ cut in
    record {
      question = as_long;
      inside = rw kept late;
      ttls = rw kept (
          All-both _ _ _ r.ttl_offsets
            (λ o (behind, near, _) apart. (
              behind,
              elim apart [
                | inl ahead ↦ ahead
                | inr beyond ↦ absurd (omega (arith, near, beyond, last))
              ],
            ))
            w.ttls (w.apart start stop has));
    }

cut-IsAccepted :
    (wire key : Bytes) (e : ℕ) (r : Records) (o : Option (ℕ × ℕ))
    → r.opt ≡ o
    → header_len + 5 ≤ e
    → e ≡ header_len + length key
    → r.stop_at ≤ length wire
    → IsFound e r.stop_at r
    → IsAccepted key (accept_cut wire e r o)
unfolding IsAccepted
cut-IsAccepted wire key e r none has after as_long inside w =
    whole-IsUsable wire key e r as_long inside w
cut-IsAccepted wire key e r (some (start, stop)) has after as_long inside w =
    if_rejected key (not (stop == r.stop_at)) opt_not_last _ (λ same.
      cut-IsUsable wire key e start stop r has (ground (arith, same)) after as_long inside w _)

records-IsAccepted :
    (wire key : Bytes) (e : ℕ) (o : Option Records)
    → records wire e ≡ o
    → header_len + 5 ≤ e
    → e ≤ length wire
    → e ≡ header_len + length key
    → IsAccepted key (accept_records wire e o)
unfolding IsAccepted
records-IsAccepted wire key e none found after e-le as_long = tt
records-IsAccepted wire key e (some r) found after e-le as_long =
    let (w, inside) = records-IsFound wire e r e-le found in
    if_rejected key (not (r.extended_rcode == 0)) extended_rcode _
      (λ _. cut-IsAccepted wire key e r r.opt refl after as_long inside w)

question-IsAccepted :
    (wire key : Bytes) (o : Option ℕ)
    → question_end wire ≡ o
    → IsAccepted key (accept_question wire key o)
unfolding IsAccepted
question-IsAccepted wire key none found = tt
question-IsAccepted wire key (some e) found =
    let (e-le, after, _) = question_end-bounds wire e found in
    if_rejected key (not (str_eq (question_key wire e) key)) other_question _ (λ same.
      let is_key : question_key wire e ≡ key =
        (str_eq_iff (question_key wire e) key).0 (ground (arith, same)) in
      let long = length-question_key wire e e-le after in
      records-IsAccepted wire key e (records wire e) refl after e-le
        (omega (arith, ap length is_key, long, after)))

parse-IsAccepted :
    (decode : Bytes → Option Message) (wire key : Bytes) → IsAccepted key (parse decode wire key)
unfolding parse
parse-IsAccepted decode wire key =
    if_rejected key (not (is_some (decode wire))) does_not_decode _ (λ _.
      if_rejected key (not (is_response wire) || not (bit_and (get_or wire 2 0 / 8) 0x0f == 0))
        not_a_response _ (λ _. question-IsAccepted wire key (question_end wire) refl))

-- In an upstream answer that is accepted for a question, everything that a reply writes lies
-- within the stored bytes: the question, which is as long as the requester's, and the TTL fields,
-- all of them behind the question, also when an OPT record was cut off.
pub parse-IsUsable :
    (decode : Bytes → Option Message) (wire key : Bytes) (u : UpstreamAnswer)
    → parse decode wire key ≡ accepted u
    → IsUsable key u
unfolding IsAccepted
parse-IsUsable decode wire key u h = rw h at (parse-IsAccepted decode wire key)
