-- ===== src/Dns/Answer/Fit.antt =====
-- The sizes of the replies of core/crates/dns/src/answer.rs.
use Prim.Native.Nat.{bit_and, bit_or}
use tollgate.Common.{
  ℕ, ◌+◌, ◌-◌, ◌≤◌, ◌≡◌, Bool, true, false, Option, none, some, List, [], ◌∷◌, ◌++◌, leb, length,
  take, drop, Bytes, arith, length-append, refl, Bool-cases, inl, inr, ap, ◌==◌, ◌&&◌, zero, suc,
  get_or, if◌then◌else◌,
}
use tollgate.Dns.Wire.{AnswerRecord, answer_records, header_len}
use tollgate.Dns.Answer.{
  class_in, zeros, noerror, bit, type_a, type_aaaa, usable, qtype_and_class, Requester, ClientEdns,
  opt_for, opt, udp_limit, build, local_reply, empty, blocked, zero_record, fitting, last_end,
  trimmed, truncated, fit, max_udp_payload, classic_udp_payload,
}

opt-short : (r : Requester) → length (opt r) ≤ 11
unfolding opt
opt-short r = go r.edns
  where
    go : (e : Option ClientEdns) → length (opt_for e) ≤ 11
    go none = omega arith
    go (some e) = omega arith

pub udp_limit-bounds :
    (r : Requester) → (classic_udp_payload ≤ udp_limit r) × (udp_limit r ≤ max_udp_payload)
unfolding udp_limit
udp_limit-bounds r = ground arith

length-build :
    (r : Requester) (a b count : ℕ) (records : Bytes)
    → length (build r a b records count)
      ≡ header_len + length r.question + length records + length (opt r)
unfolding build
length-build r a b count records =
    omega (arith, length-append (r.question ++ records) (opt r), length-append r.question records)

-- a reply without records fits every requester
short_reply :
    (r : Requester) (a b : ℕ) → length r.question ≤ 259 → length (build r a b [] 0) ≤ udp_limit r
short_reply r a b h = omega (arith, h, length-build r a b 0 [], opt-short r, (udp_limit-bounds r).0)

truncated-le :
    (r : Requester) (reply : Bytes)
    → length r.question ≤ 259
    → length (truncated r reply) ≤ udp_limit r
truncated-le r reply h = short_reply r (bit_or (get_or reply 2 0) 0x02) (get_or reply 3 0) h

length-take-le : (n : ℕ) (s : Bytes) → length (take n s) ≤ n
length-take-le zero s = omega arith
length-take-le (suc n) [] = omega arith
length-take-le (suc n) (x ∷ s) = omega (arith, length-take-le n s)

last_end-fitting :
    (budget e : ℕ) (answers : List AnswerRecord)
    → e ≤ budget
    → last_end (fitting budget answers) e ≤ budget
unfolding fitting last_end
last_end-fitting budget e [] h = h
last_end-fitting budget e (a ∷ answers) h = elim (Bool-cases (leb a.end_at budget)) [
  | inl fits ↦ rw fits (last_end-fitting budget a.end_at answers (ground (arith, fits)))
  | inr long ↦ rw long h
]

trimmed-le :
    (r : Requester) (reply : Bytes) (answers : List AnswerRecord)
    → length r.question ≤ 259
    → length (trimmed r reply answers) ≤ udp_limit r
unfolding trimmed
trimmed-le r reply answers h = elim (Bool-cases (usable (qtype_and_class r).0 answers kept)) [
  | inl whole ↦ rw whole (
      omega (
        arith,
        h,
        opt-short r,
        (udp_limit-bounds r).0,
        length-take-le (last_end kept at - at) (drop at reply),
        last_end-fitting budget at answers (omega (arith, h, opt-short r, (udp_limit-bounds r).0)),
        length-build r (bit_and (get_or reply 2 0) 0xfd) (get_or reply 3 0) (length kept)
            (take (last_end kept at - at) (drop at reply)),
      ))
  | inr none_left ↦ rw none_left (truncated-le r reply h)
]
  where
    at : ℕ
    at = header_len + length r.question

    budget : ℕ
    budget = udp_limit r - length (opt r)

    kept : List AnswerRecord
    kept = fitting budget answers

-- A reply for a question of at most 259 bytes, as every question that is read is, is cut to what
-- its requester accepts, which is 512 to 1232 bytes.
pub fit-le :
    (r : Requester) (reply : Bytes)
    → length r.question ≤ 259
    → (length (fit r reply) ≤ udp_limit r)
      × (classic_udp_payload ≤ udp_limit r)
      × (udp_limit r ≤ max_udp_payload)
unfolding fit
fit-le r reply h = (size, (udp_limit-bounds r).0, (udp_limit-bounds r).1)
  where
    go :
        (o : Option (List AnswerRecord))
        → length (elim o [ none ↦ truncated r reply | some answers ↦ trimmed r reply answers ])
          ≤ udp_limit r
    go none = truncated-le r reply h
    go (some answers) = trimmed-le r reply answers h

    size : length (fit r reply) ≤ udp_limit r
    size = elim (Bool-cases (leb (length reply) (udp_limit r))) [
      | inl short ↦ rw short (ground (arith, short))
      | inr long ↦ rw long (go (answer_records reply (header_len + length r.question)))
    ]

length-zeros : (n : ℕ) → length (zeros n) ≡ n
length-zeros zero = refl
length-zeros (suc n) = ap suc (length-zeros n)

length-zero_record : (qtype n : ℕ) → length (zero_record qtype n) ≡ 12 + n
unfolding zero_record
length-zero_record qtype n = omega (arith, length-zeros n)

local_reply-le :
    (r : Requester) (rcode count : ℕ) (records : Bytes)
    → length r.question ≤ 259
    → length records ≤ 28
    → length (local_reply r rcode records count) ≤ udp_limit r
unfolding local_reply
local_reply-le r rcode count records h few = omega (
  arith,
  h,
  few,
  opt-short r,
  (udp_limit-bounds r).0,
  length-build r (bit_or 0x80 (bit r.recursion_desired)) (bit_or 0x80 rcode) count records,
)

pick-le :
    (b c : Bool) (s t u : Bytes) (n : ℕ)
    → length s ≤ n
    → length t ≤ n
    → length u ≤ n
    → length (if b then s else if c then t else u) ≤ n
pick-le true c s t u n hs ht hu = hs
pick-le false true s t u n hs ht hu = ht
pick-le false false s t u n hs ht hu = hu

-- The reply for a blocked name, and one without records, fits every requester as it is.
pub blocked-le :
    (r : Requester) (rcode : ℕ)
    → length r.question ≤ 259
    → (length (blocked r) ≤ udp_limit r) × (length (empty r rcode) ≤ udp_limit r)
unfolding blocked empty
blocked-le r rcode h =
    let (qtype, qclass) = qtype_and_class r in
    let few4 : length (zero_record qtype 4) ≤ 28 = omega (arith, length-zero_record qtype 4) in
    let few16 : length (zero_record qtype 16) ≤ 28 = omega (arith, length-zero_record qtype 16) in
    (
      pick-le (qtype == type_a && qclass == class_in) (qtype == type_aaaa && qclass == class_in)
          (local_reply r noerror (zero_record qtype 4) 1)
          (local_reply r noerror (zero_record qtype 16) 1) (empty r noerror) (udp_limit r)
          (local_reply-le r noerror 1 (zero_record qtype 4) h few4)
          (local_reply-le r noerror 1 (zero_record qtype 16) h few16)
          (local_reply-le r noerror 0 [] h (omega arith)),
      local_reply-le r rcode 0 [] h (omega arith),
    )
