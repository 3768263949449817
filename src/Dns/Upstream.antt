-- ===== src/Dns/Upstream.antt =====
-- `UpstreamAnswer` of core/crates/dns/src/answer.rs: an answer checked against its question, and
-- what its requester gets. hickory's decoder is a parameter, of which only its success counts.
pub mod Usable
use Prim.Native.Nat.{bit_and, bit_or}
use tollgate.Common.{
  ℕ, ◌+◌, ◌-◌, ◌/◌, Bool, true, false, not, ◌&&◌, ◌||◌, Option, none, some, List, [], ◌∷◌, ◌++◌,
  ◌==◌, leb, if◌then◌else◌, is_some, length, get_or, take, Bytes, str_eq, min,
}
use tollgate.Dns.Wire.{
  be16, to_be16, overwrite, set_u16, is_response, question_end, question_key, Records, records,
  header_len,
}
use tollgate.Dns.Answer.{
  Message, Requester, be32, to_be32, bit, noerror, nxdomain, opt, opt_len, max_udp_payload, fit,
}

pub record UpstreamAnswer : Type 0 where
  pub bytes : Bytes
  pub ttl_offsets : List ℕ
  pub question_end : ℕ

-- the errors of `UpstreamAnswer::parse`, in the order of its checks
pub data Rejection : Type 0 where
  does_not_decode not_a_response no_single_question other_question malformed_records extended_rcode
        opt_not_last :
      Rejection

pub data Checked : Type 0 where
  accepted : UpstreamAnswer → Checked
  rejected : Rejection → Checked

abbrev pub accept_cut : Bytes → ℕ → Records → Option (ℕ × ℕ) → Checked
accept_cut wire e r none =
    accepted (record { bytes = take r.stop_at wire; ttl_offsets = r.ttl_offsets; question_end = e })
accept_cut wire e r (some (opt_start, opt_end)) =
    let bytes = take opt_start (take r.stop_at wire) in
    let additionals = be16 (get_or bytes 10 0) (get_or bytes 11 0) in
    if not (opt_end == r.stop_at)
    then rejected opt_not_last
    else accepted (record {
      bytes = set_u16 bytes 10 (additionals - 1);
      ttl_offsets = r.ttl_offsets;
      question_end = e;
    })

abbrev pub accept_records : Bytes → ℕ → Option Records → Checked
accept_records wire e none = rejected malformed_records
accept_records wire e (some r) =
    if not (r.extended_rcode == 0) then rejected extended_rcode else accept_cut wire e r r.opt

abbrev pub accept_question : Bytes → Bytes → Option ℕ → Checked
accept_question wire key none = rejected no_single_question
accept_question wire key (some e) =
    if not (str_eq (question_key wire e) key)
    then rejected other_question
    else accept_records wire e (records wire e)

unfoldable pub parse : (Bytes → Option Message) → Bytes → Bytes → Checked
unfolding question_end question_key records set_u16
parse decode wire key =
    if not (is_some (decode wire))
    then rejected does_not_decode
    else if not (is_response wire) || not (bit_and (get_or wire 2 0 / 8) 0x0f == 0)
    then rejected not_a_response
    else accept_question wire key (question_end wire)

unfoldable pub cacheable : UpstreamAnswer → Bool
cacheable u =
    let rcode = bit_and (get_or u.bytes 3 0) 0x0f in
    (rcode == noerror || rcode == nxdomain)
    && bit_and (get_or u.bytes 2 0) 0x02 == 0
    && leb (length u.bytes + opt_len) max_udp_payload

unfoldable pub has_answers : UpstreamAnswer → Bool
has_answers u = not (get_or u.bytes 6 0 == 0 && get_or u.bytes 7 0 == 0)

unfoldable pub ttl_at : Bytes → ℕ → ℕ
ttl_at bytes at =
    be32 (get_or bytes at 0) (get_or bytes (at + 1) 0) (get_or bytes (at + 2) 0)
      (get_or bytes (at + 3) 0)

-- the least of the TTLs, none where there are none
abbrev pub least_ttl : Bytes → List ℕ → Option ℕ
least_ttl bytes [] = none
least_ttl bytes (at ∷ rest) = elim (least_ttl bytes rest) [
  | none ↦ some (ttl_at bytes at)
  | some least ↦ some (min (ttl_at bytes at) least)
]

unfoldable pub min_ttl : UpstreamAnswer → ℕ
unfolding ttl_at
min_ttl u = elim (least_ttl u.bytes u.ttl_offsets) [ none ↦ 0 | some least ↦ least ]

-- the loop of `render` over the TTL fields; `bytes` are the stored ones
unfoldable pub age : Bytes → ℕ → List ℕ → Bytes → Bytes
unfolding ttl_at
age bytes elapsed [] out = out
age bytes elapsed (at ∷ rest) out =
    age bytes elapsed rest (overwrite out at (to_be32 (ttl_at bytes at - elapsed)))

-- the header and the question of the requester
unfoldable pub readdress : Requester → UpstreamAnswer → Bytes
unfolding set_u16
readdress r u =
    let out = set_u16 u.bytes 0 r.id in
    let flags = bit_or (bit_and (get_or out 2 0) 0xfe) (bit r.recursion_desired) in
    overwrite (overwrite out 2 (flags ∷ [])) header_len r.question

unfoldable pub with_opt : Requester → Bytes → Bytes
unfolding opt set_u16
with_opt r out =
    let additionals = be16 (get_or out 10 0) (get_or out 11 0) in
    if is_some r.edns then set_u16 (out ++ opt r) 10 (additionals + 1) else out

unfoldable pub render : UpstreamAnswer → Requester → ℕ → Bytes
unfolding age readdress with_opt fit
render u r elapsed = fit r (with_opt r (age u.bytes elapsed u.ttl_offsets (readdress r u)))
