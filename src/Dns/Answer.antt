-- ===== src/Dns/Answer.antt =====
-- The replies of core/crates/dns/src/answer.rs. What hickory's `Message::from_vec` reads from a
-- message is a `Message`.
pub mod Fit
use Prim.Native.Nat.{bit_and, bit_or}
use tollgate.Common.{
  ℕ, zero, suc, ◌+◌, ◌-◌, ◌/◌, ◌*◌, ◌%◌, Bool, true, false, not, ◌&&◌, ◌||◌, Option, none, some,
  List, [], ◌∷◌, ◌++◌, ◌==◌, ltb, leb, if◌then◌else◌, is_some, is_some_and, length, is_empty, any,
  get_or, take, drop, Bytes, str_eq, min, max,
}
use tollgate.Dns.Wire.{
  ◌>>=◌, be16, to_be16, overwrite, set_u16, header_len, is_response, question_end, question_key,
  Records, records, AnswerRecord, answer_records,
}

abbrev pub block_ttl : ℕ
block_ttl = 60

abbrev pub max_udp_payload : ℕ
max_udp_payload = 1232

abbrev pub classic_udp_payload : ℕ
classic_udp_payload = 512

abbrev pub opt_len : ℕ
opt_len = 11

-- response codes
abbrev pub noerror : ℕ
noerror = 0

abbrev pub formerr : ℕ
formerr = 1

abbrev pub servfail : ℕ
servfail = 2

abbrev pub nxdomain : ℕ
nxdomain = 3

abbrev pub notimp : ℕ
notimp = 4

-- record types and classes
abbrev pub type_a : ℕ
type_a = 1

abbrev pub type_aaaa : ℕ
type_aaaa = 28

abbrev pub type_any : ℕ
type_any = 255

abbrev pub class_in : ℕ
class_in = 1

-- `u32::to_be_bytes` and `u32::from_be_bytes`
abbrev pub to_be32 : ℕ → Bytes
to_be32 v = v / 16777216 % 256 ∷ v / 65536 % 256 ∷ v / 256 % 256 ∷ v % 256 ∷ []

abbrev pub be32 : ℕ → ℕ → ℕ → ℕ → ℕ
be32 a b c d = ((a * 256 + b) * 256 + c) * 256 + d

unfoldable pub header_only : Bytes → ℕ → Bytes
header_only query rcode =
    get_or query 0 0
    ∷ get_or query 1 0
    ∷ bit_or 0x80 (bit_and (get_or query 2 0) 0x79)
    ∷ bit_or 0x80 rcode
    ∷ 0
    ∷ 0
    ∷ 0
    ∷ 0
    ∷ 0
    ∷ 0
    ∷ 0
    ∷ 0
    ∷ []

pub record ClientEdns : Type 0 where
  pub udp_payload : ℕ
  pub dnssec_ok : Bool

-- what a decoded message tells: `op_code` is 0 for a standard query, `name` and `qtype` are the
-- first question's
pub record Message : Type 0 where
  pub id : ℕ
  pub recursion_desired : Bool
  pub op_code : ℕ
  pub edns : Option ClientEdns
  pub name : Bytes
  pub qtype : ℕ

pub record Requester : Type 0 where
  pub id : ℕ
  pub recursion_desired : Bool
  pub question : Bytes
  pub edns : Option ClientEdns

abbrev pub from_query : Bytes → Message → ℕ → Requester
from_query query message e = record {
  id = message.id;
  recursion_desired = message.recursion_desired;
  question = take (e - header_len) (drop header_len query);
  edns = message.edns;
}

-- the 16 bits that end `n` bytes before the end
abbrev pub be16_before_end : Bytes → ℕ → ℕ
be16_before_end bytes n =
    be16 (get_or bytes (length bytes - (n + 2)) 0) (get_or bytes (length bytes - (n + 1)) 0)

abbrev pub qtype_and_class : Requester → ℕ × ℕ
qtype_and_class r = (be16_before_end r.question 2, be16_before_end r.question 0)

-- `u16::clamp`
abbrev pub clamp : ℕ → ℕ → ℕ → ℕ
clamp n low high = min (max n low) high

unfoldable pub udp_limit : Requester → ℕ
udp_limit r = elim r.edns [
  | none ↦ classic_udp_payload
  | some edns ↦ clamp edns.udp_payload classic_udp_payload max_udp_payload
]

abbrev opt_for : Option ClientEdns → Bytes
opt_for none = []
opt_for (some edns) =
    0
    ∷ 0
    ∷ 41
    ∷ max_udp_payload / 256
    ∷ max_udp_payload % 256
    ∷ 0
    ∷ 0
    ∷ (if edns.dnssec_ok then 0x80 else 0)
    ∷ 0
    ∷ 0
    ∷ 0
    ∷ []

-- the bytes of `Requester::opt`, none where it is `None`
unfoldable pub opt : Requester → Bytes
opt r = opt_for r.edns

abbrev pub bit : Bool → ℕ
bit b = if b then 1 else 0

unfoldable pub build : Requester → ℕ → ℕ → Bytes → ℕ → Bytes
unfolding opt
build r flags2 flags3 records count =
    (to_be16 r.id
      ++ flags2 ∷ flags3 ∷ to_be16 1
      ++ to_be16 count
      ++ to_be16 0
      ++ to_be16 (bit (is_some r.edns)))
    ++ r.question
    ++ records
    ++ opt r

unfoldable pub local_reply : Requester → ℕ → Bytes → ℕ → Bytes
unfolding build
local_reply r rcode records count =
    build r (bit_or 0x80 (bit r.recursion_desired)) (bit_or 0x80 rcode) records count

unfoldable pub empty : Requester → ℕ → Bytes
unfolding local_reply
empty r rcode = local_reply r rcode [] 0

abbrev pub zeros : ℕ → Bytes
zeros zero = []
zeros (suc n) = 0 ∷ zeros n

-- an answer record for the question's name, all of its data zero
unfoldable pub zero_record : ℕ → ℕ → Bytes
zero_record qtype rdata_len =
    0xc0 ∷ 0x0c ∷ to_be16 qtype
    ++ to_be16 class_in
    ++ to_be32 block_ttl
    ++ to_be16 rdata_len
    ++ zeros rdata_len

unfoldable pub blocked : Requester → Bytes
unfolding local_reply zero_record empty
blocked r =
    let (qtype, qclass) = qtype_and_class r in
    if qtype == type_a && qclass == class_in
    then local_reply r noerror (zero_record qtype 4) 1
    else if qtype == type_aaaa && qclass == class_in
    then local_reply r noerror (zero_record qtype 16) 1
    else empty r noerror

-- the records that end within the budget, up to the first that does not
unfoldable pub fitting : ℕ → List AnswerRecord → List AnswerRecord
fitting budget [] = []
fitting budget (a ∷ answers) =
    let rest = fitting budget answers in if leb a.end_at budget then a ∷ rest else []

unfoldable pub last_end : List AnswerRecord → ℕ → ℕ
last_end [] e = e
last_end (a ∷ answers) e = last_end answers a.end_at

abbrev pub truncated : Requester → Bytes → Bytes
truncated r reply = build r (bit_or (get_or reply 2 0) 0x02) (get_or reply 3 0) [] 0

abbrev pub usable : ℕ → List AnswerRecord → List AnswerRecord → Bool
usable qtype answers kept =
    is_empty answers || any (λ a. a.rtype == qtype || qtype == type_any) kept

-- the reply with the answers that fit
unfoldable pub trimmed : Requester → Bytes → List AnswerRecord → Bytes
unfolding build fitting last_end
trimmed r reply answers =
    let budget = udp_limit r - length (opt r) in
    let question_end = header_len + length r.question in
    let kept = fitting budget answers in
    let records = take (last_end kept question_end - question_end) (drop question_end reply) in
    if usable (qtype_and_class r).0 answers kept
    then build r (bit_and (get_or reply 2 0) 0xfd) (get_or reply 3 0) records (length kept)
    else truncated r reply

unfoldable pub fit : Requester → Bytes → Bytes
unfolding trimmed udp_limit opt
fit r reply =
    if leb (length reply) (udp_limit r)
    then reply
    else elim (answer_records reply (header_len + length r.question)) [
      | none ↦ truncated r reply
      | some answers ↦ trimmed r reply answers
    ]
