-- ===== src/Dns/Wire.antt =====
-- The DNS messages of core/crates/dns/src/wire.rs: a message is a list of bytes, a position an
-- offset into it. A length of a name is read with a loop on fuel, `none` when that is used up.
pub mod Bounds
pub mod Found
use Prim.Native.Nat.{bit_and}
use tollgate.Common.{
  ℕ, zero, suc, ◌+◌, ◌-◌, ◌*◌, ◌/◌, ◌%◌, Bool, true, false, ◌&&◌, ◌||◌, Option, none, some, List,
  [], ◌∷◌, ◌++◌, ◌==◌, ltb, leb, if◌then◌else◌, is_some, unwrap_or, length, get_elem?, get_or, take,
  drop, Bytes, lower,
}

abbrev pub header_len : ℕ
header_len = 12

abbrev pub type_opt : ℕ
type_opt = 41

abbrev pub max_name_len : ℕ
max_name_len = 255

abbrev pub u16_max : ℕ
u16_max = 65535

infix 20 ◌>>=◌
abbrev pub ◌>>=◌ : {A B : Type 0} → Option A → (A → Option B) → Option B
none >>= f = none
some a >>= f = f a

-- `u16::from_be_bytes` and `u16::to_be_bytes`
abbrev pub be16 : ℕ → ℕ → ℕ
be16 high low = high * 256 + low

abbrev pub to_be16 : ℕ → Bytes
to_be16 v = v / 256 % 256 ∷ v % 256 ∷ []

unfoldable pub u16_at : Bytes → ℕ → Option ℕ
u16_at msg at = do high ← get_elem? msg at; low ← get_elem? msg (at + 1); some (be16 high low)

-- `msg[at..at + value.len()].copy_from_slice(value)` where it lies within the message
abbrev pub overwrite : Bytes → ℕ → Bytes → Bytes
overwrite msg at value = take at msg ++ value ++ drop (at + length value) msg

unfoldable pub set_u16 : Bytes → ℕ → ℕ → Bytes
set_u16 msg at value = overwrite msg at (to_be16 value)

abbrev pub is_response : Bytes → Bool
is_response msg = ltb 0 (bit_and (get_or msg 2 0) 0x80)

-- one turn of the loop of `skip_name`: its result, or the next `at`
pub data Skip : Type 0 where
  stop : Option ℕ → Skip
  on : ℕ → Skip

-- a byte after the first of a compression pointer
abbrev pub pointer_end : Option ℕ → ℕ → Skip
pointer_end none at = stop none
pointer_end (some _) at = stop (some (at + 2))

abbrev pub skip_len : Bytes → ℕ → ℕ → Bool → ℕ → Skip
skip_len msg start at allow_pointer len =
    if bit_and len 0xc0 == 0
    then (if len == 0
        then stop (some (at + 1))
        else if leb max_name_len (at + (1 + len) - start)
        then stop none
        else on (at + (1 + len)))
    else if bit_and len 0xc0 == 0xc0 && allow_pointer
    then pointer_end (get_elem? msg (at + 1)) at
    else stop none

unfoldable pub skip_label : Bytes → ℕ → ℕ → Bool → Skip
skip_label msg start at allow_pointer = elim (get_elem? msg at) [
  | none ↦ stop none
  | some len ↦ skip_len msg start at allow_pointer len
]

unfoldable pub skip_from : ℕ → Bytes → ℕ → ℕ → Bool → Option (Option ℕ)
unfolding skip_label
skip_from zero msg start at allow_pointer = none
skip_from (suc n) msg start at allow_pointer = elim (skip_label msg start at allow_pointer) [
  | stop r ↦ some r
  | on at' ↦ skip_from n msg start at' allow_pointer
]

-- each turn but the last passes a byte of the message
unfoldable pub skip_name : Bytes → ℕ → Bool → Option ℕ
unfolding skip_from
skip_name msg at allow_pointer =
    unwrap_or (skip_from (suc (length msg)) msg at at allow_pointer) none

-- `(end <= msg.len()).then_some(end)`
abbrev pub within_message : Bytes → ℕ → Option ℕ
within_message msg e = if leb e (length msg) then some e else none

unfoldable pub question_end : Bytes → Option ℕ
unfolding u16_at skip_name
question_end msg = do
  questions ← u16_at msg 4
  if questions == 1
      then (do name_end ← skip_name msg header_len false; within_message msg (name_end + 4))
      else none

unfoldable pub question_key : Bytes → ℕ → Bytes
unfolding lower
question_key msg e =
    let key = take (e - header_len) (drop header_len msg) in
    let name_len = length key - 4 in lower (take name_len key) ++ drop name_len key

-- `end` is the source's name of the last field
pub record Records : Type 0 where
  pub ttl_offsets : List ℕ
  pub opt : Option (ℕ × ℕ)
  pub extended_rcode : ℕ
  pub stop_at : ℕ

-- a record whose type is at `at` and that ends at `e`; `early` says that its section is not the
-- additional one
unfoldable pub note_record : Bytes → Bool → ℕ → ℕ → ℕ → ℕ → Records → Option Records
note_record msg early start at e rtype found =
    if rtype == type_opt
    then (if early || is_some found.opt
        then none
        else some (record found { opt = some (start, e); extended_rcode = get_or msg (at + 4) 0 }))
    else if leb (at + 4) u16_max
    then some (record found { ttl_offsets = found.ttl_offsets ++ (at + 4) ∷ [] })
    else none

-- one turn of the loop of `records`: the next `at`, and what was found
unfoldable pub record_at : Bytes → Bool → ℕ → Records → Option (ℕ × Records)
unfolding skip_name u16_at note_record
record_at msg early start found = do
  at ← skip_name msg start true
  rtype ← u16_at msg at
  len ← u16_at msg (at + 8)
  e ← within_message msg (at + 10 + len)
  found' ← note_record msg early start at e rtype found
  some (e, found')

-- the turns for the records from `index` on, of which `left` are left
unfoldable pub records_from : Bytes → ℕ → ℕ → ℕ → ℕ → Records → Option Records
unfolding record_at
records_from msg early zero index at found = some (record found { stop_at = at })
records_from msg early (suc left) index at found = do
  next ← record_at msg (ltb index early) at found
  records_from msg early left (index + 1) next.0 next.1

unfoldable pub records : Bytes → ℕ → Option Records
unfolding records_from
records msg question_end = do
  answers ← u16_at msg 6
  authorities ← u16_at msg 8
  additionals ← u16_at msg 10
  records_from msg (answers + authorities) (answers + authorities + additionals) 0 question_end
      (record { ttl_offsets = []; opt = none; extended_rcode = 0; stop_at = question_end })

pub record AnswerRecord : Type 0 where
  pub rtype : ℕ
  pub end_at : ℕ

unfoldable pub answer_records_from : Bytes → ℕ → ℕ → Option (List AnswerRecord)
unfolding skip_name u16_at
answer_records_from msg zero at = some []
answer_records_from msg (suc left) start = do
  at ← skip_name msg start true
  rtype ← u16_at msg at
  len ← u16_at msg (at + 8)
  e ← within_message msg (at + 10 + len)
  rest ← answer_records_from msg left e
  some (record { rtype = rtype; end_at = e } ∷ rest)

unfoldable pub answer_records : Bytes → ℕ → Option (List AnswerRecord)
unfolding answer_records_from
answer_records msg question_end = do
  answers ← u16_at msg 6
  answer_records_from msg answers question_end
