-- ===== src/Mitm/Flight.antt =====
-- `Records` of core/crates/mitm/src/flight.rs: the TLS records that the proxy writes to a client.
pub mod Bytewise
pub mod Chunks
pub mod Fuel
use tollgate.Common.{
  ℕ, zero, suc, ◌+◌, ◌-◌, ◌*◌, min, Bool, true, false, not, ◌&&◌, ◌||◌, Option, none, some, List,
  [], ◌∷◌, ◌++◌, leb, ltb, ◌==◌, if◌then◌else◌, unwrap_or, length, is_empty, get_elem?, get_or,
  take, drop, Bytes, str_eq,
}

pub data Progress : Type 0 where
  hello tls13 tls12 certificate_sent no_certificate : Progress

-- `header` holds the bytes of the header that are there, `header_len` of them
pub record Records : Type 0 where
  pub progress : Progress
  pub header : Bytes
  pub remaining : ℕ
  pub handshake : Bytes

abbrev pub new : Records
new = record { progress = hello; header = []; remaining = 0; handshake = [] }

abbrev pub watching : Progress → Bool
watching certificate_sent = false
watching no_certificate = false
watching hello = true
watching tls13 = true
watching tls12 = true

-- before the certificate of TLS 1.2, whose handshake is in the clear
abbrev pub in_clear : Progress → Bool
in_clear hello = true
in_clear tls12 = true
in_clear tls13 = false
in_clear certificate_sent = false
in_clear no_certificate = false

abbrev pub u16_be : ℕ → ℕ → ℕ
u16_be a b = a * 256 + b

abbrev pub hello_retry_request : Bytes
hello_retry_request =
    0xcf ∷ 0x21 ∷ 0xad ∷ 0x74 ∷ 0xe5 ∷ 0x9a ∷ 0x61 ∷ 0x11 ∷ 0xbe ∷ 0x1d ∷ 0x8c ∷ 0x02 ∷ 0x1e ∷ 0x65
    ∷ 0xb8 ∷ 0x91 ∷ 0xc2 ∷ 0xa2 ∷ 0x11 ∷ 0x16 ∷ 0x7a ∷ 0xbb ∷ 0x8c ∷ 0x5e ∷ 0x07 ∷ 0x9e ∷ 0x09
    ∷ 0xe2 ∷ 0xc8 ∷ 0xa8 ∷ 0x33 ∷ 0x9c ∷ []

-- `slice.get(at..at + len)`
abbrev pub get_range : Bytes → ℕ → ℕ → Option Bytes
get_range s at len = if leb (at + len) (length s) then some (take len (drop at s)) else none

-- the loop on the extensions, with `tls13` and `resumed` so far; each turn takes four bytes or more
unfoldable pub read_extensions : ℕ → Bool × Bool → Bytes → Option (Bool × Bool)
unfolding str_eq
read_extensions zero found rest = none
read_extensions (suc n) found [] = some found
read_extensions (suc n) found (a ∷ b ∷ c ∷ d ∷ rest) =
    let kind = u16_be a b in
    let len = u16_be c d in
    let data_13 = str_eq (take len rest) (3 ∷ 4 ∷ []) in
    let is_13 = if kind == 43 then data_13 else found.0 in
    let next = read_extensions n (is_13, kind == 41 || found.1) (drop len rest) in
    if leb len (length rest) then next else none
read_extensions (suc n) found (a ∷ []) = none
read_extensions (suc n) found (a ∷ b ∷ []) = none
read_extensions (suc n) found (a ∷ b ∷ c ∷ []) = none

abbrev pub hello_kind : Bool × Bool → Progress
hello_kind (true, false) = tls13
hello_kind (true, true) = no_certificate
hello_kind (false, _) = tls12

abbrev extensions_kind : Option (Bool × Bool) → Progress
extensions_kind none = no_certificate
extensions_kind (some found) = hello_kind found

-- the part after the compression method
unfoldable pub server_extensions : Bytes → Progress
unfolding read_extensions
server_extensions [] = tls12
server_extensions (a ∷ []) = no_certificate
server_extensions (a ∷ b ∷ rest) =
    let len = u16_be a b in
    if leb len (length rest)
    then extensions_kind (read_extensions (suc len) (false, false) (take len rest))
    else no_certificate

abbrev after_session : Bytes → Option ℕ → Progress
after_session body none = no_certificate
after_session body (some len) =
    if leb (35 + len + 3) (length body)
    then server_extensions (drop (35 + len + 3) body)
    else no_certificate

unfoldable pub server_hello : Bytes → Progress
unfolding server_extensions str_eq
server_hello body = elim (get_range body 2 32) [
  | none ↦ no_certificate
  | some random ↦
      if str_eq random hello_retry_request then hello else after_session body (get_elem? body 34)
]

-- a handshake message
abbrev pub message_progress : Progress → ℕ → Bytes → Progress
message_progress hello kind body = if kind == 2 then server_hello body else no_certificate
message_progress tls12 kind body = if kind == 11 then certificate_sent else no_certificate
message_progress tls13 kind body = no_certificate
message_progress certificate_sent kind body = no_certificate
message_progress no_certificate kind body = no_certificate

-- the loop on the messages that are complete, with the bytes that are left where it ends there; each
-- turn takes four bytes or more
unfoldable pub read_messages : ℕ → Progress → Bytes → Progress × Bytes
unfolding server_hello
read_messages zero progress rest = (progress, rest)
read_messages (suc n) progress (kind ∷ a ∷ b ∷ c ∷ rest) =
    let len = a * 65536 + b * 256 + c in
    let progress' = message_progress progress kind (take len rest) in
    let more = read_messages n progress' (drop len rest) in
    if leb len (length rest)
    then (if in_clear progress' then more else (progress', []))
    else (progress, kind ∷ a ∷ b ∷ c ∷ rest)
read_messages (suc n) progress [] = (progress, [])
read_messages (suc n) progress (kind ∷ []) = (progress, kind ∷ [])
read_messages (suc n) progress (kind ∷ a ∷ []) = (progress, kind ∷ a ∷ [])
read_messages (suc n) progress (kind ∷ a ∷ b ∷ []) = (progress, kind ∷ a ∷ b ∷ [])

abbrev pub max_handshake_bytes : ℕ
max_handshake_bytes = 16 * 1024

-- `handshake_messages`
unfoldable pub handshake_messages : Records → Records
unfolding read_messages
handshake_messages r =
    let (progress, rest) = read_messages (suc (length r.handshake)) r.progress r.handshake in
    if not (in_clear progress)
    then record r { progress = progress }
    else if ltb max_handshake_bytes (length rest)
    then record r { progress = no_certificate; handshake = rest }
    else record r { progress = progress; handshake = rest }

abbrev pub follow_record : ℕ → Records → Records
follow_record kind r =
    if kind == 22 && in_clear r.progress then handshake_messages r else elim r.progress [
      | hello ↦ if kind == 20 then r else record r { progress = no_certificate }
      | tls13 ↦
          if kind == 20
          then r
          else if kind == 23
          then record r { progress = certificate_sent }
          else record r { progress = no_certificate }
      | _ ↦ record r { progress = no_certificate }
    ]

unfoldable pub record_written : Records → Records
unfolding handshake_messages
record_written r = record (follow_record (get_or r.header 0 0) r) { header = [] }

abbrev pub if_complete : Records → Records
if_complete r = if r.remaining == 0 then record_written r else r

-- so much of the header, which may be all of it
unfoldable pub with_header : Records → Bytes → Records
unfolding record_written
with_header r header =
    if length header == 5
    then if_complete
        (record r { header = header; remaining = u16_be (get_or header 3 0) (get_or header 4 0) })
    else record r { header = header }

abbrev pub add_header : Records → Bytes → Records
add_header r bytes = with_header r (r.header ++ bytes)

-- the handshake with bytes of the record after its header
abbrev pub kept : Records → Bytes → Bytes
kept r bytes =
    if get_or r.header 0 0 == 22 && in_clear r.progress then r.handshake ++ bytes else r.handshake

-- so much of the handshake, and what remains of the record
unfoldable pub with_body : Records → Bytes → ℕ → Records
unfolding record_written
with_body r handshake remaining =
    if_complete (record r { handshake = handshake; remaining = remaining })

abbrev pub add_body : Records → Bytes → Records
add_body r bytes = with_body r (kept r bytes) (r.remaining - length bytes)

-- how many bytes one turn of the loop takes, and what it does with them
abbrev pub room : Records → ℕ
room r = if ltb (length r.header) 5 then 5 - length r.header else r.remaining

abbrev pub take_in : Records → Bytes → Records
take_in r bytes = if ltb (length r.header) 5 then add_header r bytes else add_body r bytes

-- the loop of `written`
unfoldable pub follow : ℕ → Records → Bytes → Records
unfolding with_header with_body
follow zero r bytes = r
follow (suc n) r bytes =
    let k = min (room r) (length bytes) in
    let rest = follow n (take_in r (take k bytes)) (drop k bytes) in
    if is_empty bytes || not (watching r.progress) then r else rest

-- `written`: each turn takes a byte or more
unfoldable pub written : Records → Bytes → Records
unfolding follow
written r bytes =
    let r' = follow (length bytes) r bytes in
    if watching r'.progress then r' else record r' { handshake = [] }

-- the client's stream, as far as it watches: the results of its reads and writes are arguments
pub record FlightWatch : Type 0 where
  pub records : Records
  pub waited : Bool

abbrev pub is_sent : Progress → Bool
is_sent certificate_sent = true
is_sent hello = false
is_sent tls13 = false
is_sent tls12 = false
is_sent no_certificate = false

abbrev pub certificate_delivered : FlightWatch → Bool
certificate_delivered w = is_sent w.records.progress && w.waited

-- a read that found nothing to read yet, or did
abbrev pub poll_read : Bool → FlightWatch → FlightWatch
poll_read pending w = record w { waited = w.waited || pending && is_sent w.records.progress }

-- a write of which so many bytes were taken
abbrev pub poll_write : Bytes → ℕ → FlightWatch → FlightWatch
poll_write buf n w =
    if watching w.records.progress then record w { records = written w.records (take n buf) } else w
