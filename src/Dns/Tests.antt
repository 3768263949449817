-- ===== src/Dns/Tests.antt =====
-- Concrete inputs for the theorems on core/crates/dns.
use tollgate.Common.{
  inl, inr, ◌⊎◌, str_eq_iff, ℕ, ◌+◌, ◌-◌, ◌≤◌, ◌<◌, ◌≡◌, refl, Bool, true, false, not, ◌&&◌, ◌||◌,
  Option, none, some, List, [], ◌∷◌, ◌++◌, arith, Bytes, codes, length, str_eq, str_eq_refl, ◌∙◌,
  is_empty, any, ◌==◌,
}
use tollgate.Common.HashMap
use tollgate.Common.HashMap.{HashMap, get-insert, get-remove}
use tollgate.Dns.Wire.{Records, skip_from, skip_name, question_end, records}
use tollgate.Dns.Wire.Bounds.{skip_name-bounds}
use tollgate.Dns.Wire.Found.{IsFound, records-IsFound}
use tollgate.Dns.Answer.{Message, Requester, udp_limit, fit}
use tollgate.Dns.Answer.Fit.{fit-le}
use tollgate.Dns.Upstream.{UpstreamAnswer, accepted, parse}
use tollgate.Dns.Upstream.Usable.{IsUsable, parse-IsUsable}
use tollgate.Dns.Cache
use tollgate.Dns.Cache.{LruCache, IsLru, Entry, AnswerCache}
use tollgate.Dns.Cache.Sequences
use tollgate.Dns.Cache.Sequences.{CacheCall, inserted, looked_up, insert-get}
use tollgate.Dns.Cache.Aging.{hit}
use tollgate.Dns.Local.{is_local_name}
use tollgate.Dns.Local.Under.{is_local_name-eq}
use tollgate.Dns.Handler
use tollgate.Dns.Handler.{
  Environment, DnsHandler, UdpDatagram, SocketAddr, Stats, ForwardJob, LocalRecord, local,
  set_network,
}
use tollgate.Dns.Handler.Answering.{handle_packet, complete_local}
use tollgate.Dns.Handler.Routes.{IsRouted, handle_packet-IsRouted}
use tollgate.Dns.Handler.Networks.{here, stale_answer}

-- a query for `nas`, its question, and an answer with one record and an OPT record
abbrev question : Bytes
question = 3 ∷ 110 ∷ 97 ∷ 115 ∷ 0 ∷ 0 ∷ 1 ∷ 0 ∷ 1 ∷ []

abbrev query : Bytes
query = 0 ∷ 7 ∷ 1 ∷ 0 ∷ 0 ∷ 1 ∷ 0 ∷ 0 ∷ 0 ∷ 0 ∷ 0 ∷ 0 ∷ question

abbrev address_record : Bytes
address_record = 0xc0 ∷ 12 ∷ 0 ∷ 1 ∷ 0 ∷ 1 ∷ 0 ∷ 0 ∷ 0 ∷ 60 ∷ 0 ∷ 4 ∷ 10 ∷ 0 ∷ 0 ∷ 9 ∷ []

abbrev response : Bytes
response =
    0 ∷ 7 ∷ 0x81 ∷ 0x80 ∷ 0 ∷ 1 ∷ 0 ∷ 1 ∷ 0 ∷ 0 ∷ 0 ∷ 1 ∷ question
    ++ address_record
    ++ 0 ∷ 0 ∷ 41 ∷ 4 ∷ 208 ∷ 0 ∷ 0 ∷ 0 ∷ 0 ∷ 0 ∷ 0 ∷ []

skip_name-bounds_example :
    (skip_from 22 query 12 12 false ≡ some (skip_name query 12 false))
    × ((e : ℕ)
        → skip_name query 12 false ≡ some e
        → (12 < e) × (e ≤ 21) × (e - 12 ≤ 256) × (false ≡ false → e - 12 ≤ 255))
skip_name-bounds_example = skip_name-bounds query 12 false

abbrev found : Records
found = record { ttl_offsets = 27 ∷ []; opt = some (37, 48); extended_rcode = 0; stop_at = 48 }

records-IsFound_example : IsFound 21 48 found × (48 ≤ length response)
unfolding records
records-IsFound_example = records-IsFound response 21 found (omega arith) refl

abbrev message : Message
message = record {
  id = 7;
  recursion_desired = true;
  op_code = 0;
  edns = none;
  name = codes "nas.";
  qtype = 1;
}

abbrev requester : Requester
requester = record { id = 7; recursion_desired = true; question = question; edns = none }

fit-le_example :
    (length (fit requester response) ≤ udp_limit requester)
    × (512 ≤ udp_limit requester)
    × (udp_limit requester ≤ 1232)
fit-le_example = fit-le requester response (omega arith)

abbrev decode : Bytes → Option Message
decode bytes = some message

-- the answer without its OPT record
abbrev stored : UpstreamAnswer
stored = record {
  bytes = 0 ∷ 7 ∷ 0x81 ∷ 0x80 ∷ 0 ∷ 1 ∷ 0 ∷ 1 ∷ 0 ∷ 0 ∷ 0 ∷ 0 ∷ question ++ address_record;
  ttl_offsets = 27 ∷ [];
  question_end = 21;
}

parse-IsUsable_example : IsUsable question stored
unfolding parse str_eq
parse-IsUsable_example = parse-IsUsable decode response question stored refl

-- a map that drops nothing
abbrev lru : LruCache
lru = record {
  Map = HashMap Entry;
  new = λ capacity. [];
  peek = HashMap.get;
  get = λ m key. (m, HashMap.get m key);
  put = HashMap.insert;
  pop = HashMap.remove;
}

lru-IsLru : IsLru lru
lru-IsLru = record {
  get-peek = λ m key. refl;
  peek-put = λ m key e. ground (arith, get-insert m key key e, str_eq_refl key);
  peek-get = λ m key other. refl;
  peek-put_other = λ m key other e differ.
      inl (ground (arith, get-insert m key other e, str_eq_iff key other, differ));
  peek-pop_other =
      λ m key other differ. ground (arith, get-remove m key other, str_eq_iff key other, differ);
  peek-pop = λ m key. ground (arith, get-remove m key key, str_eq_refl key);
}

abbrev cache : AnswerCache lru
cache = record { entries = []; max_ttl = 3600 }

-- calls after the answer was put in at 100: lookups, and an answer for another name
abbrev lookups : List CacheCall
lookups = looked_up question 130 ∷ looked_up [] 900 ∷ []

abbrev mixed_calls : List CacheCall
mixed_calls = looked_up question 130 ∷ inserted [] stored 140 ∷ []

insert-get_example :
    ((Cache.get lru
        (Sequences.run lru (Cache.insert lru cache question stored 100) lookups)
        question
        159).1
      ≡ hit stored 59)
    × (((Cache.get lru
            (Sequences.run lru (Cache.insert lru cache question stored 100) mixed_calls)
            question
            159).1
          ≡ hit stored 59)
        ⊎ ((Cache.get lru
              (Sequences.run lru (Cache.insert lru cache question stored 100) mixed_calls)
              question
              159).1
            ≡ none))
unfolding tollgate.Dns.Upstream.ttl_at
insert-get_example =
    insert-get lru lru-IsLru cache question stored 100 159 lookups mixed_calls (omega arith)
      (omega arith) (inr refl, (inl (λ e. ground (arith, e)), tt)) ((λ e. ground (arith, e)), tt)

is_local_name-eq_example : is_local_name (codes "Printer.LAN.") ≡ true
unfolding tollgate.Common.lower tollgate.Common.strip_suffix str_eq tollgate.Common.parents
is_local_name-eq_example = is_local_name-eq (codes "Printer.LAN.")

abbrev client : SocketAddr
client = record { ip = 10 ∷ 0 ∷ 0 ∷ 2 ∷ []; port = 5000 }

abbrev server : SocketAddr
server = record { ip = 198 ∷ 18 ∷ 0 ∷ 1 ∷ []; port = 53 }

-- packets that are their payloads, and a blocklist of nothing
abbrev env : Environment
env = record {
  decode = decode;
  parse_udp = λ bytes. some (record { source = client; destination = server; payload = bytes });
  build_udp = λ from to payload. payload;
  lru = lru;
  DomainSet = Unit;
  set_blocks = λ set name. false;
}

abbrev no_stats : Stats
no_stats = record {
  dns_queries = 0;
  dns_blocked = 0;
  dns_cache_hits = 0;
  dns_forwarded = 0;
  dns_failed = 0;
  packets_dropped = 0;
}

abbrev handler : DnsHandler env
handler = Handler.new env none no_stats

abbrev asked : ForwardJob
asked = record {
  query = query;
  client = client;
  server = server;
  requester = requester;
  key = question;
  name = codes "nas.";
  network = 0;
}

handle_packet-IsRouted_example : IsRouted env handler (handle_packet env handler query 100 0).1
handle_packet-IsRouted_example = handle_packet-IsRouted env handler query 100 0

abbrev after_query : DnsHandler env
after_query = (handle_packet env handler query 100 0).0

abbrev nas_record : LocalRecord
nas_record = record { rtype = 1; rclass = 1; ttl = 60; data_bytes = 10 ∷ 0 ∷ 0 ∷ 9 ∷ [] }

stale_answer_example :
    (complete_local env
      (set_network env after_query (codes "wifi"))
      asked
      (some (nas_record ∷ []))
      101).0.local_state
    ≡ (set_network env after_query (codes "wifi")).local_state
unfolding handle_packet str_eq question_end tollgate.Common.strip_suffix Cache.get HashMap.get
    Handler.new Cache.with_limits tollgate.Dns.Wire.question_key
stale_answer_example =
    stale_answer env handler after_query (set_network env after_query (codes "wifi")) query 100 0
      asked (codes "wifi") (some (nas_record ∷ [])) 101 refl here refl here
