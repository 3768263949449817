-- ===== src/Dns/Handler.antt =====
-- `DnsHandler` of core/crates/dns/src/handler.rs. A method takes the state and returns the new one
-- beside its result. The crates it calls (lru, hickory, etherparse) and the blocklist's lookup are
-- an `Environment`.
pub mod Answering
pub mod Routes
pub mod Networks
use tollgate.Common.{
  ℕ, ◌+◌, ◌*◌, ◌%◌, Bool, true, false, not, ◌&&◌, ◌||◌, Option, none, some, List, [], ◌∷◌, ◌++◌,
  ◌==◌, leb, ltb, if◌then◌else◌, is_some_and, length, any, Bytes, str_eq, lower, strip_dot, u64_max,
  min,
}
use tollgate.Policy.Pattern
use tollgate.Policy.Pattern.{HostPattern}
use tollgate.Events.{EventLog, BlockEvent, dns, record_event}
use tollgate.Dns.Wire.{
  to_be16, set_u16, u16_max, header_len, is_response, question_end, question_key,
}
use tollgate.Dns.Answer.{
  Message, Requester, from_query, be16_before_end, to_be32, type_any, noerror, formerr, servfail,
  notimp, header_only, blocked, bit,
}
use tollgate.Dns.Answer
use tollgate.Dns.Upstream.{
  UpstreamAnswer, Checked, accepted, rejected, parse, cacheable, has_answers, render,
}
use tollgate.Dns.Local.{is_local_name}
use tollgate.Dns.Cache
use tollgate.Dns.Cache.{LruCache, AnswerCache, cache_capacity, max_cache_ttl, with_limits}

abbrev pub type_svcb : ℕ
type_svcb = 64

abbrev pub type_https : ℕ
type_https = 65

abbrev pub local_cache_capacity : ℕ
local_cache_capacity = 128

abbrev pub max_local_ttl : ℕ
max_local_ttl = 60

-- an address (4 or 16 bytes) and a port
pub record SocketAddr : Type 0 where
  pub ip : Bytes
  pub port : ℕ

pub record UdpDatagram : Type 0 where
  pub source : SocketAddr
  pub destination : SocketAddr
  pub payload : Bytes

-- What is not modelled: `Message::from_vec`, the packets that etherparse reads and writes, the
-- cache's map, and the lookup in the blocklist.
pub record Environment : Type 1 where
  pub decode : Bytes → Option Message
  pub parse_udp : Bytes → Option UdpDatagram
  pub build_udp : SocketAddr → SocketAddr → Bytes → Bytes
  pub lru : LruCache
  pub DomainSet : Type 0
  pub set_blocks : DomainSet → Bytes → Bool

pub record ForwardJob : Type 0 where
  pub query : Bytes
  pub client : SocketAddr
  pub server : SocketAddr
  pub requester : Requester
  pub key : Bytes
  pub name : Bytes
  pub network : ℕ

pub data Outcome : Type 0 where
  reply : Bytes → Outcome
  forward : ForwardJob → Outcome
  local : ForwardJob → Outcome
  dropped : Outcome

pub record LocalRecord : Type 0 where
  pub rtype : ℕ
  pub rclass : ℕ
  pub ttl : ℕ
  pub data_bytes : Bytes

-- the counters of `Stats` that the handler counts in
pub record Stats : Type 0 where
  pub dns_queries : ℕ
  pub dns_blocked : ℕ
  pub dns_cache_hits : ℕ
  pub dns_forwarded : ℕ
  pub dns_failed : ℕ
  pub packets_dropped : ℕ

-- `fetch_add(1)` on a `u64`, which wraps
abbrev pub inc : ℕ → ℕ
inc n = (n + 1) % (u64_max + 1)

unfoldable pub cache_key : Bytes → Requester → Bytes
cache_key key r = key ++ bit (is_some_and r.edns (λ edns. edns.dnssec_ok)) ∷ []

-- `198.18.0.1` and `fd00:7467::1`, port 53
abbrev pub is_tunnel_dns : SocketAddr → Bool
is_tunnel_dns a =
    a.port == 53
    && (str_eq a.ip (198 ∷ 18 ∷ 0 ∷ 1 ∷ [])
        || str_eq a.ip
            (0xfd ∷ 0 ∷ 0x74 ∷ 0x67 ∷ 0 ∷ 0 ∷ 0 ∷ 0 ∷ 0 ∷ 0 ∷ 0 ∷ 0 ∷ 0 ∷ 0 ∷ 0 ∷ 1 ∷ []))

-- the records that are wanted and fit, from a message and a count
unfoldable pub add_records : ℕ → ℕ → List LocalRecord → Bytes × ℕ → Bytes × ℕ
add_records qtype qclass [] (out, count) = (out, count)
add_records qtype qclass (r ∷ records) (out, count) =
    let len = length r.data_bytes in
    let wanted = (r.rtype == qtype || qtype == type_any) && r.rclass == qclass in
    let bytes =
      0xc0 ∷ 0x0c ∷ to_be16 r.rtype
      ++ to_be16 r.rclass
      ++ to_be32 (min r.ttl max_local_ttl)
      ++ to_be16 len
      ++ r.data_bytes in
    add_records qtype qclass records (
      if leb len u16_max && (wanted && leb (length out + 12 + len) u16_max) && ltb count u16_max
      then (out ++ bytes, count + 1)
      else (out, count))

unfoldable pub local_answer : Bytes → List LocalRecord → Bytes
unfolding add_records set_u16
local_answer key records =
    let header = 0 ∷ 0 ∷ 0x81 ∷ 0x80 ∷ 0 ∷ 1 ∷ 0 ∷ 0 ∷ 0 ∷ 0 ∷ 0 ∷ 0 ∷ [] in
    let (out, count) =
      add_records (be16_before_end key 2) (be16_before_end key 0) records (header ++ key, 0) in
    set_u16 out 6 count

module _ (env : Environment) where
  pub record LocalState : Type 0 where
    pub network : Bytes
    pub generation : ℕ
    pub cache : AnswerCache env.lru

  pub record DnsHandler : Type 0 where
    pub blocklist : Option env.DomainSet
    pub allowlist : List HostPattern
    pub events : Option EventLog
    pub cache : AnswerCache env.lru
    pub local_state : LocalState
    pub stats : Stats

  abbrev pub new_local_cache : AnswerCache env.lru
  new_local_cache = with_limits env.lru local_cache_capacity max_local_ttl

  unfoldable pub new : Option env.DomainSet → Stats → DnsHandler
  new blocklist stats = record {
    blocklist = blocklist;
    allowlist = [];
    events = none;
    cache = with_limits env.lru cache_capacity max_cache_ttl;
    local_state = record { network = []; generation = 0; cache = new_local_cache };
    stats = stats;
  }

  unfoldable pub is_blocked : DnsHandler → Bytes → Bool
  is_blocked h name =
      is_some_and h.blocklist (λ set. env.set_blocks set name)
      && not (any (λ p. Pattern.matches p name) h.allowlist)

  abbrev pub log_block : Option EventLog → Bytes → ℕ → Option EventLog
  log_block none name unix_secs = none
  log_block (some events) name unix_secs = some (
      record_event events (record {
        unix_secs = unix_secs;
        kind = dns;
        host = lower (strip_dot name);
        url = none;
        source_host = none;
      }))

  -- `unix_secs` is the wall clock
  unfoldable pub record_block : DnsHandler → Bytes → ℕ → DnsHandler
  record_block h name unix_secs = record h { events = log_block h.events name unix_secs }

  abbrev pub set_blocklist : DnsHandler → Option env.DomainSet → DnsHandler
  set_blocklist h blocklist = record h { blocklist = blocklist }

  abbrev pub set_allowlist : DnsHandler → List HostPattern → DnsHandler
  set_allowlist h patterns = record h { allowlist = patterns }

  abbrev pub set_events : DnsHandler → Option EventLog → DnsHandler
  set_events h events = record h { events = events }

  unfoldable pub set_network : DnsHandler → Bytes → DnsHandler
  set_network h network = if str_eq h.local_state.network network then h else record h {
    local_state = record {
      network = network;
      generation = h.local_state.generation + 1;
      cache = new_local_cache;
    };
  }
