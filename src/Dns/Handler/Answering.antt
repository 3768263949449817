-- ===== src/Dns/Handler/Answering.antt =====
-- `DnsHandler::handle_packet`, `complete` and `complete_local` of core/crates/dns/src/handler.rs.
use tollgate.Common.{
  ℕ, ◌&&◌, ◌||◌, not, Option, none, some, List, ◌==◌, ltb, if◌then◌else◌, length, Bytes,
}
use tollgate.Dns.Wire.{header_len, is_response, question_end, question_key}
use tollgate.Dns.Answer.{
  Message, Requester, from_query, noerror, formerr, servfail, notimp, header_only, blocked,
}
use tollgate.Dns.Answer
use tollgate.Dns.Upstream.{
  UpstreamAnswer, Checked, accepted, rejected, parse, cacheable, has_answers, render,
}
use tollgate.Dns.Local.{is_local_name}
use tollgate.Dns.Cache
use tollgate.Dns.Cache.{AnswerCache}
use tollgate.Dns.Handler.{
  Environment, DnsHandler, SocketAddr, UdpDatagram, ForwardJob, Outcome, reply, forward, local,
  dropped, LocalRecord, Stats, inc, cache_key, is_tunnel_dns, local_answer, is_blocked,
  record_block, type_svcb, type_https,
}

-- a query from `client` to `server`, decoded as `message`
pub record Query : Type 0 where
  pub bytes : Bytes
  pub client : SocketAddr
  pub server : SocketAddr
  pub message : Message
  pub requester : Requester
  pub key : Bytes

module _ (env : Environment) where
  abbrev pub count : DnsHandler env → Stats → DnsHandler env
  count h stats = record h { stats = stats }

  abbrev pub answer : Query → Bytes → Outcome
  answer q payload = reply (env.build_udp q.server q.client payload)

  abbrev pub job : Query → ℕ → ForwardJob
  job q network = record {
    query = q.bytes;
    client = q.client;
    server = q.server;
    requester = q.requester;
    key = q.key;
    name = q.message.name;
    network = network;
  }

  abbrev pub count_hit : DnsHandler env → DnsHandler env
  count_hit h = count h (record h.stats { dns_cache_hits = inc h.stats.dns_cache_hits })

  abbrev pub count_forwarded : DnsHandler env → DnsHandler env
  count_forwarded h = count h (record h.stats { dns_forwarded = inc h.stats.dns_forwarded })

  -- what the cache has, else `miss`
  abbrev pub from_cache :
      DnsHandler env → Query → Option (UpstreamAnswer × ℕ) → Outcome → DnsHandler env × Outcome
  from_cache h q none miss = (count_forwarded h, miss)
  from_cache h q (some (cached, elapsed)) miss =
      (count_hit h, answer q (render cached q.requester elapsed))

  -- the branch for a local name
  unfoldable pub answer_local : DnsHandler env → Query → ℕ → DnsHandler env × Outcome
  answer_local h q now =
      let (cache, found) =
        Cache.get env.lru h.local_state.cache (cache_key q.key q.requester) now in
      from_cache (record h { local_state = record h.local_state { cache = cache } }) q found
        (local (job q h.local_state.generation))

  -- the rest of `handle_packet` for another name
  unfoldable pub answer_public : DnsHandler env → Query → ℕ → ℕ → DnsHandler env × Outcome
  unfolding is_blocked record_block
  answer_public h q now unix_secs =
      let (cache, found) = Cache.get env.lru h.cache (cache_key q.key q.requester) now in
      if is_blocked env h q.message.name
      then (
        record_block env (count h (record h.stats { dns_blocked = inc h.stats.dns_blocked }))
            q.message.name unix_secs,
        answer q (blocked q.requester),
      )
      else from_cache (record h { cache = cache }) q found (forward (job q 0))

  unfoldable pub answer_query : DnsHandler env → Query → ℕ → ℕ → DnsHandler env × Outcome
  unfolding answer_local answer_public is_local_name
  answer_query h q now unix_secs =
      if q.message.qtype == type_svcb || q.message.qtype == type_https
      then (h, answer q (Answer.empty q.requester noerror))
      else if is_local_name q.message.name
      then answer_local h q now
      else answer_public h q now unix_secs

  -- a standard query, and where its question ends
  abbrev pub answer_question :
      DnsHandler env → UdpDatagram → Message → Option ℕ → ℕ → ℕ → DnsHandler env × Outcome
  answer_question h d message none now unix_secs =
      (h, reply (env.build_udp d.destination d.source (header_only d.payload formerr)))
  answer_question h d message (some e) now unix_secs =
      answer_query h
        (record {
          bytes = d.payload;
          client = d.source;
          server = d.destination;
          message = message;
          requester = from_query d.payload message e;
          key = question_key d.payload e;
        })
        now unix_secs

  -- a message that was decoded
  abbrev pub answer_decoded :
      DnsHandler env → UdpDatagram → Option Message → ℕ → ℕ → DnsHandler env × Outcome
  answer_decoded h d none now unix_secs =
      (h, reply (env.build_udp d.destination d.source (header_only d.payload formerr)))
  answer_decoded h d (some message) now unix_secs =
      if not (message.op_code == 0)
      then (h, reply (env.build_udp d.destination d.source (header_only d.payload notimp)))
      else answer_question h d message (question_end d.payload) now unix_secs

  abbrev pub drop_packet : DnsHandler env → DnsHandler env × Outcome
  drop_packet h =
      (count h (record h.stats { packets_dropped = inc h.stats.packets_dropped }), dropped)

  abbrev pub answer_datagram :
      DnsHandler env → Option UdpDatagram → ℕ → ℕ → DnsHandler env × Outcome
  answer_datagram h none now unix_secs = drop_packet h
  answer_datagram h (some d) now unix_secs =
      if not (is_tunnel_dns d.destination)
        || ltb (length d.payload) header_len
        || is_response d.payload
      then drop_packet h
      else answer_decoded (count h (record h.stats { dns_queries = inc h.stats.dns_queries })) d
          (env.decode d.payload) now unix_secs

  unfoldable pub handle_packet : DnsHandler env → Bytes → ℕ → ℕ → DnsHandler env × Outcome
  unfolding answer_query
  handle_packet h packet now unix_secs = answer_datagram h (env.parse_udp packet) now unix_secs

  abbrev pub fail : DnsHandler env → ForwardJob → DnsHandler env × Bytes
  fail h j = (
    count h (record h.stats { dns_failed = inc h.stats.dns_failed }),
    env.build_udp j.server j.client (Answer.empty j.requester servfail),
  )

  abbrev pub complete_checked : DnsHandler env → ForwardJob → Checked → ℕ → DnsHandler env × Bytes
  complete_checked h j (rejected reason) now = fail h j
  complete_checked h j (accepted u) now = (
    (if cacheable u
        then record h { cache = Cache.insert env.lru h.cache (cache_key j.key j.requester) u now }
        else h),
    env.build_udp j.server j.client (render u j.requester 0),
  )

  -- `answer` is `None` for an error of the upstream
  unfoldable pub complete : DnsHandler env → ForwardJob → Option Bytes → ℕ → DnsHandler env × Bytes
  unfolding parse
  complete h j none now = fail h j
  complete h j (some wire) now = complete_checked h j (parse env.decode wire j.key) now

  abbrev pub complete_local_checked :
      DnsHandler env → ForwardJob → Checked → ℕ → DnsHandler env × Bytes
  complete_local_checked h j (rejected reason) now = fail h j
  complete_local_checked h j (accepted u) now = (
    (if (has_answers u && cacheable u) && h.local_state.generation == j.network
        then record h {
          local_state = record h.local_state {
            cache = Cache.insert env.lru h.local_state.cache (cache_key j.key j.requester) u now;
          };
        }
        else h),
    env.build_udp j.server j.client (render u j.requester 0),
  )

  unfoldable pub complete_local :
      DnsHandler env → ForwardJob → Option (List LocalRecord) → ℕ → DnsHandler env × Bytes
  unfolding local_answer parse
  complete_local h j none now = fail h j
  complete_local h j (some records) now =
      complete_local_checked h j (parse env.decode (local_answer j.key records) j.key) now
