-- ===== src/Dns/Handler/Routes.antt =====
-- Where core/crates/dns/src/handler.rs sends a query, and the replies it writes.
use tollgate.Common.{
  ℕ, ◌-◌, ◌≤◌, ◌≡◌, refl, Bool, true, false, not, ◌||◌, Option, none, some, length, drop, Bytes,
  ◌==◌, ltb, if◌then◌else◌, arith, length-take, sym,
}
use tollgate.Dns.Wire.{header_len, is_response, question_end}
use tollgate.Dns.Wire.Found.{question_end-bounds}
use tollgate.Dns.Answer.{
  Message, Requester, from_query, header_only, formerr, notimp, noerror, servfail, blocked,
  max_udp_payload, fit, udp_limit,
}
use tollgate.Dns.Answer
use tollgate.Dns.Answer.Fit.{fit-le, blocked-le, udp_limit-bounds}
use tollgate.Dns.Upstream.{UpstreamAnswer, render, with_opt, age, readdress}
use tollgate.Dns.Local.{is_local_name}
use tollgate.Dns.Handler.{
  Environment, DnsHandler, SocketAddr, UdpDatagram, Outcome, reply, forward, local, dropped,
  is_tunnel_dns, is_blocked, type_svcb, type_https, inc,
}
use tollgate.Dns.Handler.Answering.{
  Query, count, job, from_cache, answer_query, answer_question, answer_decoded, answer_datagram,
  handle_packet,
}

-- a payload that fits one reply
pub record IsReply (env : Environment) (packet : Bytes) : Type 0 where
  pub server : SocketAddr
  pub client : SocketAddr
  pub payload : Bytes
  pub packed : packet ≡ env.build_udp server client payload
  pub small : length payload ≤ max_udp_payload

-- What an outcome promises: a reply fits; what is forwarded upstream is neither local nor blocked;
-- what goes to the local resolver is local, and carries the current network.
unfoldable pub IsRouted : (env : Environment) → DnsHandler env → Outcome → Type 0
IsRouted env h (reply packet) = IsReply env packet
IsRouted env h (forward j) =
    (is_local_name j.name ≡ false)
    × (is_blocked env h j.name ≡ false)
    × (length j.requester.question ≤ 259)
IsRouted env h (local j) =
    (is_local_name j.name ≡ true)
    × (j.network ≡ h.local_state.generation)
    × (length j.requester.question ≤ 259)
IsRouted env h dropped = Unit

module _ (env : Environment) where
  build_udp-IsReply :
      (server client : SocketAddr) (payload : Bytes)
      → length payload ≤ max_udp_payload
      → IsReply env (env.build_udp server client payload)
  build_udp-IsReply server client payload h = record {
    server = server;
    client = client;
    payload = payload;
    packed = refl;
    small = h;
  }

  render-small :
      (u : UpstreamAnswer) (r : Requester) (elapsed : ℕ)
      → length r.question ≤ 259
      → length (render u r elapsed) ≤ max_udp_payload
  unfolding render
  render-small u r elapsed h =
      let (le, _, small) =
        fit-le r (with_opt r (age u.bytes elapsed u.ttl_offsets (readdress r u))) h in
      omega (arith, le, small)

  if-IsRouted :
      (h : DnsHandler env) (b : Bool) (x y : DnsHandler env × Outcome)
      → (b ≡ true → IsRouted env h x.1)
      → (b ≡ false → IsRouted env h y.1)
      → IsRouted env h (if b then x else y).1
  if-IsRouted h true x y t f = t refl
  if-IsRouted h false x y t f = f refl

  from_cache-IsRouted :
      (h h' : DnsHandler env) (q : Query) (found : Option (UpstreamAnswer × ℕ)) (miss : Outcome)
      → length q.requester.question ≤ 259
      → IsRouted env h miss
      → IsRouted env h (from_cache env h' q found miss).1
  unfolding IsRouted
  from_cache-IsRouted h h' q none miss short routed = routed
  from_cache-IsRouted h h' q (some (cached, elapsed)) miss short routed =
      build_udp-IsReply q.server q.client (render cached q.requester elapsed)
        (render-small cached q.requester elapsed short)

  answer_query-IsRouted :
      (h : DnsHandler env) (q : Query) (now unix_secs : ℕ)
      → length q.requester.question ≤ 259
      → IsRouted env h (answer_query env h q now unix_secs).1
  unfolding IsRouted answer_query
  answer_query-IsRouted h q now unix_secs short =
      let (block, empty) = blocked-le q.requester noerror short in
      let (_, limit) = udp_limit-bounds q.requester in
      if-IsRouted h (q.message.qtype == type_svcb || q.message.qtype == type_https) _ _
        (λ _.
          build_udp-IsReply q.server q.client (Answer.empty q.requester noerror)
            (omega (arith, empty, limit)))
        (λ _.
          if-IsRouted h (is_local_name q.message.name) _ _
            (λ is_local.
              from_cache-IsRouted h _ q _ (local (job env q h.local_state.generation)) short
                (is_local, refl, short))
            (λ public.
              if-IsRouted h (is_blocked env h q.message.name) _ _
                (λ _.
                  build_udp-IsReply q.server q.client (blocked q.requester)
                    (omega (arith, block, limit)))
                (λ free.
                  from_cache-IsRouted h _ q _ (forward (job env q 0)) short (public, free, short))))

  question_short :
      (query : Bytes) (message : Message) (e : ℕ)
      → question_end query ≡ some e
      → length (from_query query message e).question ≤ 259
  question_short query message e found =
      let (_, _, near) = question_end-bounds query e found in
      omega (arith, near, length-take (e - header_len) (drop header_len query))

  question-IsRouted :
      (h : DnsHandler env) (d : UdpDatagram) (message : Message) (now unix_secs : ℕ)
      (found : Option ℕ)
      → question_end d.payload ≡ found
      → IsRouted env h (answer_question env h d message found now unix_secs).1
  unfolding IsRouted header_only
  question-IsRouted h d message now unix_secs none found =
      build_udp-IsReply d.destination d.source (header_only d.payload formerr) (omega arith)
  question-IsRouted h d message now unix_secs (some e) found =
      answer_query-IsRouted h _ now unix_secs (question_short d.payload message e found)

  decoded-IsRouted :
      (h : DnsHandler env) (d : UdpDatagram) (decoded : Option Message) (now unix_secs : ℕ)
      → IsRouted env h (answer_decoded env h d decoded now unix_secs).1
  unfolding IsRouted header_only
  decoded-IsRouted h d none now unix_secs =
      build_udp-IsReply d.destination d.source (header_only d.payload formerr) (omega arith)
  decoded-IsRouted h d (some message) now unix_secs =
      if-IsRouted h (not (message.op_code == 0)) _ _
        (λ _. build_udp-IsReply d.destination d.source (header_only d.payload notimp) (omega arith))
        (λ _. question-IsRouted h d message now unix_secs (question_end d.payload) refl)

  -- counting changes no route
  counted-IsRouted :
      (h h' : DnsHandler env) (o : Outcome)
      → h'.blocklist ≡ h.blocklist
      → h'.allowlist ≡ h.allowlist
      → h'.local_state ≡ h.local_state
      → IsRouted env h' o
      → IsRouted env h o
  unfolding IsRouted is_blocked
  counted-IsRouted h h' (reply packet) b a l routed = routed
  counted-IsRouted h h' (forward j) b a l (public, free, short) =
      (public, rw (sym b, sym a) free, short)
  counted-IsRouted h h' (local j) b a l (named, current, short) = (named, rw (sym l) current, short)
  counted-IsRouted h h' dropped b a l routed = tt

  datagram-IsRouted :
      (h : DnsHandler env) (d : Option UdpDatagram) (now unix_secs : ℕ)
      → IsRouted env h (answer_datagram env h d now unix_secs).1
  unfolding IsRouted
  datagram-IsRouted h none now unix_secs = tt
  datagram-IsRouted h (some d) now unix_secs =
      if-IsRouted h
        (not (is_tunnel_dns d.destination)
          || ltb (length d.payload) header_len
          || is_response d.payload)
        _ _ (λ _. tt)
        (λ _.
          counted-IsRouted h
            (count env h (record h.stats { dns_queries = inc h.stats.dns_queries })) _ refl refl
            refl
            (decoded-IsRouted
              (count env h (record h.stats { dns_queries = inc h.stats.dns_queries })) d
              (env.decode d.payload) now unix_secs))

  -- Whatever packet comes and whatever is cached: what is forwarded upstream has a name that is
  -- neither local nor blocked by the lists at that moment, what goes to the local resolver has a
  -- local name and carries the current network's number, and a packet that is written back holds
  -- at most 1232 bytes of DNS message.
  pub handle_packet-IsRouted :
      (h : DnsHandler env) (packet : Bytes) (now unix_secs : ℕ)
      → IsRouted env h (handle_packet env h packet now unix_secs).1
  unfolding handle_packet
  handle_packet-IsRouted h packet now unix_secs =
      datagram-IsRouted h (env.parse_udp packet) now unix_secs
