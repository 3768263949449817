-- ===== src/Dns/Handler/Networks.antt =====
-- The local answers of core/crates/dns/src/handler.rs across changes of the network.
use tollgate.Common.{
  ℕ, ◌+◌, ◌≤◌, ◌<◌, ◌≡◌, refl, Bool, true, false, not, ◌&&◌, ◌||◌, Option, none, some, List, Bytes,
  ◌==◌, ltb, if◌then◌else◌, length, arith, Bool-cases, inl, inr, str_eq,
}
use tollgate.Policy.Pattern.{HostPattern}
use tollgate.Events.{EventLog}
use tollgate.Dns.Wire.{header_len, is_response, question_end}
use tollgate.Dns.Answer.{Message}
use tollgate.Dns.Upstream.{
  UpstreamAnswer, Checked, accepted, rejected, parse, cacheable, has_answers,
}
use tollgate.Dns.Local.{is_local_name}
use tollgate.Dns.Handler.{
  Environment, DnsHandler, UdpDatagram, ForwardJob, Outcome, local, is_tunnel_dns, is_blocked,
  type_svcb, type_https, LocalRecord, inc, set_network, set_blocklist, set_allowlist, set_events,
  local_answer,
}
use tollgate.Dns.Handler.Routes.{IsRouted, handle_packet-IsRouted}
use tollgate.Dns.Handler.Answering.{
  Query, count, from_cache, answer_query, answer_question, answer_decoded, answer_datagram,
  handle_packet, complete, complete_checked, complete_local, complete_local_checked,
}

module _ (env : Environment) where
  abbrev pub generation : DnsHandler env → ℕ
  generation h = h.local_state.generation

  if-generation :
      {A : Type 0} (n : ℕ) (b : Bool) (x y : DnsHandler env × A)
      → generation x.0 ≡ n
      → generation y.0 ≡ n
      → generation (if b then x else y).0 ≡ n
  if-generation n true x y t f = t
  if-generation n false x y t f = f

  from_cache-generation :
      (h : DnsHandler env) (q : Query) (found : Option (UpstreamAnswer × ℕ)) (miss : Outcome)
      → generation (from_cache env h q found miss).0 ≡ generation h
  from_cache-generation h q none miss = refl
  from_cache-generation h q (some found) miss = refl

  answer_query-generation :
      (h : DnsHandler env) (q : Query) (now unix_secs : ℕ)
      → generation (answer_query env h q now unix_secs).0 ≡ generation h
  unfolding answer_query
  answer_query-generation h q now unix_secs =
      if-generation (generation h) (q.message.qtype == type_svcb || q.message.qtype == type_https) _
        _ refl
        (if-generation (generation h) (is_local_name q.message.name) _ _
          (from_cache-generation _ q _ _)
          (if-generation (generation h) (is_blocked env h q.message.name) _ _ refl
            (from_cache-generation _ q _ _)))

  question-generation :
      (h : DnsHandler env) (d : UdpDatagram) (message : Message) (found : Option ℕ)
      (now unix_secs : ℕ)
      → generation (answer_question env h d message found now unix_secs).0 ≡ generation h
  question-generation h d message none now unix_secs = refl
  question-generation h d message (some e) now unix_secs = answer_query-generation h _ now unix_secs

  decoded-generation :
      (h : DnsHandler env) (d : UdpDatagram) (decoded : Option Message) (now unix_secs : ℕ)
      → generation (answer_decoded env h d decoded now unix_secs).0 ≡ generation h
  decoded-generation h d none now unix_secs = refl
  decoded-generation h d (some message) now unix_secs =
      if-generation (generation h) (not (message.op_code == 0)) _ _ refl
        (question-generation h d message (question_end d.payload) now unix_secs)

  datagram-generation :
      (h : DnsHandler env) (d : Option UdpDatagram) (now unix_secs : ℕ)
      → generation (answer_datagram env h d now unix_secs).0 ≡ generation h
  datagram-generation h none now unix_secs = refl
  datagram-generation h (some d) now unix_secs =
      if-generation (generation h)
        (not (is_tunnel_dns d.destination)
          || ltb (length d.payload) header_len
          || is_response d.payload)
        _ _ refl
        (decoded-generation (count env h (record h.stats { dns_queries = inc h.stats.dns_queries }))
          d (env.decode d.payload) now unix_secs)

  if_handler-generation :
      (n : ℕ) (b : Bool) (x y : DnsHandler env)
      → generation x ≡ n
      → generation y ≡ n
      → generation (if b then x else y) ≡ n
  if_handler-generation n true x y t f = t
  if_handler-generation n false x y t f = f

  complete-generation :
      (h : DnsHandler env) (j : ForwardJob) (answer : Option Bytes) (now : ℕ)
      → generation (complete env h j answer now).0 ≡ generation h
  unfolding complete
  complete-generation h j none now = refl
  complete-generation h j (some wire) now = go (parse env.decode wire j.key)
    where
      go : (c : Checked) → generation (complete_checked env h j c now).0 ≡ generation h
      go (rejected reason) = refl
      go (accepted u) = if_handler-generation (generation h) (cacheable u) _ _ refl refl

  complete_local-generation :
      (h : DnsHandler env) (j : ForwardJob) (records : Option (List LocalRecord)) (now : ℕ)
      → generation (complete_local env h j records now).0 ≡ generation h
  unfolding complete_local
  complete_local-generation h j none now = refl
  complete_local-generation h j (some records) now =
      go (parse env.decode (local_answer j.key records) j.key)
    where
      go : (c : Checked) → generation (complete_local_checked env h j c now).0 ≡ generation h
      go (rejected reason) = refl
      go (accepted u) =
          if_handler-generation (generation h)
            ((has_answers u && cacheable u) && h.local_state.generation == j.network) _ _ refl refl

  -- the calls that change the handler
  pub data Step (h : DnsHandler env) : DnsHandler env → Type 0 where
    packet :
        (bytes : Bytes) (now unix_secs : ℕ) → Step h (handle_packet env h bytes now unix_secs).0
    network : (name : Bytes) → Step h (set_network env h name)
    new_blocklist : (set : Option env.DomainSet) → Step h (set_blocklist env h set)
    new_allowlist : (patterns : List HostPattern) → Step h (set_allowlist env h patterns)
    new_events : (events : Option EventLog) → Step h (set_events env h events)
    answered :
        (j : ForwardJob) (answer : Option Bytes) (now : ℕ) → Step h (complete env h j answer now).0
    looked_up :
        (j : ForwardJob) (records : Option (List LocalRecord)) (now : ℕ)
        → Step h (complete_local env h j records now).0

  pub data Steps (h : DnsHandler env) : DnsHandler env → Type 0 where
    here : Steps h h
    then_step :
        (h' : DnsHandler env) {h'' : DnsHandler env} → Steps h h' → Step h' h'' → Steps h h''

  Step-generation :
      (h : DnsHandler env) {h' : DnsHandler env} → Step h h' → generation h ≤ generation h'
  unfolding handle_packet set_network
  Step-generation h (packet bytes now unix_secs) =
      omega (arith, datagram-generation h (env.parse_udp bytes) now unix_secs)
  Step-generation h (network name) = elim (Bool-cases (str_eq h.local_state.network name)) [
    | inl same ↦ rw same (omega arith)
    | inr other ↦ rw other (omega arith)
  ]
  Step-generation h (new_blocklist set) = omega arith
  Step-generation h (new_allowlist patterns) = omega arith
  Step-generation h (new_events events) = omega arith
  Step-generation h (answered j answer now) = omega (arith, complete-generation h j answer now)
  Step-generation h (looked_up j records now) =
      omega (arith, complete_local-generation h j records now)

  Steps-generation :
      (h : DnsHandler env) {h' : DnsHandler env} → Steps h h' → generation h ≤ generation h'
  Steps-generation h here = omega arith
  Steps-generation h (then_step k before s) =
      omega (arith, Steps-generation h before, Step-generation k s)

  set_network-generation :
      (h : DnsHandler env) (name : Bytes)
      → str_eq h.local_state.network name ≡ false
      → generation (set_network env h name) ≡ generation h + 1
  unfolding set_network
  set_network-generation h name other = rw other refl

  if_handler-same :
      (b : Bool) (x y : DnsHandler env)
      → b ≡ false
      → (if b then x else y).local_state ≡ y.local_state
  if_handler-same b x y e = rw e refl

  other_generation :
      (h : DnsHandler env) (j : ForwardJob) (records : Option (List LocalRecord)) (now : ℕ)
      → j.network < generation h
      → (complete_local env h j records now).0.local_state ≡ h.local_state
  unfolding complete_local
  other_generation h j none now before = refl
  other_generation h j (some records) now before =
      go (parse env.decode (local_answer j.key records) j.key)
    where
      go : (c : Checked) → (complete_local_checked env h j c now).0.local_state ≡ h.local_state
      go (rejected reason) = refl
      go (accepted u) =
          if_handler-same ((has_answers u && cacheable u) && h.local_state.generation == j.network)
            _ _ (ground (arith, before))

  asked_on :
      (h : DnsHandler env) (bytes : Bytes) (asked_at unix_secs : ℕ) (j : ForwardJob)
      → (handle_packet env h bytes asked_at unix_secs).1 ≡ local j
      → j.network ≡ generation h
  unfolding IsRouted
  asked_on h bytes asked_at unix_secs j asked =
      (rw asked at (handle_packet-IsRouted env h bytes asked_at unix_secs)).1

  -- A packet asks for a local name on one network, and then, after any further calls, the network
  -- changes to another one. Whenever the local resolver's answer arrives after that, again with
  -- any calls between, the local state stays as it is: the answer is not kept.
  pub stale_answer :
      (h left came : DnsHandler env) (bytes : Bytes) (asked_at unix_secs : ℕ) (j : ForwardJob)
      (name : Bytes) (records : Option (List LocalRecord)) (now : ℕ)
      → (handle_packet env h bytes asked_at unix_secs).1 ≡ local j
      → Steps (handle_packet env h bytes asked_at unix_secs).0 left
      → str_eq left.local_state.network name ≡ false
      → Steps (set_network env left name) came
      → (complete_local env came j records now).0.local_state ≡ came.local_state
  stale_answer h left came bytes asked_at unix_secs j name records now asked before other after =
      let unchanged = Step-generation h (Step.packet bytes asked_at unix_secs) in
      other_generation came j records now (
        omega (
          arith,
          asked_on h bytes asked_at unix_secs j asked,
          unchanged,
          Steps-generation (handle_packet env h bytes asked_at unix_secs).0 before,
          set_network-generation left name other,
          Steps-generation (set_network env left name) after,
        ))
