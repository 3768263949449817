-- ===== src/Lib.antt =====
-- Tollgate's decisions: which connections may be intercepted, which names are blocked, and what
-- the DNS path answers.
--
-- The program is a tunnel for iOS. DNS queries arrive as packets and are answered, blocked or
-- forwarded by the dns crate; HTTPS connections reach the mitm crate's proxy, which asks the policy
-- crate whether to intercept and tells it how clients and servers react; the filter crate compiles
-- block lists. The crates share the counters and the blocked log of the common crate.
--
-- Which file models which part (paths below core/crates):
--
-- - Policy/Pattern: `HostPattern` of policy/src/pattern.rs (`parse`, `display` for `Display`,
--   `matches`). A text is a list of code points, a stored name a list of bytes.
-- - Policy/PatternSet, Times, PerSecond, Learning: the data of policy/src/policy.rs with their
--   methods. A hash map is a list of entries without double keys, a hash set a list of names.
-- - Policy/Refusals: the bodies of `record_client_rejection` (`client_rejection`),
--   `learn_upstream_untrusted` (`upstream_untrusted`), `record_silent_refusal` (`silent_refusal`),
--   `record_intercepted_handshake` (`intercepted_handshake`), `on_network_change`
--   (`network_change`) and one round of `forget_pins` (`forget_pin`), for a key that is not empty.
-- - Policy/Decisions: `Policy::new`, `classify` and the methods themselves, under their names. Runs
--   has the calls of a policy as data, so that a list of them is a run in any order.
-- - Filter/Wildcard: `glob_matches`, `is_valid_pattern` and `Pattern` of filter/src/wildcard.rs.
-- - Filter/Trie, Filter/PatternSet: `Trie` and `PatternSet` of the same file (`any_id` for
--   `Trie::any`, `matches_any` for `PatternSet::matches`). A range of the sorted entries is the list
--   of the entries in it.
-- - Filter/Rules: filter/src/domain_rules.rs. Names has the forms of names and patterns, Lines
--   `parse_adblock_line`, Builder the methods of `Builder` that add a line or a list, Limits
--   `limit_patterns`, `finish` and `DomainRules`.
-- - Filter/DomainSet: filter/src/domain_set.rs. Hash has the hashes and integers as bytes, Encode
--   `DomainRules::encode`, Load `DomainSet::new` with `parse_patterns`, Lookup `is_blocked`. A name is
--   the list of its bytes, which for names from lists, all ASCII, is the list of its characters.
-- - Filter/Exempt: `Exemption` of filter/src/exempt.rs.
-- - Filter/RequestType: filter/src/request_type.rs.
-- - Mitm/Throttle: `LogThrottle` of mitm/src/throttle.rs.
-- - Mitm/Flight: `Records` and `FlightWatch` of mitm/src/flight.rs. The header array and its length
--   are the list of the bytes that are there.
-- - Events: the blocked log of common/src/events.rs.
-- - Dns/Wire: dns/src/wire.rs. Dns/Answer: `Requester` of dns/src/answer.rs. Dns/Upstream: its
--   `UpstreamAnswer`. Dns/Cache, Dns/Local, Dns/Handler: the files of those names in dns/src;
--   Dns/Cache/Sequences has the calls of the cache as data,
--   Dns/Handler/Answering has `handle_packet`, `complete` and `complete_local`.
-- - Dns/Doh: upstreams, `order` and `resolve` of dns/src/doh.rs, with `Reading` of
--   common/src/clock.rs. Dns/Doh/Race has the steps of `mark_down`, `mark_up` and
--   `reset_connections` on the atomics of one upstream: a step relation, in which the calls of many
--   threads mix, since the atomics are sequentially consistent.
-- - Common: what the parts share: tests on numbers, lists, bytes, characters, hash maps.
--
-- A method that changes an object takes its state and returns the new one; a lock is held for a
-- whole step, so a sequence of calls is a sequence of steps. Log lines are left out. Times are
-- arguments, also where the source reads a clock inside the call. `u64` and `u32` are natural
-- numbers whose saturating additions are written out, and the products of the hash wrap; the one
-- addition of policy.rs that may overflow, `now + UPSTREAM_SUPPRESS_SECS`,
-- wraps, as it does where overflow is not checked. The number of the network in the DNS handler and
-- the epoch of a DoH upstream, counted up by one in a `u64`, have no bound here.
--
-- Fuel: the loop of `skip_name` has one turn more than the message has bytes, since each turn but
-- the last passes a byte. The loop of `glob_matches` has as many turns as the pattern's length times
-- the text's, and a few: each time it goes back, the text that the last `*` takes ends one further
-- on, and until it goes back again it passes the pattern at most once. The loop of `Trie::new` has
-- two turns more than the keys have bytes, since every node but the root ends a prefix of a key. The
-- loop of `Records::written` has as many turns as there are bytes, and those on messages and
-- extensions in Mitm/Flight one more, since each turn takes a byte or more.
--
-- Parameters, since their code is not in the repository: serde's JSON decoder, hickory's message
-- decoder, etherparse's packets and the map of the lru crate (with the laws that it documents). The
-- table of bundled passthrough hosts is a parameter of the policy, and the lookup in domains.bin one of
-- the DNS handler.
--
-- Not modelled: the rest of the filter crate (mapping domains.bin into memory, the adblock engine),
-- the attempts of a DoH query, name lookups for the proxy, the rest of the proxy, the facade for
-- Swift and the tools, which are mostly asynchronous I/O around the parts above.
pub mod Common
pub mod Policy
pub mod Filter
pub mod Events
pub mod Dns
pub mod Mitm
