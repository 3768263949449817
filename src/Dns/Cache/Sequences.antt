-- ===== src/Dns/Cache/Sequences.antt =====
-- Sequences of calls of the answer cache of core/crates/dns/src/cache.rs.
use tollgate.Common.{
  ℕ, ◌-◌, ◌≤◌, ◌≡◌, ◌≢◌, ◌∙◌, ◌⊎◌, refl, true, sym, inl, inr, Option, none, some, List, [], ◌∷◌,
  Bytes, u32_max, arith, leb, if◌then◌else◌, Bool-cases, str_eq, str_eq_iff,
}
use tollgate.Dns.Upstream.{UpstreamAnswer}
use tollgate.Dns.Cache.{LruCache, IsLru, AnswerCache, Entry, insert, get, get_peeked, min_cache_ttl}
use tollgate.Dns.Cache.Aging.{hit, is_fresh, entry_of, get-entry, lifetime-is_fresh}

-- A call of the cache, with its time.
pub data CacheCall : Type 0 where
  inserted : Bytes → UpstreamAnswer → ℕ → CacheCall
  looked_up : Bytes → ℕ → CacheCall

-- No call puts in an answer for the key.
abbrev pub NoneFor : Bytes → List CacheCall → Type 0
NoneFor key [] = Unit
NoneFor key (inserted k a at ∷ calls) = (k ≢ key) × NoneFor key calls
NoneFor key (looked_up k at ∷ calls) = NoneFor key calls

-- The calls only look up, and the key only while its answer is fresh.
abbrev pub Looks : Bytes → UpstreamAnswer → ℕ → ℕ → List CacheCall → Type 0
Looks key a max_ttl now [] = Unit
Looks key a max_ttl now (inserted k b at ∷ calls) = ⊥
Looks key a max_ttl now (looked_up k at ∷ calls) =
    ((k ≢ key) ⊎ (is_fresh a max_ttl (at - now) ≡ true)) × Looks key a max_ttl now calls

module _ (lru : LruCache) where
  unfoldable pub run : AnswerCache lru → List CacheCall → AnswerCache lru
  run c [] = c
  run c (inserted key a at ∷ calls) = run (insert lru c key a at) calls
  run c (looked_up key at ∷ calls) = run (get lru c key at).0 calls

module _ (lru : LruCache) (is_lru : IsLru lru) where
  -- the cache has the entry for the key, or none
  abbrev Has : Bytes → Entry → AnswerCache lru → Type 0
  Has key e c = (lru.peek c.entries key ≡ some e) ⊎ (lru.peek c.entries key ≡ none)

  kept :
      (key : Bytes) (e : Entry) (c c' : AnswerCache lru)
      → Has key e c
      → (lru.peek c'.entries key ≡ lru.peek c.entries key) ⊎ (lru.peek c'.entries key ≡ none)
      → Has key e c'
  kept key e c c' (inl found) (inl same) = inl (same ∙ found)
  kept key e c c' (inr gone) (inl same) = inr (same ∙ gone)
  kept key e c c' h (inr gone) = inr gone

  put-Has :
      (c : AnswerCache lru) (key k : Bytes) (e : Entry) (a : UpstreamAnswer) (at : ℕ)
      → k ≢ key
      → Has key e c
      → Has key e (insert lru c k a at)
  unfolding insert
  put-Has c key k e a at other h =
      kept key e c (insert lru c k a at) h
        (is_lru.peek-put_other c.entries k key (entry_of c.max_ttl a at) other)

  -- an entry that a lookup pops is gone, and the others stay
  popped :
      (m : lru.Map) (key k : Bytes)
      → (lru.peek (lru.pop m k) key ≡ lru.peek m key) ⊎ (lru.peek (lru.pop m k) key ≡ none)
  popped m key k = elim (Bool-cases (str_eq k key)) [
    | inl same ↦ inr (rw (← (str_eq_iff k key).0 same) (is_lru.peek-pop m k))
    | inr other ↦
        inl (is_lru.peek-pop_other m k key (λ e. ground (arith, other, str_eq_iff k key, e)))
  ]

  get-Has :
      (c : AnswerCache lru) (key k : Bytes) (e : Entry) (at : ℕ)
      → Has key e c
      → Has key e (get lru c k at).0
  unfolding get
  get-Has c key k e at h = go (lru.peek c.entries k)
    where
      go : (o : Option Entry) → Has key e (get_peeked lru c k at o).0
      go none = h
      go (some e') = elim (Bool-cases (leb e'.lifetime (at - e'.stored_at))) [
        | inl old ↦
            rw old
              (kept key e c (record c { entries = lru.pop c.entries k }) h (popped c.entries key k))
        | inr fresh ↦ rw fresh (
            kept key e c (record c { entries = (lru.get c.entries k).0 }) h
              (inl (is_lru.peek-get c.entries k key)))
      ]

  run-Has :
      (calls : List CacheCall) (c : AnswerCache lru) (key : Bytes) (e : Entry)
      → NoneFor key calls
      → Has key e c
      → Has key e (run lru c calls)
  unfolding run
  run-Has [] c key e free h = h
  run-Has (inserted k a at ∷ calls) c key e free h =
      run-Has calls (insert lru c k a at) key e free.1 (put-Has c key k e a at free.0 h)
  run-Has (looked_up k at ∷ calls) c key e free h =
      run-Has calls (get lru c k at).0 key e free (get-Has c key k e at h)

  not_found :
      (c : AnswerCache lru) (key : Bytes) (later : ℕ)
      → lru.peek c.entries key ≡ none
      → (get lru c key later).1 ≡ none
  unfolding get
  not_found c key later h = rw h refl

  -- a lookup leaves the entry while it is fresh
  look-peek :
      (c : AnswerCache lru) (key k : Bytes) (a : UpstreamAnswer) (max_ttl now at : ℕ)
      → min_cache_ttl ≤ max_ttl
      → (k ≢ key) ⊎ (is_fresh a max_ttl (at - now) ≡ true)
      → lru.peek c.entries key ≡ some (entry_of max_ttl a now)
      → lru.peek (get lru c k at).0.entries key ≡ some (entry_of max_ttl a now)
  unfolding get
  look-peek c key k a max_ttl now at low free h = go (lru.peek c.entries k) refl
    where
      not_old :
          (e' : Entry)
          → lru.peek c.entries k ≡ some e'
          → leb e'.lifetime (at - e'.stored_at) ≡ true
          → k ≢ key
      not_old e' q old same =
          let here : some e' ≡ some (entry_of max_ttl a now) = sym q ∙ rw same h in
          elim free [
            | inl other ↦ other same
            | inr fresh ↦
                ground (arith, here, old, fresh, lifetime-is_fresh a max_ttl (at - now) low)
          ]

      go :
          (o : Option Entry)
          → lru.peek c.entries k ≡ o
          → lru.peek (get_peeked lru c k at o).0.entries key ≡ some (entry_of max_ttl a now)
      go none q = h
      go (some e') q = elim (Bool-cases (leb e'.lifetime (at - e'.stored_at))) [
        | inl old ↦ rw old (is_lru.peek-pop_other c.entries k key (not_old e' q old) ∙ h)
        | inr fresh ↦ rw fresh (is_lru.peek-get c.entries k key ∙ h)
      ]

  look_all-peek :
      (calls : List CacheCall) (c : AnswerCache lru) (key : Bytes) (a : UpstreamAnswer)
      (max_ttl now : ℕ)
      → min_cache_ttl ≤ max_ttl
      → Looks key a max_ttl now calls
      → lru.peek c.entries key ≡ some (entry_of max_ttl a now)
      → lru.peek (run lru c calls).entries key ≡ some (entry_of max_ttl a now)
  unfolding run
  look_all-peek [] c key a max_ttl now low free h = h
  look_all-peek (inserted k b at ∷ calls) c key a max_ttl now low free h = absurd free
  look_all-peek (looked_up k at ∷ calls) c key a max_ttl now low free h =
      look_all-peek calls (get lru c k at).0 key a max_ttl now low free.1
        (look-peek c key k a max_ttl now at low free.0 h)

  insert-peek :
      (c : AnswerCache lru) (key : Bytes) (a : UpstreamAnswer) (now : ℕ)
      → lru.peek (insert lru c key a now).entries key ≡ some (entry_of c.max_ttl a now)
  unfolding insert
  insert-peek c key a now = is_lru.peek-put c.entries key (entry_of c.max_ttl a now)

  -- Over a map with the laws that the lru crate documents, in a cache whose longest time is 10 seconds
  -- or more and fits in 32 bits: an answer that was put in is found, with the seconds since then, while
  -- less than 10 seconds have passed, or less than the cache's longest time and than each of its TTLs,
  -- of which it has one or more; after that it is not found. This holds after any lookups in between
  -- that look up its key only while it may be found. After any calls in between at all, as long as none
  -- puts in another answer for the key, a lookup finds that answer, while it may, or none, as it may
  -- have been evicted.
  pub insert-get :
      (c : AnswerCache lru) (key : Bytes) (a : UpstreamAnswer) (now later : ℕ)
      (looks between : List CacheCall)
      → min_cache_ttl ≤ c.max_ttl
      → c.max_ttl ≤ u32_max
      → Looks key a c.max_ttl now looks
      → NoneFor key between
      → ((get lru (run lru (insert lru c key a now) looks) key later).1
          ≡ (if is_fresh a c.max_ttl (later - now) then hit a (later - now) else none))
        × (((get lru (run lru (insert lru c key a now) between) key later).1
              ≡ (if is_fresh a c.max_ttl (later - now) then hit a (later - now) else none))
            ⊎ ((get lru (run lru (insert lru c key a now) between) key later).1 ≡ none))
  insert-get c key a now later looks between low high looking free =
      let c' = insert lru c key a now in
      let found = insert-peek c key a now in
      (
        get-entry lru is_lru (run lru c' looks) key a c.max_ttl now later low high
            (look_all-peek looks c' key a c.max_ttl now low looking found),
        elim (run-Has between c' key (entry_of c.max_ttl a now) free (inl found)) [
          | inl still ↦
              inl
                (get-entry lru is_lru (run lru c' between) key a c.max_ttl now later low high still)
          | inr gone ↦ inr (not_found (run lru c' between) key later gone)
        ],
      )
