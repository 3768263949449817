-- ===== src/Dns/Cache.antt =====
-- The answer cache of core/crates/dns/src/cache.rs. The `lru` crate's map is a parameter.
pub mod Aging
pub mod Sequences
use tollgate.Common.{
  ℕ, ◌+◌, ◌-◌, ◌%◌, ◌≡◌, ◌≢◌, ◌⊎◌, Option, none, some, leb, if◌then◌else◌, Bytes, max, u32_max,
}
use tollgate.Dns.Answer.{clamp}
use tollgate.Dns.Upstream.{UpstreamAnswer, min_ttl}

abbrev pub cache_capacity : ℕ
cache_capacity = 2000

abbrev pub min_cache_ttl : ℕ
min_cache_ttl = 10

abbrev pub max_cache_ttl : ℕ
max_cache_ttl = 3600

pub record Entry : Type 0 where
  pub answer : UpstreamAnswer
  pub stored_at : ℕ
  pub lifetime : ℕ

-- `LruCache` as it is used here: `get` makes the entry the most recently used one
pub record LruCache : Type 1 where
  pub Map : Type 0
  pub new : ℕ → Map
  pub peek : Map → Bytes → Option Entry
  pub get : Map → Bytes → Map × Option Entry
  pub put : Map → Bytes → Entry → Map
  pub pop : Map → Bytes → Map

-- What the crate documents: `get` finds what `peek` sees and drops nothing, an entry that was put is
-- there, one that was popped is not, and other entries stay as they are, unless a `put` evicts them.
pub record IsLru (lru : LruCache) : Type 0 where
  pub get-peek : (m : lru.Map) (key : Bytes) → (lru.get m key).1 ≡ lru.peek m key
  pub peek-put : (m : lru.Map) (key : Bytes) (e : Entry) → lru.peek (lru.put m key e) key ≡ some e
  pub peek-get :
      (m : lru.Map) (key other : Bytes) → lru.peek (lru.get m key).0 other ≡ lru.peek m other
  pub peek-put_other :
      (m : lru.Map) (key other : Bytes) (e : Entry)
      → key ≢ other
      → (lru.peek (lru.put m key e) other ≡ lru.peek m other)
        ⊎ (lru.peek (lru.put m key e) other ≡ none)
  pub peek-pop_other :
      (m : lru.Map) (key other : Bytes)
      → key ≢ other
      → lru.peek (lru.pop m key) other ≡ lru.peek m other
  pub peek-pop : (m : lru.Map) (key : Bytes) → lru.peek (lru.pop m key) key ≡ none

module _ (lru : LruCache) where
  pub record AnswerCache : Type 0 where
    pub entries : lru.Map
    pub max_ttl : ℕ

  unfoldable pub with_limits : ℕ → ℕ → AnswerCache
  with_limits capacity max_ttl = record {
    entries = lru.new (max capacity 1);
    max_ttl = max max_ttl min_cache_ttl;
  }

  unfoldable pub insert : AnswerCache → Bytes → UpstreamAnswer → ℕ → AnswerCache
  unfolding min_ttl
  insert c key answer now =
      let lifetime = clamp (min_ttl answer) min_cache_ttl c.max_ttl in
      let entry : Entry = record { answer = answer; stored_at = now; lifetime = lifetime } in
      record c { entries = lru.put c.entries key entry }

  -- `elapsed as u32`
  abbrev pub found : Option Entry → ℕ → Option (UpstreamAnswer × ℕ)
  found none elapsed = none
  found (some entry) elapsed = some (entry.answer, elapsed % (u32_max + 1))

  abbrev pub get_peeked :
      AnswerCache → Bytes → ℕ → Option Entry → AnswerCache × Option (UpstreamAnswer × ℕ)
  get_peeked c key now none = (c, none)
  get_peeked c key now (some entry) =
      let elapsed = now - entry.stored_at in
      let (entries, entry') = lru.get c.entries key in
      if leb entry.lifetime elapsed
      then (record c { entries = lru.pop c.entries key }, none)
      else (record c { entries = entries }, found entry' elapsed)

  unfoldable pub get : AnswerCache → Bytes → ℕ → AnswerCache × Option (UpstreamAnswer × ℕ)
  get c key now = get_peeked c key now (lru.peek c.entries key)
