-- ===== src/Dns/Cache/Aging.antt =====
-- How long core/crates/dns/src/cache.rs keeps an answer.
use tollgate.Common.{
  ℕ, ◌+◌, ◌-◌, ◌≤◌, ◌≡◌, Bool, true, false, Option, none, some, ltb, leb, not, ◌&&◌, ◌||◌, all,
  is_empty, min, unwrap_or, List, [], ◌∷◌, ap, if◌then◌else◌, Bytes, u32_max, arith, refl,
  Bool-cases, inl, inr, ◌∙◌, ◌%◌, ltb→lt, lt→leb, le→leb,
}
use tollgate.Dns.Answer.{clamp}
use tollgate.Dns.Upstream.{UpstreamAnswer, min_ttl, least_ttl, ttl_at}
use tollgate.Dns.Cache.{LruCache, IsLru, AnswerCache, Entry, get, min_cache_ttl}

-- the answer with its age
abbrev pub hit : UpstreamAnswer → ℕ → Option (UpstreamAnswer × ℕ)
hit a elapsed = some (a, elapsed)

result_if :
    {A B : Type 0} (b : Bool) (x y : A) (o u : B)
    → (if◌then◌else◌ {A = A × B} b (x, o) (y, u)).1 ≡ (if b then o else u)
result_if true x y o u = refl
result_if false x y o u = refl

-- Whether an answer may be given out after so many seconds: less than 10, or less than the cache's
-- longest time and than each of the TTLs, of which there must be one.
abbrev pub is_fresh : UpstreamAnswer → ℕ → ℕ → Bool
is_fresh a max_ttl elapsed =
    ltb elapsed min_cache_ttl
    || (ltb elapsed max_ttl
        && (not (is_empty a.ttl_offsets)
            && all (λ at. ltb elapsed (ttl_at a.bytes at)) a.ttl_offsets))

-- the least of some TTLs exceeds a time exactly when each of them does
least_ttl-all :
    (bytes : Bytes) (elapsed at : ℕ) (rest : List ℕ)
    → (least : ℕ) × (least_ttl bytes (at ∷ rest) ≡ some least)
      × (ltb elapsed least ≡ all (λ t. ltb elapsed (ttl_at bytes t)) (at ∷ rest))
least_ttl-all bytes elapsed at [] = (ttl_at bytes at, refl, ground arith)
least_ttl-all bytes elapsed at (next ∷ rest) =
    let (least, found, e) = least_ttl-all bytes elapsed next rest in
    (min (ttl_at bytes at) least, rw found refl, ground (arith, e))

clamped :
    (elapsed n max_ttl : ℕ)
    → min_cache_ttl ≤ max_ttl
    → ltb elapsed (clamp n min_cache_ttl max_ttl)
      ≡ (ltb elapsed min_cache_ttl || (ltb elapsed max_ttl && ltb elapsed n))
clamped elapsed n max_ttl low = ground (arith, low)

ttls-above :
    (bytes : Bytes) (elapsed : ℕ) (offsets : List ℕ)
    → ltb elapsed (unwrap_or (least_ttl bytes offsets) 0)
      ≡ (not (is_empty offsets) && all (λ at. ltb elapsed (ttl_at bytes at)) offsets)
ttls-above bytes elapsed [] = ground arith
ttls-above bytes elapsed (at ∷ rest) =
    let (least, found, e) = least_ttl-all bytes elapsed at rest in rw found e

min_ttl-least : (a : UpstreamAnswer) → min_ttl a ≡ unwrap_or (least_ttl a.bytes a.ttl_offsets) 0
unfolding min_ttl
min_ttl-least a = ground arith

pub lifetime-is_fresh :
    (a : UpstreamAnswer) (max_ttl elapsed : ℕ)
    → min_cache_ttl ≤ max_ttl
    → ltb elapsed (clamp (min_ttl a) min_cache_ttl max_ttl) ≡ is_fresh a max_ttl elapsed
lifetime-is_fresh a max_ttl elapsed low = rw (min_ttl-least a) (
    clamped elapsed (unwrap_or (least_ttl a.bytes a.ttl_offsets) 0) max_ttl low
    ∙ ap (λ b. ltb elapsed min_cache_ttl || (ltb elapsed max_ttl && b))
        (ttls-above a.bytes elapsed a.ttl_offsets))

-- the entry of an answer that was put in
abbrev pub entry_of : ℕ → UpstreamAnswer → ℕ → Entry
entry_of max_ttl a now = record {
  answer = a;
  stored_at = now;
  lifetime = clamp (min_ttl a) min_cache_ttl max_ttl;
}

module _ (lru : LruCache) (is_lru : IsLru lru) where
  aged :
      (c : AnswerCache lru) (key : Bytes) (later : ℕ) (e : Entry)
      → lru.peek c.entries key ≡ some e
      → (get lru c key later).1 ≡ (
          if leb e.lifetime (later - e.stored_at)
          then none
          else hit e.answer ((later - e.stored_at) % (u32_max + 1)))
  unfolding get
  aged c key later e h =
      rw (h, is_lru.get-peek c.entries key, h)
        (result_if (leb e.lifetime (later - e.stored_at)) _ _ _ _)

  elapsed-cut :
      (a : UpstreamAnswer) (elapsed lifetime : ℕ)
      → lifetime ≤ u32_max
      → (if leb lifetime elapsed then none else hit a (elapsed % (u32_max + 1)))
        ≡ (if ltb elapsed lifetime then hit a elapsed else none)
  elapsed-cut a elapsed lifetime small = elim (Bool-cases (ltb elapsed lifetime)) [
    | inl fresh ↦
        (let same : elapsed % (u32_max + 1) ≡ elapsed =
            omega (arith, small, ltb→lt elapsed lifetime fresh) in
          rw (fresh, same, lt→leb lifetime elapsed (ltb→lt elapsed lifetime fresh)) refl)
    | inr old ↦ rw (old, le→leb lifetime elapsed (ground (arith, old))) refl
  ]

  -- an entry is given out exactly while it is fresh
  pub get-entry :
      (c : AnswerCache lru) (key : Bytes) (a : UpstreamAnswer) (max_ttl now later : ℕ)
      → min_cache_ttl ≤ max_ttl
      → max_ttl ≤ u32_max
      → lru.peek c.entries key ≡ some (entry_of max_ttl a now)
      → (get lru c key later).1
        ≡ (if is_fresh a max_ttl (later - now) then hit a (later - now) else none)
  get-entry c key a max_ttl now later low high h =
      aged c key later (entry_of max_ttl a now) h
      ∙ (elapsed-cut a (later - now) (clamp (min_ttl a) min_cache_ttl max_ttl)
            (ground (arith, low, high))
          ∙ ap (λ b. if b then hit a (later - now) else none)
              (lifetime-is_fresh a max_ttl (later - now) low))
