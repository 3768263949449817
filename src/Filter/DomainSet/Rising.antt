-- ===== src/Filter/DomainSet/Rising.antt =====
-- The hashes that `sorted_hashes` of core/crates/filter/src/domain_set.rs makes.
use tollgate.Common.{
  ℕ, ◌^◌, ◌≤◌, ◌<◌, ◌≡◌, refl, ◌∙◌, sym, ap, subst, Bool, true, false, ◌||◌, List, [], ◌∷◌, ◌++◌,
  map, arith, leb, ◌==◌, ==_iff, if◌then◌else◌, any, any-append, All, All-append, Bool-cases, inl,
  inr, Bytes, to_ascii_lowercase,
}
use tollgate.Common.Sorting.{insert_sorted, sort, any-sort, All-sort}
use tollgate.Common.BinarySearch.{Rises}
use tollgate.Filter.Wildcard.{next_is}
use tollgate.Filter.DomainSet.Hash.{
  fnv_step, fnv1a64_from, fnv1a64, exact_hash, checksum_from, checksum,
}
use tollgate.Filter.DomainSet.Encode.{dedup, sorted_hashes}
use tollgate.Filter.DomainSet.Load.{is_sorted}

-- each number is at most the one after it
abbrev Climbs : List ℕ → Type 0
Climbs [] = Unit
Climbs (a ∷ []) = Unit
Climbs (a ∷ b ∷ l) = (a ≤ b) × Climbs (b ∷ l)

insert_after : (b a : ℕ) (l : List ℕ) → b ≤ a → Climbs (b ∷ l) → Climbs (b ∷ insert_sorted leb a l)
unfolding insert_sorted
insert_after b a [] h c = (h, tt)
insert_after b a (d ∷ l) h c = elim (Bool-cases (leb a d)) [
  | inl e ↦ rw e (h, (ground arith, c.1))
  | inr e ↦ rw e (c.0, insert_after d a l (ground arith) c.1)
]

insert_sorted-Climbs : (a : ℕ) (l : List ℕ) → Climbs l → Climbs (insert_sorted leb a l)
unfolding insert_sorted
insert_sorted-Climbs a [] c = tt
insert_sorted-Climbs a (b ∷ l) c = elim (Bool-cases (leb a b)) [
  | inl e ↦ rw e (ground arith, c)
  | inr e ↦ rw e (insert_after b a l (ground arith) c)
]

sort-Climbs : (l : List ℕ) → Climbs (sort leb l)
unfolding sort
sort-Climbs [] = tt
sort-Climbs (a ∷ l) = insert_sorted-Climbs a (sort leb l) (sort-Climbs l)

dedup_from :
    (a : ℕ) (l : List ℕ) → Climbs (a ∷ l) → (t : List ℕ) × (dedup (a ∷ l) ≡ a ∷ t) × Rises (a ∷ t)
unfolding dedup
dedup_from a [] c = ([], refl, tt)
dedup_from a (b ∷ l) c =
    let (t, e, r) = dedup_from b l c.1 in
    elim (Bool-cases (b == a)) [
      | inl s ↦
          let same : b ≡ a = (==_iff b a).0 s in
          (t, rw (e, s) (ap (λ x. x ∷ t) same), subst (λ x. Rises (x ∷ t)) same r)
      | inr s ↦ (b ∷ t, rw (e, s) refl, (ground (arith, c.0), r))
    ]

dedup-Rises : (l : List ℕ) → Climbs l → Rises (dedup l)
unfolding dedup
dedup-Rises [] c = tt
dedup-Rises (a ∷ l) c = let (t, e, r) = dedup_from a l c in subst Rises (sym e) r

any-dedup : (h : ℕ) (l : List ℕ) → any (λ x. x == h) (dedup l) ≡ any (λ x. x == h) l
unfolding dedup
any-dedup h [] = refl
any-dedup h (a ∷ []) = refl
any-dedup h (a ∷ b ∷ l) = ground (arith, any-dedup h (b ∷ l))

any-map :
    {A : Type 0} (f : A → ℕ) (h : ℕ) (l : List A)
    → any (λ x. x == h) (map f l) ≡ any (λ a. f a == h) l
any-map f h [] = refl
any-map f h (a ∷ l) = ap (λ b. f a == h || b) (any-map f h l)

-- the sections rise, so that a search finds what is there
pub sorted_hashes-Rises : (names exact : List Bytes) → Rises (sorted_hashes names exact)
unfolding sorted_hashes
sorted_hashes-Rises names exact =
    let l = map fnv1a64 names ++ map exact_hash exact in dedup-Rises (sort leb l) (sort-Climbs l)

pub any-sorted_hashes :
    (names exact : List Bytes) (h : ℕ)
    → any (λ x. x == h) (sorted_hashes names exact)
      ≡ (any (λ n. fnv1a64 n == h) names || any (λ n. exact_hash n == h) exact)
unfolding sorted_hashes
any-sorted_hashes names exact h =
    let l = map fnv1a64 names ++ map exact_hash exact in
    any-dedup h (sort leb l)
    ∙ (any-sort (λ x. x == h) leb l
        ∙ (any-append (λ x. x == h) (map fnv1a64 names) (map exact_hash exact)
            ∙ (ap (λ b. b || any (λ x. x == h) (map exact_hash exact)) (any-map fnv1a64 h names)
                ∙ ap (λ b. any (λ n. fnv1a64 n == h) names || b) (any-map exact_hash h exact))))

-- a hash, a checksum and what is stored fit in 64 bits
abbrev pub IsU64 : ℕ → Type 0
IsU64 n = n < 2 ^ 64

fnv1a64_from-IsU64 : (hash : ℕ) (s : Bytes) → IsU64 hash → IsU64 (fnv1a64_from hash s)
unfolding fnv1a64_from
fnv1a64_from-IsU64 hash [] h = h
fnv1a64_from-IsU64 hash (b ∷ s) h =
    fnv1a64_from-IsU64 (fnv_step hash (to_ascii_lowercase b)) s (omega arith)

checksum_from-IsU64 : (hash : ℕ) (s : Bytes) → IsU64 hash → IsU64 (checksum_from hash s)
unfolding checksum_from
checksum_from-IsU64 hash [] h = h
checksum_from-IsU64 hash (b ∷ s) h = checksum_from-IsU64 (fnv_step hash b) s (omega arith)

pub checksum-IsU64 : (s : Bytes) → IsU64 (checksum s)
unfolding checksum
checksum-IsU64 s = checksum_from-IsU64 _ s (omega arith)

fnv1a64-IsU64 : (s : Bytes) → IsU64 (fnv1a64 s)
unfolding fnv1a64
fnv1a64-IsU64 s = fnv1a64_from-IsU64 _ s (omega arith)

exact_hash-IsU64 : (s : Bytes) → IsU64 (exact_hash s)
unfolding exact_hash
exact_hash-IsU64 s = fnv1a64_from-IsU64 _ s (fnv1a64-IsU64 (b'|' ∷ []))

All-map : (f : Bytes → ℕ) (l : List Bytes) → ((s : Bytes) → IsU64 (f s)) → All IsU64 (map f l)
All-map f [] h = tt
All-map f (s ∷ l) h = (h s, All-map f l h)

All-dedup : (l : List ℕ) → All IsU64 l → All IsU64 (dedup l)
unfolding dedup
All-dedup [] h = tt
All-dedup (a ∷ l) h = go (next_is l a) (All-dedup l h.1)
  where
    go : (b : Bool) → All IsU64 (dedup l) → All IsU64 (if b then dedup l else a ∷ dedup l)
    go true k = k
    go false k = (h.0, k)

pub sorted_hashes-IsU64 : (names exact : List Bytes) → All IsU64 (sorted_hashes names exact)
unfolding sorted_hashes
sorted_hashes-IsU64 names exact = All-dedup _ (
    All-sort IsU64 leb _ (
      All-append IsU64 (map fnv1a64 names) (map exact_hash exact)
        (All-map fnv1a64 names fnv1a64-IsU64) (All-map exact_hash exact exact_hash-IsU64)))

pub is_sorted-Rises : (l : List ℕ) → Rises l → is_sorted l ≡ true
unfolding is_sorted
is_sorted-Rises [] r = refl
is_sorted-Rises (a ∷ []) r = refl
is_sorted-Rises (a ∷ b ∷ l) r = ground (arith, r.0, is_sorted-Rises (b ∷ l) r.1)

pub Rises-is_sorted : (l : List ℕ) → is_sorted l ≡ true → Rises l
unfolding is_sorted
Rises-is_sorted [] h = tt
Rises-is_sorted (a ∷ []) h = tt
Rises-is_sorted (a ∷ b ∷ l) h = (ground arith, Rises-is_sorted (b ∷ l) (ground arith))
