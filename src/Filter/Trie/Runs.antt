-- ===== src/Filter/Trie/Runs.antt =====
-- The sorted runs of entries that the nodes of a `Trie` stand for (core/crates/filter/src/wildcard.rs).
use tollgate.Common.{
  ℕ, zero, suc, ◌≤◌, ◌<◌, ◌⊎◌, inl, inr, ◌≡◌, refl, true, false, List, [], ◌∷◌, arith, ◌==◌, ltb,
  ltb→lt, length, get_or, drop, All, Bytes, Bool-cases,
}
use tollgate.Common.Sorting.{bytes_le}
use tollgate.Filter.Trie.{Entry, ends_at, longer, byte_at, push_entry, groups}

-- what is left of a key below the path
abbrev pub below : ℕ → Entry → Bytes
below depth e = drop depth e.0

abbrev pub Ordered : ℕ → List Entry → Type 0
Ordered depth [] = Unit
Ordered depth (e ∷ []) = Unit
Ordered depth (e ∷ f ∷ run) =
    (bytes_le (below depth e) (below depth f) ≡ true) × Ordered depth (f ∷ run)

-- The entries of a run are sorted below the path, which none is shorter than.
pub record Good (run : List Entry) (depth : ℕ) : Type 0 where
  pub ordered : Ordered depth run
  pub long : All (λ e. depth ≤ length e.0) run

-- a key ends at the path or goes on
pub drop-cases :
    (k : Bytes) (d : ℕ)
    → d ≤ length k
    → ((length k ≡ d) × (drop d k ≡ []))
      ⊎ ((d < length k) × (drop d k ≡ get_or k d 0 ∷ drop (suc d) k))
drop-cases [] zero h = inl (refl, refl)
drop-cases [] (suc d) h = absurd (omega arith)
drop-cases (c ∷ k) zero h = inr (omega arith, refl)
drop-cases (c ∷ k) (suc d) h = elim (drop-cases k d (omega arith)) [
  | inl (e, f) ↦ inl (omega (arith, e), f)
  | inr (e, f) ↦ inr (omega (arith, e), f)
]

cons_le_cons :
    (a b : ℕ) (s t : Bytes)
    → bytes_le (a ∷ s) (b ∷ t) ≡ true
    → (a < b) ⊎ ((a ≡ b) × (bytes_le s t ≡ true))
unfolding bytes_le
cons_le_cons a b s t h = elim (Bool-cases (ltb a b)) [
  | inl e ↦ inl (ltb→lt a b e)
  | inr e ↦ inr (ground arith, ground arith)
]

not_cons_le_nil : (a : ℕ) (s : Bytes) → bytes_le (a ∷ s) [] ≡ false
unfolding bytes_le
not_cons_le_nil a s = refl

-- what two neighbours have in order, where the first goes on
pub neighbours :
    (e f : Entry) (d : ℕ)
    → d ≤ length f.0
    → d < length e.0
    → bytes_le (below d e) (below d f) ≡ true
    → (d < length f.0)
      × ((byte_at d e < byte_at d f)
          ⊎ ((byte_at d e ≡ byte_at d f) × (bytes_le (below (suc d) e) (below (suc d) f) ≡ true)))
neighbours e f d hf he h = elim (drop-cases e.0 d (omega arith)) [
  | inl (same, _) ↦ absurd (omega arith)
  | inr (_, p) ↦ elim (drop-cases f.0 d hf) [
    | inl (_, q) ↦ absurd (cc (rw (p, q) at h, not_cons_le_nil (byte_at d e) (below (suc d) e)))
    | inr (more, q) ↦ (
      more,
      cons_le_cons (byte_at d e) (byte_at d f) (below (suc d) e) (below (suc d) f) (rw (p, q) at h),
    )
  ]
]

pub Good-tail : (e : Entry) (run : List Entry) (d : ℕ) → Good (e ∷ run) d → Good run d
Good-tail e [] d g = record { ordered = tt; long = tt }
Good-tail e (f ∷ run) d g = record { ordered = g.ordered.1; long = g.long.1 }

-- A run whose keys all go on.
pub record GoesOn (run : List Entry) (depth : ℕ) : Type 0 where
  pub good : Good run depth
  pub longer_keys : All (λ e. depth < length e.0) run

pub GoesOn-of_head :
    (e : Entry) (run : List Entry) (d : ℕ) → Good (e ∷ run) d → d < length e.0 → GoesOn (e ∷ run) d
GoesOn-of_head e [] d g h = record { good = g; longer_keys = (h, tt) }
GoesOn-of_head e (f ∷ run) d g h =
    let more = (neighbours e f d g.long.1.0 h g.ordered.0).0 in
    let rest = GoesOn-of_head f run d (Good-tail e (f ∷ run) d g) more in
    record { good = g; longer_keys = (h, rest.longer_keys) }

pub longer-GoesOn : (run : List Entry) (d : ℕ) → Good run d → GoesOn (longer run d) d
unfolding longer
longer-GoesOn [] d g = record { good = g; longer_keys = tt }
longer-GoesOn (e ∷ run) d g = elim (Bool-cases (ends_at d e)) [
  | inl h ↦ rw h (longer-GoesOn run d (Good-tail e run d g))
  | inr h ↦ rw h (GoesOn-of_head e run d g (ground (arith, g.long)))
]

pub GoesOn-tail : (e : Entry) (run : List Entry) (d : ℕ) → GoesOn (e ∷ run) d → GoesOn run d
GoesOn-tail e run d g = record { good = Good-tail e run d g.good; longer_keys = g.longer_keys.1 }

-- the first group is that of the first entry
pub groups-head :
    (e : Entry) (run : List Entry) (d : ℕ)
    → (r : List Entry) × (gs : List (ℕ × List Entry)) × (groups d (e ∷ run)
        ≡ (byte_at d e, e ∷ r) ∷ gs)
unfolding groups
groups-head e run d = go (groups d run)
  where
    go :
        (gs : List (ℕ × List Entry))
        → (r : List Entry) × (gs' : List (ℕ × List Entry)) × (push_entry (byte_at d e) e gs
            ≡ (byte_at d e, e ∷ r) ∷ gs')
    go [] = ([], [], unfold push_entry in refl)
    go ((b, r) ∷ gs) = elim (Bool-cases (b == byte_at d e)) [
      | inl h ↦ (r, gs, unfold push_entry in ground arith)
      | inr h ↦ ([], (b, r) ∷ gs, unfold push_entry in ground arith)
    ]
