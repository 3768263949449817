-- ===== src/Filter/Trie/Steps.antt =====
-- A step down the trie, on runs of entries (core/crates/filter/src/wildcard.rs).
use tollgate.Common.{
  ℕ, suc, ◌<◌, inl, inr, ◌≡◌, refl, ◌∙◌, sym, ap, Bool, true, false, ◌&&◌, ◌||◌, List, [], ◌∷◌,
  arith, ◌==◌, length, any, All, Bool-cases,
}
use tollgate.Filter.Trie.{Entry, ends_at, own_ids, longer, byte_at, groups}
use tollgate.Filter.Wildcard.Ends.{is_prefix}
use tollgate.Filter.Trie.Runs.{Good, GoesOn-of_head, Good-tail, below, drop-cases}
use tollgate.Filter.Trie.Groups.{found, in_group, in_group-groups}

abbrev pub below_passes : (ℕ → Bool) → ℕ → List ℕ → Entry → Bool
below_passes f d text e = is_prefix (below (suc d) e) text && f e.1

prefix-end : (e : Entry) (d : ℕ) → d < length e.0 → is_prefix (below d e) [] ≡ false
unfolding is_prefix
prefix-end e d h = elim (drop-cases e.0 d (omega arith)) [
  | inl (same, _) ↦ absurd (omega arith)
  | inr (_, p) ↦ rw p
]

prefix-step :
    (e : Entry) (d b : ℕ) (text : List ℕ)
    → d < length e.0
    → is_prefix (below d e) (b ∷ text) ≡ (byte_at d e == b && is_prefix (below (suc d) e) text)
unfolding is_prefix
prefix-step e d b text h = elim (drop-cases e.0 d (omega arith)) [
  | inl (same, _) ↦ absurd (omega arith)
  | inr (_, p) ↦ rw p
]

prefix-own :
    (e : Entry) (d : ℕ) (text : List ℕ) → length e.0 ≡ d → is_prefix (below d e) text ≡ true
unfolding is_prefix
prefix-own e d text h = elim (drop-cases e.0 d (omega arith)) [
  | inl (_, p) ↦ rw p
  | inr (more, _) ↦ absurd (omega arith)
]

found_none-end :
    (f : ℕ → Bool) (d : ℕ) (run : List Entry)
    → All (λ e. d < length e.0) run
    → found f d run [] ≡ false
found_none-end f d [] h = refl
found_none-end f d (e ∷ run) h = ground (arith, prefix-end e d h.0, found_none-end f d run h.1)

found-end-longer :
    (f : ℕ → Bool) (d b : ℕ) (text : List ℕ) (run : List Entry)
    → All (λ e. d < length e.0) run
    → found f d run (b ∷ text) ≡ any (λ e. byte_at d e == b && below_passes f d text e) run
found-end-longer f d b text [] h = refl
found-end-longer f d b text (e ∷ run) h =
    ground (arith, prefix-step e d b text h.0, found-end-longer f d b text run h.1)

-- where the text ends, the patterns of the node itself are left
pub found-nil :
    (f : ℕ → Bool) (d : ℕ) (run : List Entry)
    → Good run d
    → found f d run [] ≡ any f (own_ids run d)
unfolding own_ids
found-nil f d [] g = refl
found-nil f d (e ∷ run) g = elim (Bool-cases (ends_at d e)) [
  | inl h ↦ rw h (ground (arith, prefix-own e d [], found-nil f d run (Good-tail e run d g)))
  | inr h ↦
      rw h (
        found_none-end f d (e ∷ run)
          (GoesOn-of_head e run d g (ground (arith, g.long))).longer_keys)
]

found-longer :
    (f : ℕ → Bool) (d b : ℕ) (text : List ℕ) (run : List Entry)
    → Good run d
    → found f d run (b ∷ text) ≡ (
        any f (own_ids run d)
        || any (λ e. byte_at d e == b && below_passes f d text e) (longer run d))
unfolding own_ids longer
found-longer f d b text [] g = refl
found-longer f d b text (e ∷ run) g = elim (Bool-cases (ends_at d e)) [
  | inl h ↦
      rw h (
        ground
          (arith, prefix-own e d (b ∷ text), found-longer f d b text run (Good-tail e run d g)))
  | inr h ↦ rw h (
      found-end-longer f d b text (e ∷ run)
        (GoesOn-of_head e run d g (ground (arith, g.long))).longer_keys)
]

-- with one more byte, also those below the child of that byte
pub found-cons :
    (f : ℕ → Bool) (d b : ℕ) (text : List ℕ) (run : List Entry)
    → Good run d
    → found f d run (b ∷ text)
      ≡ (any f (own_ids run d) || in_group b (groups d (longer run d)) (below_passes f d text))
found-cons f d b text run g =
    found-longer f d b text run g
    ∙ ap (λ t. any f (own_ids run d) || t)
        (sym (in_group-groups d b (longer run d) (below_passes f d text)))
