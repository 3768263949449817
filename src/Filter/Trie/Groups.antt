-- ===== src/Filter/Trie/Groups.antt =====
-- The runs of the children of a node (core/crates/filter/src/wildcard.rs).
use tollgate.Common.{
  ℕ, suc, ◌+◌, ◌-◌, ◌≤◌, ◌<◌, ◌⊎◌, inl, inr, ◌≡◌, refl, sym, subst, Bool, true, false, ◌&&◌, ◌||◌,
  List, [], ◌∷◌, arith, ◌==◌, length, any, All,
}
use tollgate.Common.Sorting.{bytes_le}
use tollgate.Common.BinarySearch.{Rises}
use tollgate.Filter.Trie.{Entry, longer, byte_at, push_entry, groups}
use tollgate.Filter.Wildcard.Ends.{is_prefix}
use tollgate.Filter.Trie.Runs.{Good, GoesOn, neighbours, groups-head, GoesOn-tail, below}

abbrev pub Group : Type 0
Group = ℕ × List Entry

abbrev pub bytes_of : List Group → List ℕ
bytes_of [] = []
bytes_of (g ∷ gs) = g.0 ∷ bytes_of gs

pub record Grouped (depth : ℕ) (gs : List Group) : Type 0 where
  pub rises : Rises (bytes_of gs)
  pub good : All (λ g. Good g.1 (suc depth)) gs

one-Good : (e : Entry) (d : ℕ) → d < length e.0 → Good (e ∷ []) (suc d)
one-Good e d h = record { ordered = tt; long = (h, tt) }

push-Grouped :
    (e f : Entry) (r : List Entry) (gs : List Group) (d : ℕ)
    → d < length e.0
    → (byte_at d e < byte_at d f) ⊎ ((byte_at d e ≡ byte_at d f) × Good (e ∷ f ∷ r) (suc d))
    → Grouped d ((byte_at d f, f ∷ r) ∷ gs)
    → Grouped d (push_entry (byte_at d e) e ((byte_at d f, f ∷ r) ∷ gs))
unfolding push_entry
push-Grouped e f r gs d long (inl less) g =
    let other : (byte_at d f == byte_at d e) ≡ false = ground arith in
    rw other (record { rises = (less, g.rises); good = (one-Good e d long, g.good) })
push-Grouped e f r gs d long (inr (same, good)) g =
    let equal : (byte_at d f == byte_at d e) ≡ true = ground arith in
    rw equal (record { rises = g.rises; good = (good, g.good.1) })

pub groups-Grouped : (run : List Entry) (d : ℕ) → GoesOn run d → Grouped d (groups d run)
unfolding groups
groups-Grouped [] d g = record { rises = tt; good = tt }
groups-Grouped (e ∷ []) d g =
    unfold push_entry in record { rises = tt; good = (one-Good e d g.longer_keys.0, tt) }
groups-Grouped (e ∷ f ∷ run) d g =
    let (r, gs, shape) = groups-head f run d in
    let rest : Grouped d (groups d (f ∷ run)) =
      groups-Grouped (f ∷ run) d (GoesOn-tail e (f ∷ run) d g) in
    let rest' : Grouped d ((byte_at d f, f ∷ r) ∷ gs) = subst (Grouped d) shape rest in
    let (more, order) = neighbours e f d g.good.long.1.0 g.longer_keys.0 g.good.ordered.0 in
    subst (λ l. Grouped d (push_entry (byte_at d e) e l)) (sym shape)
      (push-Grouped e f r gs d g.longer_keys.0 (next order rest'.good.0) rest')
  where
    next :
        {r : List Entry}
        → (byte_at d e < byte_at d f)
          ⊎ ((byte_at d e ≡ byte_at d f) × (bytes_le (below (suc d) e) (below (suc d) f) ≡ true))
        → Good (f ∷ r) (suc d)
        → (byte_at d e < byte_at d f) ⊎ ((byte_at d e ≡ byte_at d f) × Good (e ∷ f ∷ r) (suc d))
    next (inl less) h = inl less
    next (inr (same, le)) h =
        inr (same, record { ordered = (le, h.ordered); long = (g.longer_keys.0, h.long) })

-- whether an entry of the group of a byte passes a test
abbrev pub in_group : ℕ → List Group → (Entry → Bool) → Bool
in_group b gs q = any (λ g. g.0 == b && any q g.1) gs

in_group-push_entry :
    (byte b : ℕ) (e : Entry) (gs : List Group) (q : Entry → Bool)
    → in_group b (push_entry byte e gs) q ≡ (byte == b && q e || in_group b gs q)
unfolding push_entry
in_group-push_entry byte b e [] q = ground arith
in_group-push_entry byte b e ((c, run) ∷ gs) q = ground arith

pub in_group-groups :
    (d b : ℕ) (run : List Entry) (q : Entry → Bool)
    → in_group b (groups d run) q ≡ any (λ e. byte_at d e == b && q e) run
unfolding groups
in_group-groups d b [] q = refl
in_group-groups d b (e ∷ run) q =
    ground
      (arith, in_group-push_entry (byte_at d e) b e (groups d run) q, in_group-groups d b run q)

-- how much of the keys is left below a depth
abbrev pub weight : ℕ → List Entry → ℕ
weight d [] = 0
weight d (e ∷ run) = (length e.0 - d) + weight d run

abbrev pub group_weight : ℕ → List Group → ℕ
group_weight d [] = 0
group_weight d (g ∷ gs) = suc (weight d g.1) + group_weight d gs

push-weight :
    (d byte : ℕ) (e : Entry) (gs : List Group)
    → d < length e.0
    → group_weight (suc d) (push_entry byte e gs) ≤ (length e.0 - d) + group_weight (suc d) gs
unfolding push_entry
push-weight d byte e [] h = omega arith
push-weight d byte e ((c, run) ∷ gs) h = ground arith

pub groups-weight :
    (d : ℕ) (run : List Entry)
    → All (λ e. d < length e.0) run
    → group_weight (suc d) (groups d run) ≤ weight d run
unfolding groups
groups-weight d [] h = omega arith
groups-weight d (e ∷ run) h =
    omega (arith, push-weight d (byte_at d e) e (groups d run) h.0, groups-weight d run h.1)

pub longer-weight : (d : ℕ) (run : List Entry) → weight d (longer run d) ≤ weight d run
unfolding longer
longer-weight d [] = omega arith
longer-weight d (e ∷ run) = ground (arith, longer-weight d run)

-- the patterns of the entries whose keys start a text, below the path
abbrev pub found : (ℕ → Bool) → ℕ → List Entry → List ℕ → Bool
found f d run text = any (λ e. is_prefix (below d e) text && f e.1) run
