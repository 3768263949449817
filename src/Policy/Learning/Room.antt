-- ===== src/Policy/Learning/Room.antt =====
-- Lemmas on `make_room` of core/crates/policy/src/policy.rs.
use tollgate.Common.{
  ◌⊎◌, inl, inr, ℕ, suc, ◌≤◌, ◌<◌, ◌≡◌, ◌≢◌, refl, ap, Bool, false, Option, none, some, [], ◌∷◌,
  arith, length, Bytes, str_eq_iff, Bool-cases, Option-cases,
}
use tollgate.Common.HashMap.{
  HashMap, get, remove, retain, min_by_key, IsDistinct, get-remove, get-retain, retain-IsDistinct,
  remove-IsDistinct, length-remove-lt, length-retain-le,
}
use tollgate.Policy.Times.{max_recent_rejections}
use tollgate.Policy.Learning.{drop_oldest, make_room}

module _ {V : Type 0} where
  min_by_key-none : (last : V → ℕ) (m : HashMap V) → min_by_key last m ≡ none → m ≡ []
  unfolding min_by_key
  min_by_key-none last [] h = refl
  min_by_key-none last ((j, v) ∷ m) h = ground arith

  -- the entry found is one of the map
  min_by_key-get :
      (last : V → ℕ) (m : HashMap V) (k : Bytes) (v : V)
      → IsDistinct m
      → min_by_key last m ≡ some (k, v)
      → get m k ≡ some v
  unfolding min_by_key get
  min_by_key-get last [] k v d h = cc
  min_by_key-get last ((j, w) ∷ m) k v d h =
      ground (arith, str_eq_iff j k, min_by_key-get last m k v)

  -- and none is earlier
  min_by_key-le :
      (last : V → ℕ) (m : HashMap V) (k j : Bytes) (v w : V)
      → min_by_key last m ≡ some (k, v)
      → get m j ≡ some w
      → last v ≤ last w
  unfolding min_by_key get
  min_by_key-le last [] k j v w h g = cc
  min_by_key-le last ((i, u) ∷ m) k j v w h g = elim (Option-cases (min_by_key last m)) [
    | inl e ↦ let nothing = min_by_key-none last m e in ground arith
    | inr ((k', v'), e) ↦ ground (arith, min_by_key-le last m k' j v' w)
  ]

  drop_oldest-cases :
      (last : V → ℕ) (m : HashMap V)
      → ((drop_oldest last m ≡ m) × (m ≡ []))
        ⊎ ((k : Bytes) × (v : V) × (min_by_key last m ≡ some (k, v))
            × (drop_oldest last m ≡ remove m k))
  unfolding drop_oldest
  drop_oldest-cases last m = go (min_by_key last m) refl
    where
      go :
          (o : Option (Bytes × V))
          → min_by_key last m ≡ o
          → ((drop_oldest last m ≡ m) × (m ≡ []))
            ⊎ ((k : Bytes) × (v : V) × (min_by_key last m ≡ some (k, v))
                × (drop_oldest last m ≡ remove m k))
      go none e = inl (ground arith, min_by_key-none last m e)
      go (some (k, v)) e = inr (k, v, e, ground arith)

  drop_oldest-IsDistinct :
      (last : V → ℕ) (m : HashMap V) → IsDistinct m → IsDistinct (drop_oldest last m)
  drop_oldest-IsDistinct last m d = elim (drop_oldest-cases last m) [
    | inl (e, _) ↦ rw e d
    | inr (k, v, _, e) ↦ rw e (remove-IsDistinct m k d)
  ]

  length-drop_oldest :
      (last : V → ℕ) (m : HashMap V) (n : ℕ)
      → IsDistinct m
      → length m ≤ suc n
      → length (drop_oldest last m) ≤ n
  length-drop_oldest last m n d h = elim (drop_oldest-cases last m) [
    | inl (e, q) ↦ omega (arith, ap length e, ap length q)
    | inr (k, v, found, e) ↦
        let there : get m k ≢ none = ground (arith, min_by_key-get last m k v d found) in
        omega (arith, ap length e, length-remove-lt m k there)
  ]

  pub make_room-IsDistinct :
      (m : HashMap V) (fresh : V → Bool) (last : V → ℕ)
      → IsDistinct m
      → IsDistinct (make_room m fresh last)
  unfolding make_room
  make_room-IsDistinct m fresh last d = ground (
    arith,
    retain-IsDistinct fresh m d,
    drop_oldest-IsDistinct last (retain fresh m) (retain-IsDistinct fresh m d),
  )

  -- A map of at most 1024 hosts has room for one more afterwards.
  pub length-make_room :
      (m : HashMap V) (fresh : V → Bool) (last : V → ℕ)
      → IsDistinct m
      → length m ≤ max_recent_rejections
      → length (make_room m fresh last) < max_recent_rejections
  unfolding make_room
  length-make_room m fresh last d h =
      let d' = retain-IsDistinct fresh m d in
      ground (arith, length-retain-le fresh m, length-drop_oldest last (retain fresh m) 1023 d')

  drop_oldest_drops :
      (m : HashMap V) (last : V → ℕ) (k j : Bytes) (v w : V)
      → IsDistinct m
      → get m k ≡ some v
      → get (drop_oldest last m) k ≡ none
      → get (drop_oldest last m) j ≡ some w
      → last v ≤ last w
  drop_oldest_drops m last k j v w d h dropped kept = elim (drop_oldest-cases last m) [
    | inl (e, q) ↦ absurd (ground (arith, ap (λ (t : HashMap V). get t k) e))
    | inr (i, u, found, e) ↦ ground (
      arith,
      ap (λ (t : HashMap V). get t k) e,
      ap (λ (t : HashMap V). get t j) e,
      get-remove m i k,
      get-remove m i j,
      str_eq_iff i k,
      min_by_key-get last m i u d found,
      min_by_key-le last m i j u w found,
    )
  ]

  drop_oldest_keeps :
      (m : HashMap V) (last : V → ℕ) (k : Bytes) (v : V)
      → get (drop_oldest last m) k ≡ some v
      → get m k ≡ some v
  drop_oldest_keeps m last k v h = elim (drop_oldest-cases last m) [
    | inl (e, q) ↦ ground (arith, ap (λ (t : HashMap V). get t k) e)
    | inr (i, u, found, e) ↦ ground (arith, ap (λ (t : HashMap V). get t k) e, get-remove m i k)
  ]

  -- Making room adds nothing and changes no value.
  pub make_room_keeps :
      (m : HashMap V) (fresh : V → Bool) (last : V → ℕ) (k : Bytes) (v : V)
      → IsDistinct m
      → get (make_room m fresh last) k ≡ some v
      → get m k ≡ some v
  unfolding make_room
  make_room_keeps m fresh last k v d h =
      ground (arith, get-retain fresh m k d, drop_oldest_keeps (retain fresh m) last k v)

  -- Making room for one more host in a map without double keys drops an entry only if the map was
  -- full, and then only one that is no longer fresh, or whose time is the earliest of all that stay.
  pub make_room_drops :
      (m : HashMap V) (fresh : V → Bool) (last : V → ℕ) (k : Bytes) (v : V)
      → IsDistinct m
      → get m k ≡ some v
      → get (make_room m fresh last) k ≡ none
      → (max_recent_rejections ≤ length m)
        × ((fresh v ≡ false)
            ⊎ ((j : Bytes) (w : V) → get (make_room m fresh last) j ≡ some w → last v ≤ last w))
  make_room_drops m fresh last k v d h gone = (full, reason)
    where
      full : max_recent_rejections ≤ length m
      full = unfold make_room in ground arith

      reason :
          (fresh v ≡ false)
          ⊎ ((j : Bytes) (w : V) → get (make_room m fresh last) j ≡ some w → last v ≤ last w)
      reason = elim (Bool-cases (fresh v)) [
        | inr stale ↦ inl stale
        | inl new ↦ inr λ j w kept.
            unfold make_room in
            ground (
              arith,
              get-retain fresh m k d,
              drop_oldest_drops (retain fresh m) last k j v w (retain-IsDistinct fresh m d),
            )
      ]
