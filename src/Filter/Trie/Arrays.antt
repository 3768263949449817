-- ===== src/Filter/Trie/Arrays.antt =====
-- Arrays that hold one piece for each node, with the offsets where the pieces start
-- (core/crates/filter/src/wildcard.rs).
use tollgate.Common.{
  ℕ, zero, suc, ◌+◌, ◌-◌, ◌<◌, ◌≡◌, refl, ◌∙◌, sym, ap, some, List, [], ◌∷◌, ◌++◌, map, arith,
  length, length-append, get_or, get_elem?, take, drop, append_nil, append_assoc, take-append,
  drop-append,
}

module _ {A : Type 0} where
  abbrev pub joined : List (List A) → List A
  joined [] = []
  joined (p ∷ ps) = p ++ joined ps

  -- the offsets of the pieces, and that of the end
  abbrev pub offsets : ℕ → List (List A) → List ℕ
  offsets from [] = from ∷ []
  offsets from (p ∷ ps) = from ∷ offsets (from + length p) ps

  pub joined-append : (ps : List (List A)) (p : List A) → joined (ps ++ p ∷ []) ≡ joined ps ++ p
  joined-append [] p = append_nil p
  joined-append (q ∷ ps) p =
      ap (λ t. q ++ t) (joined-append ps p) ∙ sym (append_assoc q (joined ps) p)

  pub offsets-append :
      (from : ℕ) (ps : List (List A)) (p : List A)
      → offsets from (ps ++ p ∷ []) ≡ offsets from ps ++ (from + length (joined ps) + length p) ∷ []
  offsets-append from [] p = (ap (λ n. from ∷ n ∷ []) (omega arith))
  offsets-append from (q ∷ ps) p =
      ap (λ t. from ∷ t)
        (offsets-append (from + length q) ps p
          ∙ ap (λ n. offsets (from + length q) ps ++ n ∷ [])
              (omega (arith, length-append q (joined ps))))

  pub get_or-offsets-head : (from : ℕ) (ps : List (List A)) → get_or (offsets from ps) 0 0 ≡ from
  get_or-offsets-head from [] = refl
  get_or-offsets-head from (p ∷ ps) = refl

  -- where the piece of a node lies
  pub record At (from : ℕ) (ps : List (List A)) (k : ℕ) (p : List A) : Type 0 where
    pub before : ℕ
    pub after : List A
    pub starts : get_or (offsets from ps) k 0 ≡ from + before
    pub ends : get_or (offsets from ps) (suc k) 0 ≡ from + before + length p
    pub cut : drop before (joined ps) ≡ p ++ after

  pub piece-At :
      (from : ℕ) (ps : List (List A)) (k : ℕ) (p : List A)
      → get_elem? ps k ≡ some p
      → At from ps k p
  piece-At from [] k p h = absurd (ground arith)
  piece-At from (q ∷ ps) zero p h =
      let e : q ≡ p = ground arith in
      record {
        before = 0;
        after = joined ps;
        starts = omega arith;
        ends = get_or-offsets-head (from + length q) ps ∙ omega (arith, ap length e);
        cut = ap (λ t. t ++ joined ps) e;
      }
  piece-At from (q ∷ ps) (suc k) p h =
      let a = piece-At (from + length q) ps k p h in
      record {
        before = length q + a.before;
        after = a.after;
        starts = omega (arith, a.starts);
        ends = omega (arith, a.ends);
        cut = drop-append q (joined ps) (length q + a.before) a.before refl ∙ a.cut;
      }

  get_elem?-drop : (n : ℕ) (l : List A) (i : ℕ) → get_elem? (drop n l) i ≡ get_elem? l (n + i)
  get_elem?-drop zero l i = ap (get_elem? l) (omega arith)
  get_elem?-drop (suc n) [] i = refl
  get_elem?-drop (suc n) (x ∷ l) i =
      let e : suc (n + i) ≡ suc n + i = omega arith in
      get_elem?-drop n l i ∙ ap (get_elem? (x ∷ l)) e

  get_elem?-append : (k l : List A) (i : ℕ) → i < length k → get_elem? (k ++ l) i ≡ get_elem? k i
  get_elem?-append [] l i h = absurd (omega arith)
  get_elem?-append (x ∷ k) l zero h = refl
  get_elem?-append (x ∷ k) l (suc i) h = get_elem?-append k l i (omega arith)

  -- the elements of the piece among all
  pub get_elem?-joined :
      (from : ℕ) (ps : List (List A)) (k : ℕ) (p : List A) (a : At from ps k p) (i : ℕ)
      → i < length p
      → get_elem? (joined ps) (a.before + i) ≡ get_elem? p i
  get_elem?-joined from ps k p a i h =
      sym (get_elem?-drop a.before (joined ps) i)
      ∙ (ap (λ l. get_elem? l i) a.cut ∙ get_elem?-append p a.after i h)

  -- the piece cut out of all
  pub take-joined :
      (from : ℕ) (ps : List (List A)) (k : ℕ) (p : List A) (a : At from ps k p)
      → take
          (get_or (offsets from ps) (suc k) 0 - get_or (offsets from ps) k 0)
          (drop a.before (joined ps))
        ≡ p
  take-joined from ps k p a =
      ap (take (get_or (offsets from ps) (suc k) 0 - get_or (offsets from ps) k 0)) a.cut
      ∙ take-append p a.after _ (omega (arith, a.starts, a.ends))

module _ {A B : Type 0} (h : A → B) where
  pub length-map : (l : List A) → length (map h l) ≡ length l
  length-map [] = refl
  length-map (x ∷ l) = ap suc (length-map l)

  pub map_append : (k l : List A) → map h (k ++ l) ≡ map h k ++ map h l
  map_append [] l = refl
  map_append (x ∷ k) l = ap (λ t. h x ∷ t) (map_append k l)

  pub map-take : (n : ℕ) (l : List A) → take n (map h l) ≡ map h (take n l)
  map-take zero l = refl
  map-take (suc n) [] = refl
  map-take (suc n) (x ∷ l) = ap (λ t. h x ∷ t) (map-take n l)

  pub map-drop : (n : ℕ) (l : List A) → drop n (map h l) ≡ map h (drop n l)
  map-drop zero l = refl
  map-drop (suc n) [] = refl
  map-drop (suc n) (x ∷ l) = map-drop n l

  pub get_elem?-map-some :
      (l : List A) (i : ℕ) (a : A) → get_elem? l i ≡ some a → get_elem? (map h l) i ≡ some (h a)
  get_elem?-map-some [] i a e = absurd (ground arith)
  get_elem?-map-some (x ∷ l) zero a e = ground arith
  get_elem?-map-some (x ∷ l) (suc i) a e = get_elem?-map-some l i a e
