-- ===== src/Filter/PatternSet/Filing.antt =====
-- What `PatternSet::new` (core/crates/filter/src/wildcard.rs) files where.
use tollgate.Common.{
  all, ltb, ℕ, suc, ◌+◌, ◌<◌, ◌≡◌, refl, ◌∙◌, sym, ap, subst, Bool, true, false, not, ◌&&◌, ◌||◌,
  some, List, [], ◌∷◌, ◌++◌, arith, leb, is_some_and, length, is_empty, get_elem?, any, any-append,
  All, All-append, Bytes, Bool-cases, inl, inr, ◌==◌,
}
use mathlib.Core.List.{reverse, reverse-cons}
use tollgate.Filter.Wildcard.{Pattern, head, tail}
use tollgate.Filter.Trie.{Entry}
use tollgate.Filter.PatternSet.{Filed, file, file_all}

abbrev pub AllBytes : Bytes → Type 0
AllBytes = All (λ b. b < 256)

-- An entry with the key of its pattern.
pub record IsFiled (key_of : Bytes → Bytes) (all : List Pattern) (e : Entry) : Type 0 where
  pub pattern : Pattern
  pub there : get_elem? all e.1 ≡ some pattern
  pub key : e.0 ≡ key_of pattern.glob
  pub not_empty : is_empty e.0 ≡ false
  pub is_bytes : AllBytes e.0

abbrev pub tail_key : Bytes → Bytes
tail_key glob = reverse (tail glob)

-- what is filed, in the three places
abbrev pub any_filed : (ℕ → Bool) → Filed → Bool
any_filed f s =
    any (λ e. f e.1) s.head_entries || any (λ e. f e.1) s.tail_entries || any f s.unkeyed

file-any :
    (f : ℕ → Bool) (id : ℕ) (p : Pattern) (s : Filed)
    → any_filed f (file id p s) ≡ (any_filed f s || f id)
unfolding file
file-any f id p s = ground (
  arith,
  any-append (λ (e : Entry). f e.1) s.head_entries ((head p.glob, id) ∷ []),
  any-append (λ (e : Entry). f e.1) s.tail_entries ((reverse (tail p.glob), id) ∷ []),
  any-append f s.unkeyed (id ∷ []),
)

abbrev pub any_from : ℕ → List Pattern → (ℕ → Bool) → Bool
any_from id [] f = false
any_from id (p ∷ rest) f = f id || any_from (suc id) rest f

pub file_all-any :
    (f : ℕ → Bool) (id : ℕ) (rest : List Pattern) (s : Filed)
    → any_filed f (file_all id rest s) ≡ (any_filed f s || any_from id rest f)
unfolding file_all
file_all-any f id [] s = ground arith
file_all-any f id (p ∷ rest) s =
    ground (arith, file_all-any f (suc id) rest (file id p s), file-any f id p s)

-- The patterns from a number on.
abbrev pub From : List Pattern → ℕ → List Pattern → Type 0
From all id rest =
    (i : ℕ) (p : Pattern) → get_elem? rest i ≡ some p → get_elem? all (id + i) ≡ some p

From-next :
    (all : List Pattern) (id : ℕ) (p : Pattern) (rest : List Pattern)
    → From all id (p ∷ rest)
    → From all (suc id) rest
From-next all id p rest h i q e =
    let same : suc id + i ≡ id + suc i = omega arith in ap (get_elem? all) same ∙ h (suc i) q e

From-here :
    (all : List Pattern) (id : ℕ) (p : Pattern) (rest : List Pattern)
    → From all id (p ∷ rest)
    → get_elem? all id ≡ some p
From-here all id p rest h =
    let same : id ≡ id + 0 = omega arith in ap (get_elem? all) same ∙ h 0 p refl

pub any_from-any :
    (all : List Pattern) (m : Pattern → Bool) (id : ℕ) (rest : List Pattern)
    → From all id rest
    → any_from id rest (λ i. is_some_and (get_elem? all i) m) ≡ any m rest
any_from-any all m id [] h = refl
any_from-any all m id (p ∷ rest) h =
    ground (
      arith,
      From-here all id p rest h,
      any_from-any all m (suc id) rest (From-next all id p rest h),
    )

AllBytes-tail : (g : Bytes) → AllBytes g → AllBytes (tail g)
unfolding tail
AllBytes-tail [] h = tt
AllBytes-tail (b ∷ g) h = elim (Bool-cases (any (λ c. c == b'*') g)) [
  | inl e ↦ rw e (AllBytes-tail g h.1)
  | inr e ↦ rw e (elim (Bool-cases (b == b'*')) [ inl s ↦ rw s h.1 | inr s ↦ rw s h ])
]

AllBytes-head : (g : Bytes) → AllBytes g → AllBytes (head g)
unfolding head
AllBytes-head [] h = tt
AllBytes-head (b ∷ g) h = elim (Bool-cases (b == b'*')) [
  | inl s ↦ rw s tt
  | inr s ↦ rw s (h.0, AllBytes-head g h.1)
]

AllBytes-reverse : (s : Bytes) → AllBytes s → AllBytes (reverse s)
AllBytes-reverse [] h = tt
AllBytes-reverse (b ∷ s) h =
    subst AllBytes (sym (reverse-cons b s))
      (All-append (λ b'. b' < 256) (reverse s) (b ∷ []) (AllBytes-reverse s h.1) (h.0, tt))

is_empty-reverse : (s : Bytes) → is_empty s ≡ false → is_empty (reverse s) ≡ false
is_empty-reverse [] h = absurd (ground arith)
is_empty-reverse (b ∷ s) h = ap is_empty (reverse-cons b s) ∙ ends (reverse s)
  where
    ends : (t : Bytes) → is_empty (t ++ b ∷ []) ≡ false
    ends [] = refl
    ends (c ∷ t) = refl

pub record AllFiled (all : List Pattern) (s : Filed) : Type 0 where
  pub heads : All (IsFiled head all) s.head_entries
  pub tails : All (IsFiled tail_key all) s.tail_entries

file-AllFiled :
    (all : List Pattern) (id : ℕ) (p : Pattern) (s : Filed)
    → get_elem? all id ≡ some p
    → AllBytes p.glob
    → AllFiled all s
    → AllFiled all (file id p s)
unfolding file
file-AllFiled all id p s here bytes a =
    elim (Bool-cases
      (not (is_empty (tail p.glob)) && leb (length (head p.glob)) (length (tail p.glob)))) [
        | inl e ↦ rw e (record {
          heads = a.heads;
          tails =
              All-append (IsFiled tail_key all) s.tail_entries ((tail_key p.glob, id) ∷ []) a.tails
                (
                  record {
                    pattern = p;
                    there = here;
                    key = refl;
                    not_empty = is_empty-reverse (tail p.glob) (ground arith);
                    is_bytes = AllBytes-reverse (tail p.glob) (AllBytes-tail p.glob bytes);
                  },
                  tt,
                );
        })
        | inr e ↦ rw e (elim (Bool-cases (is_empty (head p.glob))) [
          | inl none_there ↦ rw none_there (record { heads = a.heads; tails = a.tails })
          | inr some_there ↦ rw some_there (record {
            heads = All-append (IsFiled head all) s.head_entries ((head p.glob, id) ∷ []) a.heads (
              record {
                pattern = p;
                there = here;
                key = refl;
                not_empty = some_there;
                is_bytes = AllBytes-head p.glob bytes;
              },
              tt,
            );
            tails = a.tails;
          })
        ])
      ]

pub file_all-AllFiled :
    (all : List Pattern) (id : ℕ) (rest : List Pattern) (s : Filed)
    → From all id rest
    → All (λ p. AllBytes p.glob) rest
    → AllFiled all s
    → AllFiled all (file_all id rest s)
unfolding file_all
file_all-AllFiled all id [] s h b a = a
file_all-AllFiled all id (p ∷ rest) s h b a =
    file_all-AllFiled all (suc id) rest (file id p s) (From-next all id p rest h) b.1
      (file-AllFiled all id p s (From-here all id p rest h) b.0 a)

-- the test of every byte
pub all-AllBytes : (s : Bytes) → all (λ b. ltb b 256) s ≡ true → AllBytes s
all-AllBytes [] h = tt
all-AllBytes (b ∷ s) h = (ground arith, all-AllBytes s (ground arith))
