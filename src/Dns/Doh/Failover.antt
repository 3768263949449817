-- ===== src/Dns/Doh/Failover.antt =====
-- `order` and `resolve` of core/crates/dns/src/doh.rs: every upstream is tried until one answers.
use tollgate.Common.{
  ℕ, suc, ◌+◌, ◌≤◌, ◌<◌, ◌≡◌, refl, ◌∙◌, sym, ap, Bool, true, false, ◌||◌, List, [], ◌∷◌, arith,
  le→ltb, ◌==◌, ==_iff, ==_refl, if◌then◌else◌, length, any, any-append, Bytes, Bool-cases, inl,
  inr,
}
use tollgate.Dns.Doh.{
  Upstream, DohError, no_upstream, dns_header_len, health, is_up, split_order, order, Answer, ok,
  err, without_id, with_id, try_all, resolve,
}

-- the indices of upstreams, from that index
abbrev indices : ℕ → List Upstream → List ℕ
indices index [] = []
indices index (u ∷ ups) = index ∷ indices (suc index) ups

either_list : ℕ → List ℕ × List ℕ → Bool
either_list i lists = any (λ x. x == i) lists.0 || any (λ x. x == i) lists.1

split_order-any :
    (i index : ℕ) (ups : List Upstream) (now : ℕ)
    → either_list i (split_order index ups now) ≡ any (λ x. x == i) (indices index ups)
unfolding split_order either_list
split_order-any i index [] now = refl
split_order-any i index (u ∷ ups) now =
    placed (is_up (health u now)) (split_order (suc index) ups now)
      (split_order-any i (suc index) ups now)
  where
    placed :
        (b : Bool) (lists : List ℕ × List ℕ)
        → either_list i lists ≡ any (λ x. x == i) (indices (suc index) ups)
        → either_list i (if b then (index ∷ lists.0, lists.1) else (lists.0, index ∷ lists.1))
          ≡ (index == i || any (λ x. x == i) (indices (suc index) ups))
    placed true lists e = ground (arith, e)
    placed false lists e = ground (arith, e)

any-indices :
    (i index : ℕ) (ups : List Upstream)
    → index ≤ i
    → i < index + length ups
    → any (λ x. x == i) (indices index ups) ≡ true
any-indices i index [] h k = absurd (omega arith)
any-indices i index (u ∷ ups) h k = elim (Bool-cases (index == i)) [
  | inl e ↦ rw e refl
  | inr e ↦ rw e (any-indices i (suc index) ups (ground arith) (omega arith))
]

indices-lt :
    (i index : ℕ) (ups : List Upstream)
    → any (λ x. x == i) (indices index ups) ≡ true
    → i < index + length ups
indices-lt i index [] h = absurd (ground arith)
indices-lt i index (u ∷ ups) h = elim (Bool-cases (index == i)) [
  | inl e ↦ ground arith
  | inr e ↦ omega (arith, indices-lt i (suc index) ups (ground arith))
]

any-order :
    (i : ℕ) (ups : List Upstream) (now : ℕ)
    → any (λ x. x == i) (order ups now) ≡ any (λ x. x == i) (indices 0 ups)
unfolding order either_list
any-order i ups now =
    any-append (λ x. x == i) (split_order 0 ups now).0 (split_order 0 ups now).1
    ∙ split_order-any i 0 ups now

-- what `resolve` gives where some upstream answers
pub record Answered (ask : ℕ → Bytes → Answer) (query : Bytes) (tried : List ℕ) (result : Answer)
    : Type 0 where
  pub upstream : ℕ
  pub answer : Bytes
  pub is_tried : any (λ x. x == upstream) tried ≡ true
  pub answers : ask upstream (without_id query) ≡ ok answer
  pub is_result : result ≡ ok (with_id query answer)

try_all-Answered :
    (ask : ℕ → Bytes → Answer) (query : Bytes) (i : ℕ) (answer : Bytes) (last : DohError)
    (l : List ℕ)
    → ask i (without_id query) ≡ ok answer
    → any (λ x. x == i) l ≡ true
    → Answered ask query l (try_all ask query last l)
unfolding try_all
try_all-Answered ask query i answer last [] h m = absurd (ground arith)
try_all-Answered ask query i answer last (index ∷ l) h m =
    tried (λ d k. try_all-Answered ask query i answer d l h k) (ask index (without_id query)) refl
  where
    tried :
        ((d : DohError) → any (λ x. x == i) l ≡ true → Answered ask query l (try_all ask query d l))
        → (r : Answer) → ask index (without_id query) ≡ r
        → Answered ask query
            (index ∷ l)
            (elim r [ ok a ↦ ok (with_id query a) | err e ↦ try_all ask query e l ])
    tried rest (ok a) e = record {
      upstream = index;
      answer = a;
      is_tried = rw (==_refl index) refl;
      answers = e;
      is_result = refl;
    }
    tried rest (err d) e =
        let other : (index == i) ≡ false = elim (Bool-cases (index == i)) [
          | inr o ↦ o
          | inl same ↦
              let here : ask i (without_id query) ≡ err d =
                ap (λ x. ask x (without_id query)) (sym ((==_iff index i).0 same)) ∙ e in
              cc
        ] in
        let later = rest d (ground arith) in
        record {
          upstream = later.upstream;
          answer = later.answer;
          is_tried = ground (arith, later.is_tried);
          answers = later.answers;
          is_result = later.is_result;
        }

-- If a query has a header and there is a permit for it, and some upstream answers, then `resolve`
-- gives an answer, whichever upstreams are down or fail: that of one of the upstreams, with the id of
-- the query.
pub resolve-answers :
    (ask : ℕ → Bytes → Answer) (ups : List Upstream) (now : ℕ) (query : Bytes) (i : ℕ)
    (answer : Bytes)
    → dns_header_len ≤ length query
    → i < length ups
    → ask i (without_id query) ≡ ok answer
    → (j : ℕ) × (found : Bytes) × (j < length ups)
      × (ask j (without_id query) ≡ ok found)
      × (resolve true ask ups now query ≡ ok (with_id query found))
unfolding resolve
resolve-answers ask ups now query i answer whole less h =
    let tried = any-order i ups now ∙ any-indices i 0 ups (omega arith) (omega arith) in
    let a = try_all-Answered ask query i answer no_upstream (order ups now) h tried in
    let bound = indices-lt a.upstream 0 ups (sym (any-order a.upstream ups now) ∙ a.is_tried) in
    (
      a.upstream,
      a.answer,
      omega (arith, bound),
      a.answers,
      rw (le→ltb (length query) dns_header_len whole) a.is_result,
    )
