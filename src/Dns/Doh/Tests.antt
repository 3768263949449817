-- ===== src/Dns/Doh/Tests.antt =====
-- Concrete inputs for the theorems on core/crates/dns/src/doh.rs.
use tollgate.Common.{
  ℕ, zero, suc, ◌<◌, ◌≡◌, refl, true, false, ◌⊎◌, none, List, [], ◌∷◌, arith, length, Bytes,
}
use tollgate.Dns.Doh.{
  Reading, Upstream, Answer, ok, err, timeout, without_id, with_id, resolve, order,
}
use tollgate.Dns.Doh.Race.{
  Thread, failed, checked, marked, overtaken, resetting, Atomics, Step, run, attempt_fails,
  begin_reset, Reach, here, next, fresh, Reach-mark,
}
use tollgate.Dns.Doh.Failover.{resolve-answers}

-- an attempt fails, and a reset comes between its first load and its swap
abbrev after_reset : ℕ → Atomics
after_reset until = record { epoch = 1; down_until = until; set_in = 0 }

late_mark : Reach (after_reset 0, [])
unfolding tollgate.Dns.Doh.Race.advance
late_mark =
    let attempt = next here (attempt_fails fresh [] 0 (omega arith)) in
    let loaded = next attempt (run 100 fresh [] (failed 0) []) in
    let counted = next loaded (begin_reset fresh (checked 0 ∷ [])) in
    let stored = next counted (run 100 (after_reset 0) [] resetting (checked 0 ∷ [])) in
    let swapped = next stored (run 100 (after_reset 0) [] (checked 0) []) in
    let loaded_again = next swapped (run 100 (after_reset 130) [] (marked 0 130) []) in
    next loaded_again (run 100 (after_reset 130) [] (overtaken 0 130) [])

Reach-mark_example :
    ((after_reset 0).down_until ≡ 0) ⊎ ((after_reset 0).set_in ≡ (after_reset 0).epoch)
Reach-mark_example = Reach-mark (after_reset 0) [] late_mark refl

-- the first upstream is down and the second does not answer
abbrev some_upstream : ℕ → Upstream
some_upstream until = record {
  sender = none;
  generation = 0;
  last_used = record { total_ms = 0; awake_ms = 0 };
  down_until = until;
  probing = false;
  epoch = 0;
}

abbrev upstreams : List Upstream
upstreams = some_upstream 60 ∷ some_upstream 0 ∷ []

order_down_last : order upstreams 45 ≡ 1 ∷ 0 ∷ []
unfolding order
order_down_last = refl

abbrev query : Bytes
query = 7 ∷ 9 ∷ 1 ∷ 0 ∷ 0 ∷ 1 ∷ 0 ∷ 0 ∷ 0 ∷ 0 ∷ 0 ∷ 0 ∷ []

abbrev first_answers : ℕ → Bytes → Answer
first_answers zero body = ok body
first_answers (suc i) body = err timeout

resolve-answers_example :
    (j : ℕ) × (found : Bytes) × (j < length upstreams)
    × (first_answers j (without_id query) ≡ ok found)
    × (resolve true first_answers upstreams 45 query ≡ ok (with_id query found))
resolve-answers_example =
    resolve-answers first_answers upstreams 45 query 0 (without_id query) (omega arith)
      (omega arith) refl
