-- ===== src/Policy/Decisions/Forget.antt =====
-- `Policy::forget_pins` of core/crates/policy/src/policy.rs.
use tollgate.Common.{
  ℕ, ◌+◌, ◌≡◌, refl, ◌∙◌, none, List, [], ◌∷◌, map, arith, Bytes, contains, str_eq, str_eq_iff,
  length, if◌then◌else◌,
}
use tollgate.Common.HashMap.{
  HashMap, get, remove, contains_key, IsDistinct, get-remove, remove-IsDistinct, remove_absent,
}
use tollgate.Policy.PatternSet.{lookup_key}
use tollgate.Policy.Learning.{Learning}
use tollgate.Policy.Refusals.{forget_pin}
use tollgate.Policy.Decisions.{Policy, forget_all, forget_pins}

removed_one :
    (m : HashMap ℕ) (k : Bytes) (n : ℕ)
    → IsDistinct m
    → length (remove m k) + (if contains_key m k then n + 1 else n) ≡ length m + n
unfolding remove get
removed_one [] k n d = omega arith
removed_one ((i, w) ∷ m) k n d =
    ground (arith, remove_absent m k, str_eq_iff i k, removed_one m k n, d)

get-forget_pin :
    (s : Learning) (key k : Bytes)
    → get (forget_pin key s).0.pins k ≡ (if str_eq key k then none else get s.pins k)
unfolding forget_pin
get-forget_pin s key k = get-remove s.pins key k

count-forget_pin :
    (s : Learning) (key : Bytes) (removed : ℕ)
    → IsDistinct s.pins
    → IsDistinct (forget_pin key s).0.pins
      × (length (forget_pin key s).0.pins + (if (forget_pin key s).1 then removed + 1 else removed)
          ≡ length s.pins + removed)
unfolding forget_pin
count-forget_pin s key removed d =
    (remove-IsDistinct s.pins key d, removed_one s.pins key removed d)

get-forget_all :
    (hosts : List Bytes) (removed : ℕ) (s : Learning) (k : Bytes)
    → get (forget_all hosts removed s).0.pins k
      ≡ (if contains (map lookup_key hosts) k then none else get s.pins k)
unfolding forget_all
get-forget_all [] removed s k = refl
get-forget_all (host ∷ hosts) removed s k =
    let (s', was_pin) = forget_pin (lookup_key host) s in
    get-forget_all hosts (if was_pin then removed + 1 else removed) s' k
    ∙ ground (arith, get-forget_pin s (lookup_key host) k)

count-forget_all :
    (hosts : List Bytes) (removed : ℕ) (s : Learning)
    → IsDistinct s.pins
    → length (forget_all hosts removed s).0.pins + (forget_all hosts removed s).1
      ≡ length s.pins + removed
unfolding forget_all
count-forget_all [] removed s d = refl
count-forget_all (host ∷ hosts) removed s d =
    let (s', was_pin) = forget_pin (lookup_key host) s in
    let (distinct, counted) = count-forget_pin s (lookup_key host) removed d in
    count-forget_all hosts (if was_pin then removed + 1 else removed) s' distinct ∙ counted

-- Forgetting pins removes exactly the pins of the hosts that are named, by their lookup names, keeps
-- every other pin, and returns how many pins there are fewer.
pub forget_pins-pins :
    (p : Policy) (hosts : List Bytes) (k : Bytes)
    → IsDistinct p.learning.pins
    → (get (forget_pins p hosts).0.learning.pins k
        ≡ (if contains (map lookup_key hosts) k then none else get p.learning.pins k))
      × (length (forget_pins p hosts).0.learning.pins + (forget_pins p hosts).1
          ≡ length p.learning.pins)
unfolding forget_pins
forget_pins-pins p hosts k d =
    (get-forget_all hosts 0 p.learning k, count-forget_all hosts 0 p.learning d ∙ omega arith)
