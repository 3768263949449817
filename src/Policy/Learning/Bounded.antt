-- ===== src/Policy/Learning/Bounded.antt =====
-- The size and the keys of the maps of hosts in `Learning` (core/crates/policy/src/policy.rs).
use tollgate.Common.{ℕ, ◌≤◌, Bool, [], arith, length, Bytes, if◌then◌else◌, Bool-cases, inl, inr}
use tollgate.Common.HashMap.{
  HashMap, insert, remove, retain, contains_key, IsDistinct, insert-IsDistinct, remove-IsDistinct,
  retain-IsDistinct, length-insert, length-remove-le, length-retain-le,
}
use tollgate.Policy.Times.{max_recent_rejections}
use tollgate.Policy.Learning.{make_room}
use tollgate.Policy.Learning.Room.{make_room-IsDistinct, length-make_room}

pub record Bounded {V : Type 0} (m : HashMap V) : Type 0 where
  pub distinct : IsDistinct m
  pub small : length m ≤ max_recent_rejections

module _ {V : Type 0} where
  pub nil-Bounded : Bounded {V = V} []
  nil-Bounded = record { distinct = tt; small = omega arith }

  pub remove-Bounded : (m : HashMap V) (k : Bytes) → Bounded m → Bounded (remove m k)
  remove-Bounded m k b = record {
    distinct = remove-IsDistinct m k b.distinct;
    small = omega (arith, length-remove-le m k, b.small);
  }

  pub retain-Bounded : (fresh : V → Bool) (m : HashMap V) → Bounded m → Bounded (retain fresh m)
  retain-Bounded fresh m b = record {
    distinct = retain-IsDistinct fresh m b.distinct;
    small = omega (arith, length-retain-le fresh m, b.small);
  }

  pub insert-make_room-Bounded :
      (m : HashMap V) (fresh : V → Bool) (last : V → ℕ) (k : Bytes) (v : V)
      → Bounded m
      → Bounded (insert (make_room m fresh last) k v)
  insert-make_room-Bounded m fresh last k v b =
      let room = make_room m fresh last in
      record {
        distinct = insert-IsDistinct room k v (make_room-IsDistinct m fresh last b.distinct);
        small =
            ground
              (arith, length-insert room k v, length-make_room m fresh last b.distinct b.small);
      }

  -- a host that is new gets room, one that is known needs none
  pub insert_host-Bounded :
      (m : HashMap V) (fresh : V → Bool) (last : V → ℕ) (k : Bytes) (v : V)
      → Bounded m
      → Bounded (insert (if contains_key m k then m else make_room m fresh last) k v)
  insert_host-Bounded m fresh last k v b = elim (Bool-cases (contains_key m k)) [
    | inl known ↦ rw known (record {
      distinct = insert-IsDistinct m k v b.distinct;
      small = ground (arith, length-insert m k v, b.small);
    })
    | inr new ↦ rw new (insert-make_room-Bounded m fresh last k v b)
  ]
