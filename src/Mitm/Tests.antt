-- ===== src/Mitm/Tests.antt =====
-- Concrete inputs for the theorems on core/crates/mitm.
use tollgate.Common.{◌++◌, inl, ℕ, ◌≡◌, false, refl, List, [], ◌∷◌, arith, Bytes, codes}
use tollgate.Mitm.Flight
use tollgate.Mitm.Flight.{certificate_sent, written}
use tollgate.Mitm.Flight.Chunks.{written-append}
use tollgate.Mitm.Throttle.{new, allow, allow_all}
use tollgate.Mitm.Throttle.Once.{allow-once}

abbrev earlier_calls : List (Bytes × ℕ)
earlier_calls = (codes "a.test", 5) ∷ (codes "b.test", 6) ∷ []

allow-once_example :
    (allow
      (allow_all
        (allow (allow_all (new 60) earlier_calls) (codes "a.test") 70).0
        ((codes "b.test", 100) ∷ []))
      (codes "a.test")
      129).1
    ≡ false
unfolding new allow allow_all tollgate.Common.HashMap.get tollgate.Common.HashMap.insert
    tollgate.Common.str_eq
allow-once_example =
    allow-once 60 earlier_calls ((codes "b.test", 100) ∷ []) (codes "a.test") 70 129 refl
      (omega arith, tt) (omega arith)

-- a ServerHello of TLS 1.2 without extensions, cut in its header, and an empty certificate chain
abbrev server_hello_start : Bytes
server_hello_start = 22 ∷ 3 ∷ 3 ∷ []

abbrev server_hello_rest : Bytes
server_hello_rest =
    0 ∷ 42 ∷ 2 ∷ 0 ∷ 0 ∷ 38 ∷ 0 ∷ 0 ∷ 0 ∷ 0 ∷ 0 ∷ 0 ∷ 0 ∷ 0 ∷ 0 ∷ 0 ∷ 0 ∷ 0 ∷ 0 ∷ 0 ∷ 0 ∷ 0 ∷ 0 ∷ 0
    ∷ 0 ∷ 0 ∷ 0 ∷ 0 ∷ 0 ∷ 0 ∷ 0 ∷ 0 ∷ 0 ∷ 0 ∷ 0 ∷ 0 ∷ 0 ∷ 0 ∷ 0 ∷ 0 ∷ 0 ∷ 0 ∷ 0 ∷ 0 ∷ []

abbrev certificate_record : Bytes
certificate_record = 22 ∷ 3 ∷ 3 ∷ 0 ∷ 4 ∷ 11 ∷ 0 ∷ 0 ∷ 0 ∷ []

written-append_example :
    written (written Flight.new server_hello_start) (server_hello_rest ++ certificate_record)
    ≡ written Flight.new (server_hello_start ++ (server_hello_rest ++ certificate_record))
written-append_example =
    written-append Flight.new server_hello_start (server_hello_rest ++ certificate_record)
      (inl (omega arith))

written_certificate :
    (written Flight.new (server_hello_start ++ (server_hello_rest ++ certificate_record))).progress
    ≡ certificate_sent
unfolding written tollgate.Mitm.Flight.with_header
written_certificate = refl
