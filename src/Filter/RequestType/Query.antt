-- ===== src/Filter/RequestType/Query.antt =====
-- The path's part in `request_type` of core/crates/filter/src/request_type.rs.
use tollgate.Common.{ℕ, ◌≡◌, refl, ap, Bool, true, Option, [], ◌∷◌, ◌++◌, arith, Text}
use tollgate.Filter.RequestType.{
  before, is_query_or_fragment, from_extension, from_accept, from_fetch_dest, request_type,
  first_kind, and_then, kind_of_path,
}

before-append :
    (p : ℕ → Bool) (s rest : Text) (c : ℕ) → p c ≡ true → before p (s ++ c ∷ rest) ≡ before p s
unfolding before
before-append p [] rest c h = rw h refl
before-append p (x ∷ s) rest c h = ground (arith, before-append p s rest c h)

from_extension-append :
    (path rest : Text) (c : ℕ)
    → is_query_or_fragment c ≡ true
    → from_extension (path ++ c ∷ rest) ≡ from_extension path
unfolding from_extension
from_extension-append path rest c h =
    ap kind_of_path (before-append is_query_or_fragment path rest c h)

-- What follows a `?` or a `#` in the path changes no request type, whatever the headers say.
pub request_type-append :
    (sec_fetch_dest accept : Option Text) (path rest : Text) (c : ℕ)
    → is_query_or_fragment c ≡ true
    → request_type sec_fetch_dest accept (path ++ c ∷ rest)
      ≡ request_type sec_fetch_dest accept path
unfolding request_type
request_type-append sec_fetch_dest accept path rest c h =
    ap (first_kind (and_then sec_fetch_dest from_fetch_dest) (and_then accept from_accept))
      (from_extension-append path rest c h)
