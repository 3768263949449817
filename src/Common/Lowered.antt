-- ===== src/Common/Lowered.antt =====
-- Letter case and the other operations on texts.
use mathlib.Core.Path.{◌≡◌, refl}
use mathlib.Core.List.{List, [], ◌∷◌, map}
use native.Mathlib.Omega.{arith}
use Prim.Native.Nat.{ℕ}
use tollgate.Common.Lists.{is_empty}
use tollgate.Common.Octets.{lower, to_ascii_lowercase}
use tollgate.Common.Characters.{Text, byte_length, push_first, split}

pub byte_length-lower : (s : Text) → byte_length (lower s) ≡ byte_length s
unfolding byte_length lower
byte_length-lower [] = refl
byte_length-lower (c ∷ s) = ground (arith, byte_length-lower s)

pub is_empty-lower : (s : Text) → is_empty (lower s) ≡ is_empty s
unfolding lower
is_empty-lower [] = refl
is_empty-lower (c ∷ s) = refl

lower-push_first :
    (c : ℕ) (l : List Text)
    → map lower (push_first c l) ≡ push_first (to_ascii_lowercase c) (map lower l)
unfolding lower
lower-push_first c [] = refl
lower-push_first c (label ∷ rest) = refl

pub split-lower : (s : Text) → split b'.' (lower s) ≡ map lower (split b'.' s)
unfolding split lower
split-lower [] = refl
split-lower (c ∷ s) = ground (arith, split-lower s, lower-push_first c (split b'.' s))
