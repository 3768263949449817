-- ===== src/Filter/Wildcard.antt =====
-- The wildcard patterns of core/crates/filter/src/wildcard.rs. A position in the pattern or in
-- the text is the rest from there on.
pub mod Stars
pub mod Globs
pub mod Ends
use tollgate.Common.{
  ℕ, zero, suc, ◌+◌, ◌*◌, Bool, true, false, not, ◌&&◌, ◌||◌, Option, none, some, List, [], ◌∷◌,
  ◌==◌, leb, if◌then◌else◌, length, is_empty, any, all, drop, Bytes, to_ascii_lowercase, parents,
  split, unwrap_or, strip_prefix,
}

-- whether `glob.get(g)` is `Some` of a byte
abbrev pub next_is : Bytes → ℕ → Bool
next_is [] b = false
next_is (c ∷ g) b = c == b

-- one turn of the loop of `glob_matches`: its result, or the next `g`, `t` and `star`
pub data Turn : Type 0 where
  done : Bool → Turn
  next : Bytes → Bytes → Option (Bytes × Bytes) → Turn

-- back to the last `*`, which takes one byte more
abbrev pub go_back : Option (Bytes × Bytes) → Turn
go_back none = done false
go_back (some (star_g, star_t)) = next star_g (drop 1 star_t) (some (star_g, drop 1 star_t))

-- `star` holds the pattern after the last `*` and the text that the `*` stands before
unfoldable pub turn : Bytes → Bytes → Option (Bytes × Bytes) → Turn
turn g [] star = done (all (λ b. b == b'*') g)
turn g (x ∷ t) star =
    if next_is g b'*'
    then next (drop 1 g) (x ∷ t) (some (drop 1 g, x ∷ t))
    else if next_is g (to_ascii_lowercase x)
    then next (drop 1 g) t star
    else go_back star

unfoldable pub turns : ℕ → Bytes → Bytes → Option (Bytes × Bytes) → Option Bool
unfolding turn
turns zero g t star = none
turns (suc n) g t star = elim (turn g t star) [
  | done b ↦ some b
  | next g' t' star' ↦ turns n g' t' star'
]

-- the turns that `r` restarts of a pattern of less than `k` bytes take
unfoldable pub restarts : ℕ → ℕ → ℕ
restarts k zero = 0
restarts k (suc r) = k + restarts k r

abbrev pub glob_fuel : Bytes → Bytes → ℕ
glob_fuel glob text = restarts (suc (length glob)) (suc (length text)) + suc (length glob)

unfoldable pub glob_matches : Bytes → Bytes → Bool
unfolding turns restarts
glob_matches glob text = unwrap_or (turns (glob_fuel glob text) glob text none) false

abbrev pub is_pattern_char : ℕ → Bool
is_pattern_char b =
    leb b'a' b && leb b b'z' || leb b'0' b && leb b b'9' || b == b'-' || b == b'_' || b == b'*'

abbrev pub is_pattern_label : Bytes → Bool
is_pattern_label label = not (is_empty label) && leb (length label) 63 && all is_pattern_char label

abbrev pub is_digit : ℕ → Bool
is_digit b = leb b'0' b && leb b b'9'

-- `rsplit('.').next()`
abbrev pub last_label : List Bytes → Bytes
last_label [] = []
last_label (l ∷ []) = l
last_label (l ∷ m ∷ rest) = last_label (m ∷ rest)

unfoldable pub is_valid_pattern : Bytes → Bool
unfolding split
is_valid_pattern pattern =
    leb (length pattern) 253
    && any (λ b. b == b'.') pattern
    && not (all (λ b. b == b'*' || b == b'.') pattern)
    && all is_pattern_label (split b'.' pattern)
    && not (all is_digit (last_label (split b'.' pattern)))

abbrev pub ends_with_star : Bytes → Bool
ends_with_star [] = false
ends_with_star (b ∷ []) = b == b'*'
ends_with_star (b ∷ c ∷ g) = ends_with_star (c ∷ g)

unfoldable pub is_unkeyed : Bytes → Bool
is_unkeyed pattern = next_is pattern b'*' && ends_with_star pattern

pub record Pattern : Type 0 where
  pub glob : Bytes
  pub parents : Bool

-- the pattern after its bars
abbrev pub checked : Bool → Bytes → Option Pattern
checked under glob =
    if is_valid_pattern glob then some (record { glob = glob; parents = under }) else none

abbrev pub after_bars : Option Bytes → Bytes → Option Pattern
after_bars (some glob) rest = checked true glob
after_bars none rest = checked false rest

abbrev after_bar : Option Bytes → Option Pattern
after_bar none = none
after_bar (some rest) = after_bars (strip_prefix b'|' rest) rest

-- `Pattern::parse`
unfoldable pub parse : Bytes → Option Pattern
parse line = after_bar (strip_prefix b'|' line)

-- `Pattern::matches`
unfoldable pub matches : Pattern → Bytes → Bool
unfolding glob_matches
matches p host =
    glob_matches p.glob host || p.parents && any (λ name. glob_matches p.glob name) (parents host)

-- `Pattern::head` and `Pattern::tail`
unfoldable pub head : Bytes → Bytes
head [] = []
head (b ∷ g) = let rest = head g in if b == b'*' then [] else b ∷ rest

unfoldable pub tail : Bytes → Bytes
tail [] = []
tail (b ∷ g) =
    let rest = tail g in if any (λ c. c == b'*') g then rest else if b == b'*' then g else b ∷ g
