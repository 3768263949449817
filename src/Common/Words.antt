-- ===== src/Common/Words.antt =====
-- Rust's `&str` split at texts, lines and white space, and stripped of prefixes and suffixes.
use mathlib.Core.Bool.{Bool, true, false}
use mathlib.Core.List.{List, [], ◌∷◌, map}
use mathlib.Core.Option.{Option, none, some}
use Prim.Native.Nat.{ℕ}
use tollgate.Common.Tests.{◌==◌, if◌then◌else◌, unwrap_or}
use tollgate.Common.Lists.{is_empty}
use tollgate.Common.Octets.{strip_suffix}
use tollgate.Common.Characters.{Text, is_whitespace, push_first, split}

-- `str::strip_prefix`, the prefix first
unfoldable pub strip_text : Text → Text → Option Text
strip_text [] s = some s
strip_text (p ∷ prefix) [] = none
strip_text (p ∷ prefix) (c ∷ s) = if c == p then strip_text prefix s else none

-- `str::split_once` at one character
unfoldable pub split_once : ℕ → Text → Text × Option Text
split_once c [] = ([], none)
split_once c (x ∷ s) =
    let (before, after) = split_once c s in if x == c then ([], some s) else (x ∷ before, after)

abbrev next_is_word : Text → Bool
next_is_word [] = false
next_is_word (c ∷ s) = if is_whitespace c then false else true

-- `str::split_whitespace`
unfoldable pub split_whitespace : Text → List Text
unfolding is_whitespace
split_whitespace [] = []
split_whitespace (c ∷ s) =
    let rest = split_whitespace s in
    if is_whitespace c then rest else if next_is_word s then push_first c rest else (c ∷ []) ∷ rest

-- the pieces between line ends, the last of which is no line if it is empty
unfoldable pub without_last_empty : List Text → List Text
without_last_empty [] = []
without_last_empty (l ∷ []) = if is_empty l then [] else l ∷ []
without_last_empty (l ∷ m ∷ rest) = l ∷ without_last_empty (m ∷ rest)

-- `str::lines`
unfoldable pub lines : Text → List Text
unfolding split strip_suffix without_last_empty
lines text = map (λ l. unwrap_or (strip_suffix 0x0d l) l) (without_last_empty (split 0x0a text))
