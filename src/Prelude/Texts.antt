-- ===== src/Prelude/Texts.antt =====
-- The methods of `str` on texts.
use Prim.Native.Nat.{ℕ, ◌+◌, ◌-◌}
use mathlib.Core.Bool.{Bool, true, false, ◌||◌, ◌&&◌}
use mathlib.Core.List.{List, [], ◌∷◌, map}
use bustan.Prelude.Tests.{leb, if◌then◌else◌}
use bustan.Prelude.Keys.{◌==◌, nat_eq, Text}
use bustan.Prelude.Lists.{contains, reverse}

-- `str.isspace`, for the characters that `str.strip` takes off.
abbrev other_spaces : List ℕ
other_spaces = 32 ∷ 133 ∷ 160 ∷ 5760 ∷ 8232 ∷ 8233 ∷ 8239 ∷ 8287 ∷ 12288 ∷ []

unfoldable pub is_space : ℕ → Bool
is_space c =
    (leb 9 c && leb c 13)
    || (leb 28 c && leb c 31)
    || (leb 8192 c && leb c 8202)
    || contains other_spaces c

-- `text.strip()`
unfoldable pub lstrip : Text → Text
unfolding is_space
lstrip [] = []
lstrip (c ∷ text) = if is_space c then lstrip text else c ∷ text

unfoldable pub strip : Text → Text
strip text = reverse (lstrip (reverse (lstrip text)))

abbrev pub onto_first : ℕ → List Text → List Text
onto_first c [] = (c ∷ []) ∷ []
onto_first c (first ∷ rest) = (c ∷ first) ∷ rest

-- `text.split(sep)`, for one character
unfoldable pub split : ℕ → Text → List Text
split sep [] = [] ∷ []
split sep (c ∷ text) =
    let rest = split sep text in if c == sep then [] ∷ rest else onto_first c rest

-- `text.partition(sep)[0]`
unfoldable pub before : ℕ → Text → Text
before sep [] = []
before sep (c ∷ text) = let rest = before sep text in if c == sep then [] else c ∷ rest

-- `text.partition(sep)[2]`
unfoldable pub after : ℕ → Text → Text
after sep [] = []
after sep (c ∷ text) = let rest = after sep text in if c == sep then text else rest

-- `text.startswith(prefix)`
unfoldable pub has_prefix : Text → Text → Bool
has_prefix [] text = true
has_prefix (p ∷ prefix) [] = false
has_prefix (p ∷ prefix) (c ∷ text) = p == c && has_prefix prefix text

-- `text.lower()` and `text.upper()`, on ASCII.
abbrev pub lower : Text → Text
lower = map (λ c. if leb b'A' c && leb c b'Z' then c + 32 else c)

abbrev pub upper : Text → Text
upper = map (λ c. if leb b'a' c && leb c b'z' then c - 32 else c)
