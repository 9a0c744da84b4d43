-- ===== src/AsgiRouter/Pattern.antt =====
-- The expression that a template compiles to, matched as `re` matches it: each group tries its
-- lengths from the longest, and `$` also stands before a final newline.
use bustan.Prelude.{
  ℕ, zero, suc, ◌+◌, Bool, not, ◌&&◌, ◌||◌, Option, none, some, List, [], ◌∷◌, ◌++◌, ◌==◌, nat_eq,
  list_eq, Text, leb, if◌then◌else◌, take, drop, map,
}
use bustan.AsgiRouter.Template.{
  Converter, str_converter, int_converter, float_converter, uuid_converter, path_converter, Atom,
  char, group,
}

abbrev is_digit : ℕ → Bool
is_digit c = leb b'0' c && leb c b'9'

-- `[0-9a-fA-F]`
abbrev is_hex : ℕ → Bool
is_hex c = is_digit c || (leb b'a' c && leb c b'f') || (leb b'A' c && leb c b'F')

-- How many characters at the front pass the test.
abbrev pub run_length : (ℕ → Bool) → Text → ℕ
run_length test [] = 0
run_length test (c ∷ cs) = let rest = run_length test cs in if test c then suc rest else 0

-- The lengths `n`, `n - 1`, … down to 1.
abbrev pub down_from : ℕ → List ℕ
down_from zero = []
down_from (suc n) = suc n ∷ down_from n

-- `(?:\.[0-9]+)?` behind `n` digits: the lengths with a fraction, then the one without.
abbrev fraction_lengths : ℕ → Text → List ℕ
fraction_lengths n [] = n ∷ []
fraction_lengths n (c ∷ cs) =
    if c == b'.'
    then map (λ k. n + 1 + k) (down_from (run_length is_digit cs)) ++ n ∷ []
    else n ∷ []

abbrev float_lengths : List ℕ → Text → List ℕ
float_lengths [] text = []
float_lengths (n ∷ ns) text = fraction_lengths n (drop n text) ++ float_lengths ns text

-- Where a UUID has a dash.
abbrev is_uuid_from : ℕ → Text → Bool
is_uuid_from i [] = i == 36
is_uuid_from i (c ∷ cs) =
    (if i == 8 || i == 13 || i == 18 || i == 23 then c == b'-' else is_hex c)
    && is_uuid_from (i + 1) cs

-- The lengths that a converter's expression may take at the front of a text, as `re` tries them.
unfoldable pub lengths : Converter → Text → List ℕ
lengths str_converter text = down_from (run_length (λ c. not (c == b'/')) text)
lengths int_converter text = down_from (run_length is_digit text)
lengths float_converter text = float_lengths (down_from (run_length is_digit text)) text
lengths uuid_converter text = if is_uuid_from 0 (take 36 text) then 36 ∷ [] else []
lengths path_converter text = down_from (run_length (λ c. not (c == 10)) text) ++ 0 ∷ []

abbrev pub Params : Type 0
Params = List (Text × Text)

-- The first length that lets the rest of the expression match.
abbrev pub first_match : (Text → Option Params) → Text → Text → List ℕ → Option Params
first_match rest name text [] = none
first_match rest name text (n ∷ ns) =
    let later = first_match rest name text ns in
    elim (rest (drop n text)) [ none ↦ later | some params ↦ some ((name, take n text) ∷ params) ]

-- `pattern.match(path)` and its `groupdict()`.
unfoldable pub match_atoms : List Atom → Text → Option Params
unfolding lengths
match_atoms [] text = if text == [] || text == 10 ∷ [] then some [] else none
match_atoms (char c ∷ atoms) [] = none
match_atoms (char c ∷ atoms) (d ∷ text) =
    let rest = match_atoms atoms text in if c == d then rest else none
match_atoms (group name converter ∷ atoms) text =
    first_match (λ after. match_atoms atoms after) name text (lengths converter text)
