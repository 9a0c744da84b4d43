-- ===== src/AsgiRouter/Template.antt =====
-- `compile_path` of adapters/asgi/routing.py: a template is read into the pieces of an expression.
-- A text is a list of code points.
use bustan.Prelude.{
  ℕ, zero, suc, ◌+◌, Bool, true, false, ◌&&◌, ◌||◌, Option, none, some, List, [], ◌∷◌, ◌==◌, nat_eq,
  list_eq, Text, leb, contains, if◌then◌else◌, length,
}

pub data Converter : Type 0 where
  str_converter int_converter float_converter uuid_converter path_converter : Converter

pub data Piece : Type 0 where
  literal : ℕ → Piece
  parameter : (name converter : Text) → Piece

pub data RouteError : Type 0 where
  unknown_converter malformed_parameter redefined_group : RouteError

pub data Compiled (A : Type 0) : Type 0 where
  ok : A → Compiled A
  err : RouteError → Compiled A

-- `[a-zA-Z_]`
unfoldable pub is_name_start : ℕ → Bool
is_name_start c = (leb b'a' c && leb c b'z') || (leb b'A' c && leb c b'Z') || c == b'_'

-- `[a-zA-Z0-9_]`
unfoldable pub is_name_char : ℕ → Bool
unfolding is_name_start
is_name_char c = is_name_start c || (leb b'0' c && leb c b'9')

-- The longest run of name characters, and what follows it.
unfoldable pub span_name : Text → Text × Text
unfolding is_name_char
span_name [] = ([], [])
span_name (c ∷ cs) =
    let (name, rest) = span_name cs in if is_name_char c then (c ∷ name, rest) else ([], c ∷ cs)

abbrev pub is_name : Text → Bool
is_name [] = false
is_name (c ∷ cs) = is_name_start c

abbrev pub str_text : Text
str_text = b's' ∷ b't' ∷ b'r' ∷ []

abbrev close_converter : Text → Text → Text → Option (Text × Text × ℕ)
close_converter name converter [] = none
close_converter name converter (c ∷ cs) =
    if is_name converter && c == b'}'
    then some (name, converter, length name + length converter + 2)
    else none

abbrev close_name : Text → Text → Option (Text × Text × ℕ)
close_name name [] = none
close_name name (c ∷ cs) =
    if c == b'}'
    then some (name, str_text, length name + 1)
    else if c == b':'
    then (let (converter, after) = span_name cs in close_converter name converter after)
    else none

-- One match of `_PARAMETER` behind its opening brace: the name, the converter (`str` if none is
-- written) and how many characters were read, the closing brace included.
unfoldable pub read_parameter : Text → Option (Text × Text × ℕ)
unfolding span_name
read_parameter text =
    let (name, rest) = span_name text in if is_name name then close_name name rest else none

-- `finditer`: the leftmost matches, from left to right; what stands between them is literal. The
-- first argument counts the characters of a match that are still to be passed over.
unfoldable pub pieces_from : ℕ → Text → List Piece
pieces_from skip [] = []
pieces_from (suc skip) (c ∷ cs) = pieces_from skip cs
pieces_from zero (c ∷ cs) =
    let plain = literal c ∷ pieces_from zero cs in
    if c == b'{'
    then elim (read_parameter cs) [
      | none ↦ plain
      | some (name, converter, read) ↦ parameter name converter ∷ pieces_from read cs
    ]
    else plain

unfoldable pub pieces : Text → List Piece
unfolding pieces_from
pieces path = pieces_from zero path

-- `_PARAMETER.search(path) is not None`
unfoldable pub has_parameter : List Piece → Bool
has_parameter [] = false
has_parameter (literal c ∷ ps) = has_parameter ps
has_parameter (parameter name converter ∷ ps) = true

-- The characters behind the last parameter.
unfoldable pub unparsed : List Piece → Text
unfolding has_parameter
unparsed [] = []
unparsed (parameter name converter ∷ ps) = unparsed ps
unparsed (literal c ∷ ps) = if has_parameter ps then unparsed ps else c ∷ unparsed ps

-- The names that `CONVERTERS` holds.
unfoldable pub converter_of : Text → Option Converter
converter_of name =
    if name == str_text
    then some str_converter
    else if name == b'i' ∷ b'n' ∷ b't' ∷ []
    then some int_converter
    else if name == b'f' ∷ b'l' ∷ b'o' ∷ b'a' ∷ b't' ∷ []
    then some float_converter
    else if name == b'u' ∷ b'u' ∷ b'i' ∷ b'd' ∷ []
    then some uuid_converter
    else if name == b'p' ∷ b'a' ∷ b't' ∷ b'h' ∷ []
    then some path_converter
    else none

-- The atoms of the compiled expression; a group captures its name.
pub data Atom : Type 0 where
  char : ℕ → Atom
  group : Text → Converter → Atom

abbrev pub cons_ok : Atom → Compiled (List Atom) → Compiled (List Atom)
cons_ok a (ok atoms) = ok (a ∷ atoms)
cons_ok a (err e) = err e

-- The loop over the parameters, which refuses the first unknown converter.
unfoldable pub compile_pieces : List Piece → Compiled (List Atom)
unfolding converter_of
compile_pieces [] = ok []
compile_pieces (literal c ∷ ps) = cons_ok (char c) (compile_pieces ps)
compile_pieces (parameter name converter ∷ ps) =
    let rest = compile_pieces ps in
    elim (converter_of converter) [
      | none ↦ err unknown_converter
      | some known ↦ cons_ok (group name known) rest
    ]

abbrev pub group_names : List Atom → List Text
group_names [] = []
group_names (char c ∷ atoms) = group_names atoms
group_names (group name converter ∷ atoms) = name ∷ group_names atoms

abbrev pub has_repeat : List Text → Bool
has_repeat [] = false
has_repeat (name ∷ names) = contains names name || has_repeat names

-- The check for a brace left over, and `re.compile`, which refuses a group defined twice.
abbrev pub finish : Text → Compiled (List Atom) → Compiled (List Atom)
finish rest (err e) = err e
finish rest (ok atoms) =
    if contains rest b'{' || contains rest b'}'
    then err malformed_parameter
    else if has_repeat (group_names atoms)
    then err redefined_group
    else ok atoms

unfoldable pub compile_path : Text → Compiled (List Atom)
unfolding compile_pieces unparsed pieces
compile_path path = finish (unparsed (pieces path)) (compile_pieces (pieces path))
