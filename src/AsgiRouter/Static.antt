-- ===== src/AsgiRouter/Static.antt =====
-- A route with no parameter matches its own path, that path with a newline behind it, and no other.
use bustan.Prelude.{
  zero, true, false, ◌||◌, none, some, List, [], ◌∷◌, ◌++◌, ◌==◌, nat_eq, list_eq, Text, ◌≡◌, refl,
  ap, arith, if◌then◌else◌, map, Option-cases, inl, inr, nat_beq_iff, list_beq_iff, beq_refl,
}
use bustan.AsgiRouter.Template.{
  literal, Atom, char, Compiled, ok, err, compile_path, compile_pieces, pieces, pieces_from,
  has_parameter, read_parameter, finish, unparsed, cons_ok,
}
use bustan.AsgiRouter.Pattern.{match_atoms}
use bustan.AsgiRouter.Table.{AsgiRoute, match, is_static, ends_with}

-- The route that `AsgiRoute.__init__` builds for its path.
abbrev pub IsBuilt : AsgiRoute → Type 0
IsBuilt route = compile_path route.path ≡ ok route.pattern

pieces_from_plain :
    (path : Text)
    → has_parameter (pieces_from zero path) ≡ false
    → pieces_from zero path ≡ map literal path
unfolding pieces_from has_parameter
pieces_from_plain [] h = refl
pieces_from_plain (c ∷ cs) h = elim (Option-cases (read_parameter cs)) [
  | inl absent ↦ ground (arith, absent, pieces_from_plain cs)
  | inr (found, e) ↦ ground (arith, e, pieces_from_plain cs)
]

compile_plain : (path : Text) → compile_pieces (map literal path) ≡ ok (map char path)
unfolding compile_pieces
compile_plain [] = refl
compile_plain (c ∷ cs) = ap (cons_ok (char c)) (compile_plain cs)

match_plain :
    (path text : Text)
    → match_atoms (map char path) text
      ≡ (if text == path || text == path ++ 10 ∷ [] then some [] else none)
unfolding match_atoms
match_plain [] text = refl
match_plain (c ∷ path) [] = refl
match_plain (c ∷ path) (d ∷ text) =
    ground (arith, nat_beq_iff c d, nat_beq_iff d c, match_plain path text)

-- A template that compiles compiles to its own atoms.
finish-eq-ok :
    (rest : Text) (r : Compiled (List Atom)) (atoms : List Atom)
    → finish rest r ≡ ok atoms
    → r ≡ ok atoms
finish-eq-ok rest (err e) atoms h = cc
finish-eq-ok rest (ok found) atoms h = ground arith

is_static_parts :
    (path : Text)
    → is_static path ≡ true
    → (has_parameter (pieces path) ≡ false) × (ends_with path 10 ≡ false)
unfolding is_static
is_static_parts path st = ground arith

static_pattern :
    (route : AsgiRoute)
    → IsBuilt route
    → is_static route.path ≡ true
    → route.pattern ≡ map char route.path
static_pattern route built st =
    let plain : pieces route.path ≡ map literal route.path =
      unfold pieces in
      pieces_from_plain route.path (unfold pieces in (is_static_parts route.path st).0) in
    let compiled : compile_pieces (pieces route.path) ≡ ok route.pattern =
      finish-eq-ok (unparsed (pieces route.path)) (compile_pieces (pieces route.path)) route.pattern
        (unfold compile_path in built) in
    cc (ap compile_pieces plain, compile_plain route.path, compiled)

-- A static route answers just its path and its path with a newline.
pub match-static :
    (route : AsgiRoute) (text : Text)
    → IsBuilt route
    → is_static route.path ≡ true
    → match route text
      ≡ (if text == route.path || text == route.path ++ 10 ∷ [] then some [] else none)
unfolding match
match-static route text built st = rw (static_pattern route built st) (match_plain route.path text)

ends_with-snoc : (path : Text) → ends_with (path ++ 10 ∷ []) 10 ≡ true
ends_with-snoc [] = refl
ends_with-snoc (c ∷ []) = refl
ends_with-snoc (c ∷ d ∷ path) = ends_with-snoc (d ∷ path)

-- Among static paths it answers its own only.
pub match-static_ne :
    (route : AsgiRoute) (text : Text)
    → IsBuilt route
    → is_static route.path ≡ true
    → is_static text ≡ true
    → (route.path == text) ≡ false
    → match route text ≡ none
match-static_ne route text built st st' other = rw (match-static route text built st) (
    ground (
      arith,
      list_beq_iff route.path text,
      list_beq_iff text route.path,
      list_beq_iff text (route.path ++ 10 ∷ []),
      ends_with-snoc route.path,
      (is_static_parts text st').1,
    ))

pub match-static_self :
    (route : AsgiRoute)
    → IsBuilt route
    → is_static route.path ≡ true
    → match route route.path ≡ some []
match-static_self route built st = rw (match-static route route.path built st, beq_refl route.path)
