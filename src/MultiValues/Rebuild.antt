-- ===== src/MultiValues/Rebuild.antt =====
-- Building the parameters again from all their items gives them back.
use bustan.Prelude.{
  ◌≡◌, refl, sym, ap, ◌∙◌, false, none, some, List, [], ◌∷◌, ◌++◌, ◌==◌, list_eq, list_beq_iff,
  nat_eq, Text, arith, Bool-cases, inl, inr, beq_refl,
}
use mathlib.Core.List.{append_assoc, append-nil}
use bustan.OrderedDict.{get, set, has_key}
use bustan.OrderedDict.Lookup.{get-append}
use bustan.OrderedDict.Values.{Entries, Entries-set}
use bustan.OrderedDict.Distinct.{HasDistinctKeys, set-HasDistinctKeys}
use bustan.MultiValues.{
  Grouped, add_value, add_values, query_params, values_or_nil, under, multi_items,
}

set-new : (k : Text) (v : List Text) (d : Grouped) → get k d ≡ none → set k v d ≡ d ++ (k, v) ∷ []
unfolding get set
set-new k v [] absent = refl
set-new k v ((i, w) ∷ d) absent = elim (Bool-cases (i == k)) [
  | inl same ↦ absurd (ground (arith, absent, same))
  | inr other ↦ rw other (ap (λ l. (i, w) ∷ l) (set-new k v d (ground (arith, absent, other))))
]

set-last :
    (k : Text) (v w : List Text) (d : Grouped)
    → get k d ≡ none
    → set k v (d ++ (k, w) ∷ []) ≡ d ++ (k, v) ∷ []
unfolding get set
set-last k v w [] absent = rw (beq_refl k) refl
set-last k v w ((i, u) ∷ d) absent = elim (Bool-cases (i == k)) [
  | inl same ↦ absurd (ground (arith, absent, same))
  | inr other ↦ rw other (ap (λ l. (i, u) ∷ l) (set-last k v w d (ground (arith, absent, other))))
]

get-snoc :
    (k : Text) (w : List Text) (d : Grouped) → get k d ≡ none → get k (d ++ (k, w) ∷ []) ≡ some w
unfolding get
get-snoc k w d absent = ground (arith, get-append k d ((k, w) ∷ []), absent, beq_refl k)

add_values-append :
    (l m : List (Text × Text)) (d : Grouped) → add_values (l ++ m) d ≡ add_values m (add_values l d)
unfolding add_values
add_values-append [] m d = refl
add_values-append ((k, v) ∷ l) m d = add_values-append l m (add_value k v d)

-- More values of the key that was added last.
add_values-last :
    (k : Text) (w vs : List Text) (d : Grouped)
    → get k d ≡ none
    → add_values (under k vs) (d ++ (k, w) ∷ []) ≡ d ++ (k, w ++ vs) ∷ []
unfolding add_values add_value
add_values-last k w [] d absent = ap (λ l. d ++ (k, l) ∷ []) (sym (append-nil w))
add_values-last k w (v ∷ vs) d absent =
    ap (λ o. add_values (under k vs) (set k (values_or_nil o ++ v ∷ []) (d ++ (k, w) ∷ [])))
      (get-snoc k w d absent)
    ∙ ap (add_values (under k vs)) (set-last k (w ++ v ∷ []) w d absent)
    ∙ add_values-last k (w ++ v ∷ []) vs d absent
    ∙ ap (λ l. d ++ (k, l) ∷ []) (append_assoc w (v ∷ []) vs)

abbrev IsSome : Text → List Text → Type 0
IsSome key [] = ⊥
IsSome key (value ∷ values) = Unit

add_values-new :
    (k : Text) (vs : List Text) (d : Grouped)
    → IsSome k vs
    → get k d ≡ none
    → add_values (under k vs) d ≡ d ++ (k, vs) ∷ []
unfolding add_values add_value
add_values-new k [] d some_value absent = absurd some_value
add_values-new k (v ∷ vs) d some_value absent =
    ap (λ o. add_values (under k vs) (set k (values_or_nil o ++ v ∷ []) d)) absent
    ∙ ap (add_values (under k vs)) (set-new k (v ∷ []) d absent)
    ∙ add_values-last k (v ∷ []) vs d absent

-- No key of the second stands in the first.
abbrev IsApart : Grouped → Grouped → Type 0
IsApart d rest = Entries (λ k vs. get k d ≡ none) rest

IsApart-snoc :
    (d rest : Grouped) (k : Text) (vs : List Text)
    → has_key k rest ≡ false
    → IsApart d rest
    → IsApart (d ++ (k, vs) ∷ []) rest
unfolding has_key get
IsApart-snoc d [] k vs absent apart = tt
IsApart-snoc d ((i, us) ∷ rest) k vs absent apart = (
  ground
      (arith, get-append i d ((k, vs) ∷ []), apart.0, absent, list_beq_iff i k, list_beq_iff k i),
  IsApart-snoc d rest k vs (ground (arith, absent)) apart.1,
)

rebuild_from :
    (d rest : Grouped)
    → HasDistinctKeys rest
    → Entries IsSome rest
    → IsApart d rest
    → add_values (multi_items rest) d ≡ d ++ rest
unfolding multi_items add_values
rebuild_from d [] distinct filled apart = sym (append-nil d)
rebuild_from d ((k, vs) ∷ rest) distinct filled apart =
    add_values-append (under k vs) (multi_items rest) d
    ∙ ap (add_values (multi_items rest)) (add_values-new k vs d filled.0 apart.0)
    ∙ rebuild_from (d ++ (k, vs) ∷ []) rest distinct.1 filled.1
        (IsApart-snoc d rest k vs distinct.0 apart.1)
    ∙ append_assoc d ((k, vs) ∷ []) rest

IsSome-snoc : (k v : Text) (l : List Text) → IsSome k (l ++ v ∷ [])
IsSome-snoc k v [] = tt
IsSome-snoc k v (u ∷ l) = tt

add_values-IsGrouped :
    (items : List (Text × Text)) (d : Grouped)
    → HasDistinctKeys d
    → Entries IsSome d
    → HasDistinctKeys (add_values items d) × Entries IsSome (add_values items d)
unfolding add_values add_value
add_values-IsGrouped [] d distinct filled = (distinct, filled)
add_values-IsGrouped ((k, v) ∷ items) d distinct filled =
    add_values-IsGrouped items _ (set-HasDistinctKeys k _ d distinct)
      (Entries-set IsSome k _ d (IsSome-snoc k v (values_or_nil (get k d))) filled)

Entries-trivial : (rest : Grouped) → IsApart [] rest
unfolding get
Entries-trivial [] = tt
Entries-trivial ((k, vs) ∷ rest) = (refl, Entries-trivial rest)

-- Query parameters that are built again from all their key and value pairs are the same, in the order
-- of the keys and of the values under each.
pub query_params-multi_items :
    (items : List (Text × Text))
    → query_params (multi_items (query_params items)) ≡ query_params items
query_params-multi_items items =
    let fine = add_values-IsGrouped items [] tt tt in
    rebuild_from [] (query_params items) fine.0 fine.1 (Entries-trivial (query_params items))
