-- ===== src/MultiValues/Grouping.antt =====
-- What the dictionaries hold against the items in the order of their arrival.
use bustan.Prelude.{
  ◌≡◌, refl, sym, ap, ◌∙◌, Bool, true, false, List, [], ◌∷◌, ◌++◌, ◌==◌, list_eq, nat_eq, Text, map,
  lower, Bool-cases, Option-cases, inl, inr, beq→eq, if◌then◌else◌,
}
use mathlib.Core.List.{append_assoc, append-nil}
use bustan.OrderedDict.{get}
use bustan.OrderedDict.Lookup.{get-set}
use bustan.MultiValues.{
  Grouped, add_value, add_values, query_params, getlist, get_last, last_of, values_or_nil,
  header_values, header_list, fold_name,
}

-- The values that arrived under a key.
abbrev pub values_under : Text → List (Text × Text) → List Text
values_under key [] = []
values_under key ((k, value) ∷ items) =
    let rest = values_under key items in if k == key then value ∷ rest else rest

getlist-add_value :
    (key k value : Text) (grouped : Grouped)
    → getlist key (add_value k value grouped)
      ≡ (if k == key then getlist key grouped ++ value ∷ [] else getlist key grouped)
unfolding getlist add_value
getlist-add_value key k value grouped =
    let looked = get-set k key (values_or_nil (get k grouped) ++ value ∷ []) grouped in
    elim (Bool-cases (k == key)) [
      | inl same ↦
          let one : k ≡ key = beq→eq same in
          rw (looked, same) (ap (λ q. values_or_nil (get q grouped) ++ value ∷ []) one)
      | inr other ↦ rw (looked, other) refl
    ]

one_more :
    (same : Bool) (l : List Text) (value : Text) (rest : List Text)
    → (if same then l ++ value ∷ [] else l) ++ rest ≡ l ++ (if same then value ∷ rest else rest)
one_more true l value rest = append_assoc l (value ∷ []) rest
one_more false l value rest = refl

getlist-add_values :
    (key : Text) (items : List (Text × Text)) (grouped : Grouped)
    → getlist key (add_values items grouped) ≡ getlist key grouped ++ values_under key items
unfolding add_values
getlist-add_values key [] grouped = sym (append-nil (getlist key grouped))
getlist-add_values key ((k, value) ∷ items) grouped =
    getlist-add_values key items (add_value k value grouped)
    ∙ ap (λ l. l ++ values_under key items) (getlist-add_value key k value grouped)
    ∙ one_more (k == key) (getlist key grouped) value (values_under key items)

get_last-getlist :
    (key : Text) (grouped : Grouped) → get_last key grouped ≡ last_of (getlist key grouped)
unfolding get_last getlist
get_last-getlist key grouped = elim (Option-cases (get key grouped)) [
  | inl missing ↦ rw (missing, get_last) refl
  | inr (values, found) ↦ rw (found, get_last) refl
]

-- Query parameters list the values of a key as they arrived, and the last of them is what the key
-- alone gives; a header's are those of every spelling of its name.
pub getlist-query_params :
    (key : Text) (items : List (Text × Text))
    → (getlist key (query_params items) ≡ values_under key items)
      × (get_last key (query_params items) ≡ last_of (values_under key items))
      × (header_list key (header_values items) ≡ values_under (lower key) (map fold_name items))
unfolding getlist get
getlist-query_params key items = (
  getlist-add_values key items [],
  get_last-getlist key (query_params items) ∙ ap last_of (getlist-add_values key items []),
  getlist-add_values (lower key) (map fold_name items) [],
)
