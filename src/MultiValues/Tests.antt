-- ===== src/MultiValues/Tests.antt =====
-- A query that repeats a key, and the theorems at it.
use bustan.Prelude.{◌≡◌, refl, none, some, List, [], ◌∷◌, list_eq, nat_eq, Text, map, lower}
use bustan.OrderedDict.{get, set}
use bustan.MultiValues.{
  add_value, add_values, query_params, getlist, get_last, last_of, multi_items, header_values,
  header_list, fold_name,
}
use bustan.MultiValues.Grouping.{values_under, getlist-query_params}
use bustan.MultiValues.Rebuild.{query_params-multi_items}

program : Unit {0}
unfolding get set add_value add_values getlist get_last multi_items
program = tt

abbrev items : List (Text × Text)
items =
    (b'A' ∷ [], b'1' ∷ [])
    ∷ (b'b' ∷ [], b'2' ∷ [])
    ∷ (b'A' ∷ [], b'3' ∷ [])
    ∷ (b'a' ∷ [], b'4' ∷ [])
    ∷ []

repeated :
    (getlist (b'A' ∷ []) (query_params items) ≡ (b'1' ∷ []) ∷ (b'3' ∷ []) ∷ [])
    × (get_last (b'A' ∷ []) (query_params items) ≡ some (b'3' ∷ []))
    × (get_last (b'c' ∷ []) (query_params items) ≡ none)
    × (header_list (b'A' ∷ []) (header_values items) ≡ (b'1' ∷ []) ∷ (b'3' ∷ []) ∷ (b'4' ∷ []) ∷ [])
unfolding program
repeated = (refl, refl, refl, refl)

getlist-query_params_example :
    (getlist (b'A' ∷ []) (query_params items) ≡ values_under (b'A' ∷ []) items)
    × (get_last (b'A' ∷ []) (query_params items) ≡ last_of (values_under (b'A' ∷ []) items))
    × (header_list (b'A' ∷ []) (header_values items)
        ≡ values_under (lower (b'A' ∷ [])) (map fold_name items))
getlist-query_params_example = getlist-query_params (b'A' ∷ []) items

query_params-multi_items_example :
    query_params (multi_items (query_params items)) ≡ query_params items
query_params-multi_items_example = query_params-multi_items items
