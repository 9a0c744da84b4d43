-- ===== src/MultiValues.antt =====
-- `QueryParams` and `Headers` of src/bustan/contracts/values.py: dictionaries of all the values that
-- arrived under a key. Decoding the query string is the standard library's `parse_qsl`; what it returns
-- is where the model begins.
pub mod Grouping
pub mod Rebuild
mod Tests
use bustan.Prelude.{
  Bool, Option, none, some, List, [], ◌∷◌, ◌++◌, ◌==◌, list_eq, nat_eq, Text, map, lower,
}
use bustan.OrderedDict.{OrderedDict, get, set, has_key}

abbrev pub Grouped : Type 0
Grouped = OrderedDict Text (List Text)

abbrev pub values_or_nil : Option (List Text) → List Text
values_or_nil none = []
values_or_nil (some values) = values

-- `grouped.setdefault(key, []).append(value)`
unfoldable pub add_value : Text → Text → Grouped → Grouped
add_value key value grouped = set key (values_or_nil (get key grouped) ++ value ∷ []) grouped

unfoldable pub add_values : List (Text × Text) → Grouped → Grouped
add_values [] grouped = grouped
add_values ((key, value) ∷ items) grouped = add_values items (add_value key value grouped)

-- `QueryParams.__init__`
abbrev pub query_params : List (Text × Text) → Grouped
query_params items = add_values items []

-- `QueryParams.getlist`
unfoldable pub getlist : Text → Grouped → List Text
getlist key grouped = values_or_nil (get key grouped)

abbrev pub last_of : List Text → Option Text
last_of [] = none
last_of (value ∷ []) = some value
last_of (value ∷ next ∷ values) = last_of (next ∷ values)

-- `QueryParams.get`, `none` for the default
unfoldable pub get_last : Text → Grouped → Option Text
get_last key grouped = elim (get key grouped) [ none ↦ none | some values ↦ last_of values ]

abbrev pub under : Text → List Text → List (Text × Text)
under key [] = []
under key (value ∷ values) = (key, value) ∷ under key values

-- `QueryParams.multi_items`
unfoldable pub multi_items : Grouped → List (Text × Text)
multi_items [] = []
multi_items ((key, values) ∷ grouped) = under key values ++ multi_items grouped

abbrev pub fold_name : Text × Text → Text × Text
fold_name (name, value) = (lower name, value)

-- `Headers.__init__`, its values; names of headers are ASCII.
abbrev pub header_values : List (Text × Text) → Grouped
header_values items = add_values (map fold_name items) []

-- `Headers.getlist`
abbrev pub header_list : Text → Grouped → List Text
header_list name grouped = getlist (lower name) grouped
