-- ===== src/OrderedDict.antt =====
-- Python's `dict` and `collections.OrderedDict`, as an association list in insertion order: the
-- oldest entry stands first. The operations are those that the framework calls.
pub mod Lookup
pub mod Distinct
pub mod Values
use bustan.Prelude.{
  ℕ, Bool, false, Option, none, some, List, [], ◌∷◌, ◌++◌, map, Eq, ◌==◌, ltb, length,
  if◌then◌else◌, ◌||◌,
}

abbrev pub OrderedDict {ℓ κ} : Type ℓ → Type κ → Type (ℓ ⊔ κ)
OrderedDict K V = List (K × V)

module _ {ℓ κ} {K : Type ℓ} {V : Type κ} ⦃e : Eq K⦄ where
  -- `d.get(k)`
  unfoldable pub get : K → OrderedDict K V → Option V
  get k [] = none
  get k ((j, v) ∷ d) = if j == k then some v else get k d

  -- `k in d`
  unfoldable pub has_key : K → OrderedDict K V → Bool
  has_key k [] = false
  has_key k ((j, v) ∷ d) = j == k || has_key k d

  -- `d[k] = v`: a key that is there keeps its place, a new one goes to the end.
  unfoldable pub set : K → V → OrderedDict K V → OrderedDict K V
  set k v [] = (k, v) ∷ []
  set k v ((j, w) ∷ d) = let rest = set k v d in if j == k then (j, v) ∷ d else (j, w) ∷ rest

  -- `d.pop(k, None)`
  unfoldable pub remove : K → OrderedDict K V → OrderedDict K V
  remove k [] = []
  remove k ((j, w) ∷ d) = let rest = remove k d in if j == k then rest else (j, w) ∷ rest

  -- `d.move_to_end(k)`; the framework calls it only with a key that is there.
  unfoldable pub move_to_end : K → OrderedDict K V → OrderedDict K V
  move_to_end k d = elim (get k d) [ none ↦ d | some v ↦ remove k d ++ (k, v) ∷ [] ]

-- `while len(d) > n: d.popitem(last=False)`
unfoldable pub trim {ℓ κ} : {K : Type ℓ} {V : Type κ} → ℕ → OrderedDict K V → OrderedDict K V
trim n [] = []
trim n (x ∷ d) = let rest = trim n d in if ltb n (length (x ∷ d)) then rest else x ∷ d
