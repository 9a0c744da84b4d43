-- ===== src/InstanceStore.antt =====
-- `BoundedInstanceStore` of kernel/ioc/scopes.py: the cache of durable instances, which drops the one
-- that was used longest ago. Every operation runs under the store's lock, and so in one step.
--
-- A token is its value and its type: Python's `==` may hold between tokens of two types. A module
-- key, a value, a type and a part of a partition are named by numbers.
mod Tests
pub mod Laws
use bustan.Prelude.{
  ℕ, ◌≡◌, Option, none, some, List, [], ◌∷◌, ◌==◌, nat_eq, list_eq, ltb, if◌then◌else◌,
}
use bustan.OrderedDict.{OrderedDict, get, set, remove, move_to_end, trim, has_key}

pub record TokenObject : Type 0 where
  pub token_type : ℕ
  pub value : ℕ

pub record CacheKey : Type 0 where
  pub module_key : ℕ
  pub token : TokenObject
  pub partition : List ℕ

-- `_cached_under`: the token half by its type and its value.
unfoldable pub cached_under : CacheKey → List ℕ
cached_under key = key.module_key ∷ key.token.token_type ∷ key.token.value ∷ key.partition

pub record BoundedInstanceStore : Type 0 where
  pub limit : ℕ
  pub entries : OrderedDict (List ℕ) ℕ

-- `__init__`: `none` is the `ValueError`.
unfoldable pub create : ℕ → Option BoundedInstanceStore
create limit = if ltb limit 1 then none else some (record { limit = limit; entries = [] })

-- `__getitem__`, where `none` is the `KeyError`: reading is a use.
unfoldable pub get_item : CacheKey → BoundedInstanceStore → Option (ℕ × BoundedInstanceStore)
get_item key s = elim (get (cached_under key) s.entries) [
  | none ↦ none
  | some instance_id ↦
      some (instance_id, record s { entries = move_to_end (cached_under key) s.entries })
]

-- `__setitem__`
unfoldable pub set_item : CacheKey → ℕ → BoundedInstanceStore → BoundedInstanceStore
set_item key instance_id s =
    let slot = cached_under key in
    record s { entries = trim s.limit (move_to_end slot (set slot instance_id s.entries)) }

-- `__delitem__`
unfoldable pub del_item : CacheKey → BoundedInstanceStore → Option BoundedInstanceStore
del_item key s =
    let slot = cached_under key in
    if has_key slot s.entries then some (record s { entries = remove slot s.entries }) else none
