-- ===== src/ScopeManager.antt =====
-- `ScopeManager` and `InstanceTable` of kernel/ioc/scopes.py: the caches of each lifetime, and the
-- request, response and application that a resolution runs under.
--
-- An instance, a request, a controller class and a lock are named by numbers. A request's tables are
-- kept by reference, so that whoever was given one writes to the same table. A context variable is
-- its value in the running task, and a token holds the value that it had before.
mod Tests
pub mod Tables
pub mod Lifetimes
pub mod ControllerLocks
use bustan.Prelude.{
  ℕ, suc, Bool, Option, none, some, List, [], ◌∷◌, ◌==◌, nat_eq, list_eq, pair_eq, if◌then◌else◌,
}
use bustan.OrderedDict.{OrderedDict, get, set, remove}
use bustan.InstanceStore.{CacheKey, cached_under, BoundedInstanceStore, get_item, set_item}

-- `InstanceTable`, by the slots of its keys
abbrev pub InstanceTable : Type 0
InstanceTable = OrderedDict (List ℕ) ℕ

-- A controller class under the module that declares it
abbrev pub ControllerKey : Type 0
ControllerKey = ℕ × ℕ

-- What the manager keeps on `request.state`: references to the tables.
pub record RequestState : Type 0 where
  pub provider_cache : Option ℕ
  pub controller_cache : Option ℕ

pub record ScopeManager : Type 0 where
  pub singletons : InstanceTable
  pub controller_singletons : OrderedDict ControllerKey ℕ
  pub controller_singleton_locks : OrderedDict ControllerKey ℕ
  pub fresh_lock : ℕ
  pub durable_instances : BoundedInstanceStore
  pub active_request : Option ℕ
  pub active_response : Option ℕ
  pub active_application : Option ℕ
  pub request_states : ℕ → RequestState
  pub tables : ℕ → InstanceTable
  pub controller_tables : ℕ → OrderedDict ControllerKey ℕ
  pub fresh_table : ℕ

-- `none` is `CACHE_MISS` in `get_singleton` and `get_durable`.
unfoldable pub get_singleton : CacheKey → ScopeManager → Option ℕ
get_singleton key m = get (cached_under key) m.singletons

unfoldable pub set_singleton : CacheKey → ℕ → ScopeManager → ScopeManager
set_singleton key i m = record m { singletons = set (cached_under key) i m.singletons }

unfoldable pub get_controller_singleton : ControllerKey → ScopeManager → Option ℕ
get_controller_singleton key m = get key m.controller_singletons

unfoldable pub set_controller_singleton : ControllerKey → ℕ → ScopeManager → ScopeManager
set_controller_singleton key i m = record m {
  controller_singletons = set key i m.controller_singletons;
}

-- The lookup of `get_controller_singleton_lock`, before the guard is taken
unfoldable pub find_lock : ControllerKey → ScopeManager → Option ℕ
find_lock key m = get key m.controller_singleton_locks

-- A new lock, and its number for the next
unfoldable pub new_lock : ScopeManager → ℕ × ScopeManager
new_lock m = (m.fresh_lock, record m { fresh_lock = suc m.fresh_lock })

-- The write of `setdefault` on a key that it found missing
unfoldable pub store_lock : ControllerKey → ℕ → ScopeManager → ScopeManager
store_lock key lock m = record m {
  controller_singleton_locks = set key lock m.controller_singleton_locks;
}

-- What is done under the guard: the lock of the key is kept if there is one by now.
unfoldable pub setdefault_lock : ControllerKey → ScopeManager → ℕ × ScopeManager
setdefault_lock key m =
    let (lock, made) = new_lock m in
    elim (find_lock key made) [ some kept ↦ (kept, made) | none ↦ (lock, store_lock key lock made) ]

-- `get_controller_singleton_lock`, where no other thread interferes
unfoldable pub get_controller_singleton_lock : ControllerKey → ScopeManager → ℕ × ScopeManager
get_controller_singleton_lock key m = elim (find_lock key m) [
  | some lock ↦ (lock, m)
  | none ↦ setdefault_lock key m
]

-- `get_durable`: reading is a use.
unfoldable pub get_durable : CacheKey → ScopeManager → Option ℕ × ScopeManager
get_durable key m = elim (get_item key m.durable_instances) [
  | none ↦ (none, m)
  | some (i, after) ↦ (some i, record m { durable_instances = after })
]

unfoldable pub set_durable : CacheKey → ℕ → ScopeManager → ScopeManager
set_durable key i m = record m { durable_instances = set_item key i m.durable_instances }

-- `push_request` and `pop_request`: pushing no request changes nothing and hands out no token.
unfoldable pub push_request : Option ℕ → ScopeManager → Option (Option ℕ) × ScopeManager
push_request none m = (none, m)
push_request (some request) m = (some m.active_request, record m { active_request = some request })

unfoldable pub pop_request : Option (Option ℕ) → ScopeManager → ScopeManager
pop_request none m = m
pop_request (some before) m = record m { active_request = before }

unfoldable pub push_response : Option ℕ → ScopeManager → Option (Option ℕ) × ScopeManager
push_response none m = (none, m)
push_response (some response) m =
    (some m.active_response, record m { active_response = some response })

unfoldable pub pop_response : Option (Option ℕ) → ScopeManager → ScopeManager
pop_response none m = m
pop_response (some before) m = record m { active_response = before }

unfoldable pub push_application : Option ℕ → ScopeManager → Option (Option ℕ) × ScopeManager
push_application none m = (none, m)
push_application (some application) m =
    (some m.active_application, record m { active_application = some application })

unfoldable pub pop_application : Option (Option ℕ) → ScopeManager → ScopeManager
pop_application none m = m
pop_application (some before) m = record m { active_application = before }

unfoldable pub with_request : ℕ → RequestState → ScopeManager → ScopeManager
with_request request state m = record m {
  request_states = λ r. if request == r then state else m.request_states r;
}

-- A new `InstanceTable`, and a new table of controllers
unfoldable pub new_table : ScopeManager → ScopeManager
new_table m = record m {
  tables = λ t. if m.fresh_table == t then [] else m.tables t;
  fresh_table = suc m.fresh_table;
}

unfoldable pub new_controller_table : ScopeManager → ScopeManager
new_controller_table m = record m {
  controller_tables = λ t. if m.fresh_table == t then [] else m.controller_tables t;
  fresh_table = suc m.fresh_table;
}

-- `get_request_cache`: the reference on the request's state, which gets one to a new table when it
-- is first asked for.
unfoldable pub cache_or_new : ℕ → Option ℕ → ScopeManager → ℕ × ScopeManager
cache_or_new request (some cache) m = (cache, m)
cache_or_new request none m = (
  m.fresh_table,
  with_request request (record (m.request_states request) { provider_cache = some m.fresh_table })
      (new_table m),
)

unfoldable pub get_request_cache : ℕ → ScopeManager → ℕ × ScopeManager
get_request_cache request m = cache_or_new request (m.request_states request).provider_cache m

-- `InstanceTable.__getitem__` and `InstanceTable.__setitem__`, of the table that is referred to
unfoldable pub table_get : ℕ → CacheKey → ScopeManager → Option ℕ
table_get cache key m = get (cached_under key) (m.tables cache)

unfoldable pub table_set : ℕ → CacheKey → ℕ → ScopeManager → ScopeManager
table_set cache key i m =
    let written = set (cached_under key) i (m.tables cache) in
    record m { tables = λ t. if cache == t then written else m.tables t }

-- `InstanceCache.keep` of a slot in such a table: a slot that was filled meanwhile keeps what it
-- holds.
unfoldable pub keep_found : ℕ → CacheKey → ℕ → Option ℕ → ScopeManager → ℕ × ScopeManager
keep_found cache key i (some kept) m = (kept, m)
keep_found cache key i none m = (i, table_set cache key i m)

unfoldable pub keep_instance : ℕ → CacheKey → ℕ → ScopeManager → ℕ × ScopeManager
keep_instance cache key i m = keep_found cache key i (table_get cache key m) m

-- `get_request_controller_cache`
unfoldable pub get_request_controller_cache : ℕ → ScopeManager → ℕ × ScopeManager
get_request_controller_cache request m =
    let state = m.request_states request in
    elim state.controller_cache [
      | some cache ↦ (cache, m)
      | none ↦ (
        m.fresh_table,
        with_request request (record state { controller_cache = some m.fresh_table })
            (new_controller_table m),
      )
    ]

-- `clear_request_state`
unfoldable pub clear_request_state : Option ℕ → ScopeManager → ScopeManager
clear_request_state none m = m
clear_request_state (some request) m =
    with_request request (record { provider_cache = none; controller_cache = none }) m

-- `clear_controller_singletons`
unfoldable pub clear_controller_singletons : ScopeManager → ScopeManager
clear_controller_singletons m = record m { controller_singletons = [] }
