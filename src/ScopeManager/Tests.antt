-- ===== src/ScopeManager/Tests.antt =====
-- A manager with nothing cached, and the theorems of the lifetimes at it.
use bustan.Prelude.{ℕ, ◌≡◌, refl, none, some, [], ◌∷◌, nat_eq, list_eq, pair_eq, arith}
use bustan.OrderedDict.{get, set}
use bustan.InstanceStore.{CacheKey}
use bustan.ScopeManager.{
  ScopeManager, find_lock, new_lock, store_lock, get_request_cache, keep_instance,
  clear_request_state, push_request, pop_request,
}
use bustan.ScopeManager.Tables.{in_request, IsSeparate}
use bustan.ScopeManager.Lifetimes.{held_or, keep_instance-in_request}
use bustan.ScopeManager.ControllerLocks.{
  Threads, misses, enters, lacks, keeps, stores, Reach, here, next, one_lock,
}

abbrev manager : ScopeManager
manager = record {
  singletons = [];
  controller_singletons = [];
  controller_singleton_locks = [];
  fresh_lock = 0;
  durable_instances = record { limit = 128; entries = [] };
  active_request = none;
  active_response = none;
  active_application = none;
  request_states = λ _. record { provider_cache = none; controller_cache = none };
  tables = λ _. [];
  controller_tables = λ _. [];
  fresh_table = 0;
}

abbrev key : CacheKey
key = record { module_key = 1; token = record { token_type = 0; value = 5 }; partition = [] }

manager-IsSeparate : IsSeparate manager
manager-IsSeparate = record { made = λ r t e. cc; own = λ r s t e f. cc }

keep_instance-in_request_example :
    let (mine, begun) = get_request_cache 1 manager in
    let (yours, ready) = get_request_cache 1 begun in
    let (kept, after) = keep_instance mine key 9 ready in
    let cleared = clear_request_state (some 1) after in
    (kept ≡ held_or 9 (in_request 1 key manager))
    × ((keep_instance yours key 8 after).0 ≡ kept)
    × (in_request 1 key after ≡ some kept)
    × (in_request 2 key after ≡ in_request 2 key manager)
    × (in_request 1 key cleared ≡ none)
    × IsSeparate after
    × IsSeparate cleared
keep_instance-in_request_example =
    keep_instance-in_request 1 2 key key 9 8 manager manager-IsSeparate (omega arith)

-- Two threads that both miss the lock of one controller: the second keeps what the first stored.
abbrev fresh : Threads
fresh = record { manager = manager; waiting = []; inside = []; handed = [] }

abbrev raced : Threads
raced = record {
  manager = record manager { controller_singleton_locks = ((1, 2), 0) ∷ []; fresh_lock = 2 };
  waiting = [];
  inside = [];
  handed = ((1, 2), 0) ∷ ((1, 2), 0) ∷ [];
}

reaches_raced : Reach fresh raced
unfolding get set find_lock new_lock store_lock
reaches_raced =
    next
      (next
        (next
          (next
            (next (next (next here (misses (1, 2) refl)) (misses (1, 2) refl))
              (enters [] ((1, 2) ∷ []) (1, 2) refl refl))
            (lacks [] [] (1, 2) refl refl))
          (stores [] [] (1, 2) 0 refl))
        (enters [] [] (1, 2) refl refl))
      (keeps [] [] (1, 2) 0 refl refl)

abbrev first_lock : ℕ
first_lock = 0

one_lock_example : first_lock ≡ 0
one_lock_example = one_lock fresh raced [] [] [] (1, 2) first_lock 0 refl refl reaches_raced refl

-- Popping what was pushed gives back what was active.
popped : pop_request (push_request (some 4) manager).0 (push_request (some 4) manager).1 ≡ manager
unfolding push_request pop_request
popped = refl
