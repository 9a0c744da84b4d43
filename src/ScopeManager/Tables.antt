-- ===== src/ScopeManager/Tables.antt =====
-- The tables of requests: who refers to them, and what a write to one changes.
use bustan.Prelude.{
  ℕ, [], ◌<◌, ◌≡◌, ◌≢◌, refl, ap, ◌∙◌, Option, none, some, ◌==◌, nat_eq, list_eq, pair_eq, beq_refl,
  ne→beq, Bool-cases, inl, inr, if◌then◌else◌, arith,
}
use bustan.OrderedDict.{get, set}
use bustan.OrderedDict.Lookup.{get-set}
use bustan.InstanceStore.{CacheKey, cached_under}
use bustan.ScopeManager.{
  ScopeManager, RequestState, cache_or_new, get_request_cache, new_table, table_get, table_set,
  keep_found, clear_request_state, with_request,
}

-- The instance that a request's cache holds under a key
unfoldable pub in_request : ℕ → CacheKey → ScopeManager → Option ℕ
in_request request key m =
    let (cache, after) = get_request_cache request m in table_get cache key after

-- Requests have tables of their own, all of them made already.
pub record AreSeparate (states : ℕ → RequestState) (fresh : ℕ) : Type 0 where
  pub made : (r t : ℕ) → (states r).provider_cache ≡ some t → t < fresh
  pub own :
      (r s t : ℕ) → (states r).provider_cache ≡ some t → (states s).provider_cache ≡ some t → r ≡ s

abbrev pub IsSeparate : ScopeManager → Type 0
IsSeparate m = AreSeparate m.request_states m.fresh_table

pub with_request-other :
    (request other : ℕ) (state : RequestState) (m : ScopeManager)
    → request ≢ other
    → (with_request request state m).request_states other ≡ m.request_states other
unfolding with_request
with_request-other request other state m differs =
    ap (λ b. if b then state else m.request_states other) (ne→beq differs)

pub with_request-same :
    (request : ℕ) (state : RequestState) (m : ScopeManager)
    → (with_request request state m).request_states request ≡ state
unfolding with_request
with_request-same request state m =
    ap (λ b. if b then state else m.request_states request) (beq_refl request)

-- What a reference that may be missing reads
abbrev pub read : CacheKey → ScopeManager → Option ℕ → Option ℕ
read key m none = none
read key m (some cache) = table_get cache key m

pub read-cache_or_new :
    (request : ℕ) (key : CacheKey) (found : Option ℕ) (m : ScopeManager)
    → let (cache, after) = cache_or_new request found m in
      table_get cache key after ≡ read key m found
unfolding cache_or_new table_get new_table with_request get
read-cache_or_new request key (some cache) m = refl
read-cache_or_new request key none m =
    ap (λ b. get (cached_under key) (if b then [] else m.tables m.fresh_table))
      (beq_refl m.fresh_table)

pub in_request-eq :
    (request : ℕ) (key : CacheKey) (m : ScopeManager)
    → in_request request key m ≡ read key m (m.request_states request).provider_cache
unfolding in_request get_request_cache
in_request-eq request key m =
    read-cache_or_new request key (m.request_states request).provider_cache m

pub cache_or_new-held :
    (request : ℕ) (found : Option ℕ) (m : ScopeManager)
    → (m.request_states request).provider_cache ≡ found
    → let (cache, after) = cache_or_new request found m in
      (after.request_states request).provider_cache ≡ some cache
unfolding cache_or_new new_table
cache_or_new-held request (some cache) m held = held
cache_or_new-held request none m held =
    ap (λ (state : RequestState). state.provider_cache) (with_request-same request _ (new_table m))

pub cache_or_new-other :
    (request other : ℕ) (found : Option ℕ) (m : ScopeManager)
    → request ≢ other
    → (cache_or_new request found m).1.request_states other ≡ m.request_states other
unfolding cache_or_new new_table
cache_or_new-other request other (some cache) m differs = refl
cache_or_new-other request other none m differs =
    with_request-other request other _ (new_table m) differs

-- The tables that were made already are left alone.
pub cache_or_new-tables :
    (request t : ℕ) (found : Option ℕ) (m : ScopeManager)
    → t < m.fresh_table
    → (cache_or_new request found m).1.tables t ≡ m.tables t
unfolding cache_or_new new_table with_request
cache_or_new-tables request t (some cache) m old = refl
cache_or_new-tables request t none m old =
    let differs : m.fresh_table ≢ t = λ same. omega (arith, same, old) in
    ap (λ b. if b then [] else m.tables t) (ne→beq differs)

pub provider_cache-with_request :
    (request r : ℕ) (state : RequestState) (m : ScopeManager)
    → ((with_request request state m).request_states r).provider_cache
      ≡ (if request == r then state.provider_cache else (m.request_states r).provider_cache)
unfolding with_request
provider_cache-with_request request r state m = elim (Bool-cases (request == r)) [
  | inl same ↦ rw same refl
  | inr other ↦ rw other refl
]

pub cache_or_new-IsSeparate :
    (request : ℕ) (found : Option ℕ) (m : ScopeManager)
    → IsSeparate m
    → IsSeparate (cache_or_new request found m).1
unfolding cache_or_new new_table
cache_or_new-IsSeparate request (some cache) m h = h
cache_or_new-IsSeparate request none m h =
    let state : RequestState = record (m.request_states request) {
      provider_cache = some m.fresh_table;
    } in
    let at = λ (r : ℕ). provider_cache-with_request request r state (new_table m) in
    record {
      made = λ r t e. unfold with_request in ground (arith, at r, e, h.made r t);
      own = λ r s t e f. ground (
        arith,
        at r,
        at s,
        e,
        f,
        h.made r t,
        h.made s t,
        h.own r s t,
        nat_eq.beq_iff request r,
        nat_eq.beq_iff request s,
      );
    }

pub clear_request_state-IsSeparate :
    (request : ℕ) (m : ScopeManager)
    → IsSeparate m
    → IsSeparate (clear_request_state (some request) m)
unfolding clear_request_state
clear_request_state-IsSeparate request m h =
    let state : RequestState = record { provider_cache = none; controller_cache = none } in
    let at = λ (r : ℕ). provider_cache-with_request request r state m in
    record {
      made = λ r t e. unfold with_request in ground (arith, at r, e, h.made r t);
      own = λ r s t e f. ground (arith, at r, at s, e, f, h.own r s t);
    }

pub clear_request_state-in_request :
    (request : ℕ) (key : CacheKey) (m : ScopeManager)
    → in_request request key (clear_request_state (some request) m) ≡ none
unfolding clear_request_state
clear_request_state-in_request request key m =
    let state : RequestState = record { provider_cache = none; controller_cache = none } in
    let after = with_request request state m in
    in_request-eq request key after
    ∙ ap (λ (s : RequestState). read key after s.provider_cache) (with_request-same request state m)

-- A slot that keeps an instance changes its own table only.
pub keep_found-states :
    (cache : ℕ) (key : CacheKey) (i : ℕ) (found : Option ℕ) (m : ScopeManager)
    → ((keep_found cache key i found m).1.request_states ≡ m.request_states)
      × ((keep_found cache key i found m).1.fresh_table ≡ m.fresh_table)
unfolding keep_found table_set
keep_found-states cache key i (some kept) m = (refl, refl)
keep_found-states cache key i none m = (refl, refl)

pub keep_found-tables :
    (cache t : ℕ) (key : CacheKey) (i : ℕ) (found : Option ℕ) (m : ScopeManager)
    → cache ≢ t
    → (keep_found cache key i found m).1.tables t ≡ m.tables t
unfolding keep_found table_set
keep_found-tables cache t key i (some kept) m differs = refl
keep_found-tables cache t key i none m differs =
    ap (λ b. if b then set (cached_under key) i (m.tables cache) else m.tables t) (ne→beq differs)

pub keep_found-kept :
    (cache : ℕ) (key : CacheKey) (i : ℕ) (found : Option ℕ) (m : ScopeManager)
    → table_get cache key m ≡ found
    → let (kept, after) = keep_found cache key i found m in table_get cache key after ≡ some kept
unfolding keep_found table_set table_get
keep_found-kept cache key i (some kept) m held = held
keep_found-kept cache key i none m held =
    let slot = cached_under key in
    ap (λ b. get slot (if b then set slot i (m.tables cache) else m.tables cache)) (beq_refl cache)
    ∙ get-set slot slot i (m.tables cache)
    ∙ ap (λ b. if b then some i else get slot (m.tables cache)) (beq_refl slot)
