-- ===== src/Replay/Tests.antt =====
-- A payment that is retried and a page that is cached, and the theorems at them.
use bustan.Prelude.{
  ℕ, ◌+◌, ◌≡◌, ◌≤◌, ◌<◌, refl, true, none, some, List, [], ◌∷◌, list_eq, nat_eq, Text, arith,
  contains, upper, Result, ok, err, length,
}
use bustan.OrderedDict.{get, set, remove, move_to_end}
use bustan.Replay.Results.{
  ReplayKey, Recorded, RecordedResults, new_results, drop_stale, answer, record_result,
}
use bustan.Replay.Runs.{Use, records, asks, use_all, log_all, answer-logged, answer-record_result}
use bustan.Replay.Interceptors.{
  CallContext, ServedRequest, caller_of, safe_methods, cacheable_key, presented_idempotency_key,
  intercept_cached, intercept_attempt,
}
use bustan.Replay.Retries.{intercept_attempt-again, intercept_attempt-failed}
use bustan.Replay.Keys.{cacheable_key-same}

program : Unit {0}
unfolding get set remove move_to_end drop_stale answer record_result cacheable_key
    presented_idempotency_key intercept_cached intercept_attempt
program = tt

abbrev key : ReplayKey
key = (b'k' ∷ []) ∷ []

abbrev other_key : ReplayKey
other_key = (b'o' ∷ []) ∷ []

-- The second result replaces the first; the other key's makes the store full.
abbrev uses : List (Use ℕ)
uses = records 0 key 7 5 ∷ records 1 key 8 5 ∷ asks 2 key ∷ records 2 other_key 9 5 ∷ []

abbrev last : Recorded ℕ
last = record { value = 8; expires_at = 6 }

abbrev store : RecordedResults ℕ
store = use_all uses (new_results 2)

answered : answer 3 key store ≡ (some last, store)
unfolding program
answered = refl

expired : (answer 6 key store).0 ≡ none
unfolding program
expired = refl

evicted : (answer 3 key (record_result 3 ((b'n' ∷ []) ∷ []) 1 5 store)).0 ≡ none
unfolding program
evicted = refl

roomy : 0 < store.limit
unfolding program
roomy = omega arith

answer-logged_example :
    (length store.entries ≤ 2) × (log_all uses (λ k. none) key ≡ some last) × (3 < 6)
answer-logged_example = answer-logged 2 uses 3 key last store answered

answer-record_result_example :
    answer 4 key (record_result 3 key 1 5 store)
    ≡ (some (record { value = 1; expires_at = 8 }), record_result 3 key 1 5 store)
answer-record_result_example =
    answer-record_result 3 4 5 key 1 store roomy (omega arith) (omega arith)

-- The world counts how often a handler ran.
abbrev charges : ℕ → Result ℕ ℕ × ℕ
charges ran = (ok 50, ran + 1)

abbrev fails : ℕ → Result ℕ ℕ × ℕ
fails ran = (err 500, ran + 1)

abbrev header_name : Text
header_name = b'I' ∷ b'd' ∷ []

abbrev context : CallContext
context = record {
  route = (b'm' ∷ [], b'f' ∷ []);
  request = some (record {
    method = b'g' ∷ b'e' ∷ b't' ∷ [];
    path = b'/' ∷ [];
    query_string = some [];
    headers = λ name. some (b'x' ∷ []);
  });
  principal = some (some (b'u' ∷ []));
  cache_ttl = some 10;
  idempotency_header = some header_name;
}

abbrev attempt_key : ReplayKey
attempt_key = (b'm' ∷ []) ∷ (b'f' ∷ []) ∷ (b'G' ∷ b'E' ∷ b'T' ∷ []) ∷ (b'/' ∷ []) ∷ (b'x' ∷ []) ∷ []

presents : presented_idempotency_key context ≡ some attempt_key
unfolding program
presents = refl

new_attempt : (answer 0 attempt_key store).0 ≡ none
unfolding program
new_attempt = refl

cached_once :
    let (first, ran, results) = intercept_cached 0 1 context charges 0 store in
    intercept_cached 2 3 context fails ran results ≡ (ok 50, 1, results)
unfolding program
cached_once = refl

intercept_attempt-again_example :
    let (result, ran, results) = intercept_attempt 0 1 context charges 0 store in
    (result ≡ ok 50) × (intercept_attempt 100 101 context fails ran results ≡ (ok 50, 1, results))
intercept_attempt-again_example =
    intercept_attempt-again context attempt_key 0 1 100 101 charges fails 0 1 50 store presents
      roomy new_attempt refl (omega arith) (omega arith)

intercept_attempt-failed_example :
    let (result, ran, results) = intercept_attempt 0 1 context fails 0 store in
    (result ≡ err 500) × ((intercept_attempt 100 101 context charges ran results).0 ≡ ok 50)
intercept_attempt-failed_example =
    intercept_attempt-failed context attempt_key 0 1 100 101 fails charges 0 1 500 store presents
      new_attempt refl

abbrev cache_key : ReplayKey
cache_key =
    (b'm' ∷ []) ∷ (b'f' ∷ []) ∷ (b'G' ∷ b'E' ∷ b'T' ∷ []) ∷ (b'/' ∷ []) ∷ [] ∷ (b'u' ∷ []) ∷ []

cacheable : cacheable_key context ≡ some cache_key
unfolding program
cacheable = refl

cacheable_key-same_example :
    (context.route ≡ context.route)
    × (caller_of context.principal ≡ caller_of context.principal)
    × (r : ServedRequest) × (s : ServedRequest) × (context.request ≡ some r)
    × (context.request ≡ some s)
    × (upper r.method ≡ upper s.method)
    × (contains safe_methods (upper r.method) ≡ true)
    × (r.path ≡ s.path)
    × (r.query_string ≡ s.query_string)
cacheable_key-same_example = cacheable_key-same context context cache_key cacheable cacheable
