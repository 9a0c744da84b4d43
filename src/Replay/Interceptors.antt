-- ===== src/Replay/Interceptors.antt =====
-- `_CachedAnswers` and `_RecordedAttempts` of security/policy.py, with what they key a result under. A
-- handler is a function of the world that it may change; it returns a value or raises.
use bustan.Prelude.{
  ℕ, Option, none, some, List, [], ◌∷◌, list_eq, nat_eq, Text, contains, ltb, upper, lower,
  if◌then◌else◌, Result, ok, err,
}
use bustan.Replay.Results.{ReplayKey, Recorded, RecordedResults, answer, record_result}

-- What the interceptors read of a request; `none` for a query string that the transport does not have.
pub record ServedRequest : Type 0 where
  pub method : Text
  pub path : Text
  pub query_string : Option Text
  pub headers : Text → Option Text

-- The context of a call: the handler's module and qualified name, the request, the principal with its
-- `id` where that is a text, and the policies of the compiled plan.
pub record CallContext : Type 0 where
  pub route : Text × Text
  pub request : Option ServedRequest
  pub principal : Option (Option Text)
  pub cache_ttl : Option ℕ
  pub idempotency_header : Option Text

abbrev at_least_one_second : ℕ → Option ℕ
at_least_one_second ttl = if ltb ttl 1 then none else some ttl

-- `_declared_cache_ttl`
abbrev pub declared_cache_ttl : Option ℕ → Option ℕ
declared_cache_ttl none = none
declared_cache_ttl (some ttl) = at_least_one_second ttl

-- `_SAFE_METHODS`
abbrev pub safe_methods : List Text
safe_methods = (b'G' ∷ b'E' ∷ b'T' ∷ []) ∷ (b'H' ∷ b'E' ∷ b'A' ∷ b'D' ∷ []) ∷ []

-- The caller of a key, `None` left out; a principal without a readable identity has no key.
abbrev pub caller_of : Option (Option Text) → Option (List Text)
caller_of none = some []
caller_of (some none) = none
caller_of (some (some identity)) = some (identity ∷ [])

abbrev pub key_of_caller :
    Text × Text → ServedRequest → Text → Option (List Text) → Option ReplayKey
key_of_caller route request query none = none
key_of_caller route request query (some caller) =
    some (route.0 ∷ route.1 ∷ upper request.method ∷ request.path ∷ query ∷ caller)

abbrev pub key_of_query :
    Text × Text → Option (Option Text) → ServedRequest → Option Text → Option ReplayKey
key_of_query route principal request none = none
key_of_query route principal request (some query) =
    key_of_caller route request query (caller_of principal)

abbrev pub key_of_request :
    Text × Text → Option (Option Text) → Option ServedRequest → Option ReplayKey
key_of_request route principal none = none
key_of_request route principal (some request) =
    if contains safe_methods (upper request.method)
    then key_of_query route principal request request.query_string
    else none

-- `_cacheable_key`
unfoldable pub cacheable_key : CallContext → Option ReplayKey
cacheable_key context = key_of_request context.route context.principal context.request

-- `headers.get(name) or headers.get(name.lower())`, `none` where that is empty or missing
abbrev non_empty : Option Text → Option Text
non_empty none = none
non_empty (some []) = none
non_empty (some (c ∷ text)) = some (c ∷ text)

abbrev pub presented : (Text → Option Text) → Text → Option Text
presented headers name = elim (non_empty (headers name)) [
  | none ↦ non_empty (headers (lower name))
  | some value ↦ some value
]

abbrev attempt_key : Text × Text → ServedRequest → Option Text → Option ReplayKey
attempt_key route request none = none
attempt_key route request (some value) =
    some (route.0 ∷ route.1 ∷ upper request.method ∷ request.path ∷ value ∷ [])

abbrev key_of_attempt : Text × Text → Option ServedRequest → Option Text → Option ReplayKey
key_of_attempt route none header = none
key_of_attempt route (some request) none = none
key_of_attempt route (some request) (some name) =
    attempt_key route request (presented request.headers name)

-- `_presented_idempotency_key`
unfoldable pub presented_idempotency_key : CallContext → Option ReplayKey
presented_idempotency_key context =
    key_of_attempt context.route context.request context.idempotency_header

-- `IDEMPOTENCY_RETENTION_SECONDS`, where the clock ticks once a second
abbrev pub idempotency_retention_seconds : ℕ
idempotency_retention_seconds = 86400

module _ {E V S : Type 0} where
  abbrev pub keep_result :
      ℕ → ReplayKey → ℕ → RecordedResults V → Result E V × S → Result E V × S × RecordedResults V
  keep_result later key ttl results (ok value, world) =
      (ok value, world, record_result later key value ttl results)
  keep_result later key ttl results (err e, world) = (err e, world, results)

  abbrev pub replay_or_run :
      ℕ
      → ReplayKey
      → ℕ
      → (S → Result E V × S)
      → S
      → Option (Recorded V) × RecordedResults V
      → Result E V × S × RecordedResults V
  replay_or_run later key ttl next world (some recorded, results) =
      (ok recorded.value, world, results)
  replay_or_run later key ttl next world (none, results) =
      keep_result later key ttl results (next world)

  abbrev pub pass_on :
      (S → Result E V × S) → S → RecordedResults V → Result E V × S × RecordedResults V
  pass_on next world results = ((next world).0, (next world).1, results)

  -- The part that both share: `now` is the reading of the clock before the handler runs, `later` after.
  abbrev pub intercept_key :
      ℕ
      → ℕ
      → Option ReplayKey
      → ℕ
      → (S → Result E V × S)
      → S
      → RecordedResults V
      → Result E V × S × RecordedResults V
  intercept_key now later none ttl next world results = pass_on next world results
  intercept_key now later (some key) ttl next world results =
      replay_or_run later key ttl next world (answer now key results)

  -- `_CachedAnswers.intercept`
  unfoldable pub intercept_cached :
      ℕ
      → ℕ
      → CallContext
      → (S → Result E V × S)
      → S
      → RecordedResults V
      → Result E V × S × RecordedResults V
  intercept_cached now later context next world results =
      elim (declared_cache_ttl context.cache_ttl) [
        | none ↦ pass_on next world results
        | some ttl ↦ intercept_key now later (cacheable_key context) ttl next world results
      ]

  -- `_RecordedAttempts.intercept`
  unfoldable pub intercept_attempt :
      ℕ
      → ℕ
      → CallContext
      → (S → Result E V × S)
      → S
      → RecordedResults V
      → Result E V × S × RecordedResults V
  intercept_attempt now later context next world results =
      intercept_key now later (presented_idempotency_key context) idempotency_retention_seconds next
        world results
