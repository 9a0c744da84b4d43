-- ===== src/Replay/Keys.antt =====
-- A cached answer belongs to one route, one safe method, one path and query, and one caller.
use bustan.Prelude.{
  ◌≡◌, sym, ap, ◌∙◌, true, some, List, ◌∷◌, list_eq, nat_eq, Text, arith, contains, upper,
  Bool-cases, Option-cases, inl, inr,
}
use bustan.Replay.Results.{ReplayKey}
use bustan.Replay.Interceptors.{CallContext, ServedRequest, caller_of, safe_methods, cacheable_key}

abbrev caller_key : Text × Text → ServedRequest → Text → List Text → ReplayKey
caller_key route request query caller =
    route.0 ∷ route.1 ∷ upper request.method ∷ request.path ∷ query ∷ caller

record IsKeyedBy (context : CallContext) (key : ReplayKey) : Type 0 where
  request : ServedRequest
  query : Text
  caller : List Text
  asked : context.request ≡ some request
  safe : contains safe_methods (upper request.method) ≡ true
  queried : request.query_string ≡ some query
  called : caller_of context.principal ≡ some caller
  keyed : caller_key context.route request query caller ≡ key

cacheable_key-IsKeyedBy :
    (context : CallContext) (key : ReplayKey)
    → cacheable_key context ≡ some key
    → IsKeyedBy context key
unfolding cacheable_key
cacheable_key-IsKeyedBy context key e = elim (Option-cases context.request) [
  | inl missing ↦ absurd (ground (arith, missing, e))
  | inr (request, asked) ↦ elim (Bool-cases (contains safe_methods (upper request.method))) [
    | inr unsafe ↦ absurd (ground (arith, asked, unsafe, e))
    | inl safe ↦ elim (Option-cases request.query_string) [
      | inl missing ↦ absurd (ground (arith, asked, safe, missing, e))
      | inr (query, queried) ↦ elim (Option-cases (caller_of context.principal)) [
        | inl missing ↦ absurd (ground (arith, asked, safe, queried, missing, e))
        | inr (caller, called) ↦ record {
          request = request;
          query = query;
          caller = caller;
          asked = asked;
          safe = safe;
          queried = queried;
          called = called;
          keyed = ground (arith, asked, safe, queried, called, e);
        }
      ]
    ]
  ]
]

-- Two calls whose results are cached under one key are of one route, have the same caller or none
-- each, and carry requests of one safe method, path and query string.
pub cacheable_key-same :
    (c d : CallContext) (key : ReplayKey)
    → cacheable_key c ≡ some key
    → cacheable_key d ≡ some key
    → (c.route ≡ d.route)
      × (caller_of c.principal ≡ caller_of d.principal)
      × (r : ServedRequest) × (s : ServedRequest) × (c.request ≡ some r)
      × (d.request ≡ some s)
      × (upper r.method ≡ upper s.method)
      × (contains safe_methods (upper r.method) ≡ true)
      × (r.path ≡ s.path)
      × (r.query_string ≡ s.query_string)
cacheable_key-same c d key one two =
    let a = cacheable_key-IsKeyedBy c key one in
    let b = cacheable_key-IsKeyedBy d key two in
    let same : caller_key c.route a.request a.query a.caller
        ≡ caller_key d.route b.request b.query b.caller =
      a.keyed ∙ sym b.keyed in
    let module_name : c.route.0 ≡ d.route.0 = cc in
    let function_name : c.route.1 ≡ d.route.1 = cc in
    let callers : a.caller ≡ b.caller = cc in
    let queries : a.query ≡ b.query = cc in
    (
      ap (λ n. (n, c.route.1)) module_name ∙ ap (λ n. (d.route.0, n)) function_name,
      a.called ∙ ap (λ l. some l) callers ∙ sym b.called,
      a.request,
      b.request,
      a.asked,
      b.asked,
      cc,
      a.safe,
      cc,
      a.queried ∙ ap (λ l. some l) queries ∙ sym b.queried,
    )
