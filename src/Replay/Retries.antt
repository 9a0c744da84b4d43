-- ===== src/Replay/Retries.antt =====
-- A retry under an idempotency key runs nothing again, unless the first attempt failed.
use bustan.Prelude.{
  ℕ, ◌+◌, ◌≡◌, ◌≤◌, ◌<◌, refl, sym, ap, subst, ◌∙◌, Option, none, some, list_eq, nat_eq, arith,
  Result, ok, err, Bool-cases, Option-cases, inl, inr, if◌then◌else◌, leb, beq_refl,
}
use bustan.OrderedDict.{get, remove}
use bustan.OrderedDict.Lookup.{get-remove}
use bustan.Replay.Results.{ReplayKey, Recorded, RecordedResults, answer, record_result}
use bustan.Replay.Runs.{answer-record_result}
use bustan.Replay.Interceptors.{
  CallContext, presented_idempotency_key, idempotency_retention_seconds, keep_result, replay_or_run,
  intercept_key, intercept_attempt,
}

limit_kept :
    {V : Type 0} (now : ℕ) (key : ReplayKey) (results : RecordedResults V)
    → (answer now key results).1.limit ≡ results.limit
unfolding answer
limit_kept now key results = elim (Option-cases (get key results.entries)) [
  | inl missing ↦ rw missing refl
  | inr (entry, found) ↦ elim (Bool-cases (leb entry.expires_at now)) [
    | inl stale ↦ rw (found, stale) refl
    | inr live ↦ rw (found, live) refl
  ]
]

-- What was not answered is not answered later.
still_new :
    {V : Type 0} (now again : ℕ) (key : ReplayKey) (results : RecordedResults V)
    → (answer now key results).0 ≡ none
    → (answer again key (answer now key results).1).0 ≡ none
unfolding answer
still_new now again key results new = elim (Option-cases (get key results.entries)) [
  | inl missing ↦ rw missing (rw missing refl)
  | inr (entry, found) ↦ elim (Bool-cases (leb entry.expires_at now)) [
    | inl stale ↦
        let gone : get key (remove key results.entries) ≡ none =
          get-remove key key results.entries
          ∙ ap (λ b. if b then none else get key results.entries) (beq_refl key) in
        rw (found, stale) (rw gone refl)
    | inr live ↦ absurd (ground (arith, found, live, new))
  ]
]

module _ {E V S : Type 0} where
  ran_first :
      (later ttl : ℕ) (key : ReplayKey) (next : S → Result E V × S) (world left : S)
      (outcome : Result E V) (asked : Option (Recorded V) × RecordedResults V)
      → asked.0 ≡ none
      → next world ≡ (outcome, left)
      → replay_or_run later key ttl next world asked
        ≡ keep_result later key ttl asked.1 (outcome, left)
  ran_first later ttl key next world left outcome (none, results) new ran =
      ap (keep_result later key ttl results) ran
  ran_first later ttl key next world left outcome (some recorded, results) new ran =
      absurd (ground (arith, new))

  -- What an attempt does whose key is known.
  attempt_of :
      (context : CallContext) (key : ReplayKey) (now later : ℕ) (next : S → Result E V × S)
      (world : S) (results : RecordedResults V)
      → presented_idempotency_key context ≡ some key
      → intercept_attempt now later context next world results
        ≡ replay_or_run later key idempotency_retention_seconds next world (answer now key results)
  unfolding intercept_attempt
  attempt_of context key now later next world results keyed =
      ap (λ k. intercept_key now later k idempotency_retention_seconds next world results) keyed

  kept_outcome :
      (later ttl : ℕ) (key : ReplayKey) (results : RecordedResults V) (outcome : Result E V × S)
      → (keep_result later key ttl results outcome).0 ≡ outcome.0
  kept_outcome later ttl key results (ok value, world) = refl
  kept_outcome later ttl key results (err e, world) = refl

  -- A retry within the retention that is the next use of the store, of positive limit, after the first
  -- attempt under its key, which was not answered from the store and succeeded, returns what that
  -- returned and leaves the world and the store as they are, whatever handler it would have run.
  pub intercept_attempt-again :
      (context : CallContext) (key : ReplayKey) (now later again after : ℕ)
      (next retried : S → Result E V × S) (world left : S) (value : V) (results : RecordedResults V)
      → presented_idempotency_key context ≡ some key
      → 0 < results.limit
      → (answer now key results).0 ≡ none
      → next world ≡ (ok value, left)
      → later ≤ again
      → again < later + idempotency_retention_seconds
      → let (result, world', results') = intercept_attempt now later context next world results in
        (result ≡ ok value)
        × (intercept_attempt again after context retried world' results'
            ≡ (ok value, left, results'))
  intercept_attempt-again context key now later again after next retried world left value results
        keyed positive new ran ordered live =
      let asked = (answer now key results).1 in
      let stored = record_result later key value idempotency_retention_seconds asked in
      let one : intercept_attempt now later context next world results ≡ (ok value, left, stored) =
        attempt_of context key now later next world results keyed
        ∙ ran_first later idempotency_retention_seconds key next world left (ok value)
            (answer now key results) new ran in
      let two : intercept_attempt again after context retried left stored
          ≡ (ok value, left, stored) =
        attempt_of context key again after retried left stored keyed
        ∙ ap (replay_or_run after key idempotency_retention_seconds retried left) (
            answer-record_result later again idempotency_retention_seconds key value asked
              (subst (λ n. 0 < n) (sym (limit_kept now key results)) positive) ordered live) in
      subst
        (λ (q : Result E V × S × RecordedResults V).
          (q.0 ≡ ok value)
          × (intercept_attempt again after context retried q.1 q.2 ≡ (ok value, left, q.2)))
        (sym one) (refl, two)

  -- A failed attempt that was not answered from the store records nothing: the error is passed on, and
  -- the next use of the store, an attempt under the key, returns what its own handler does.
  pub intercept_attempt-failed :
      (context : CallContext) (key : ReplayKey) (now later again after : ℕ)
      (next retried : S → Result E V × S) (world left : S) (e : E) (results : RecordedResults V)
      → presented_idempotency_key context ≡ some key
      → (answer now key results).0 ≡ none
      → next world ≡ (err e, left)
      → let (result, world', results') = intercept_attempt now later context next world results in
        (result ≡ err e)
        × ((intercept_attempt again after context retried world' results').0 ≡ (retried left).0)
  intercept_attempt-failed context key now later again after next retried world left e results keyed
        new ran =
      let asked = (answer now key results).1 in
      let one : intercept_attempt now later context next world results ≡ (err e, left, asked) =
        attempt_of context key now later next world results keyed
        ∙ ran_first later idempotency_retention_seconds key next world left (err e)
            (answer now key results) new ran in
      let two : (intercept_attempt again after context retried left asked).0 ≡ (retried left).0 =
        ap (λ (q : Result E V × S × RecordedResults V). q.0)
          (attempt_of context key again after retried left asked keyed
            ∙ ran_first after idempotency_retention_seconds key retried left (retried left).1
                (retried left).0 (answer again key asked) (still_new now again key results new)
                refl)
        ∙ kept_outcome after idempotency_retention_seconds key _ (retried left) in
      subst
        (λ (q : Result E V × S × RecordedResults V).
          (q.0 ≡ err e)
          × ((intercept_attempt again after context retried q.1 q.2).0 ≡ (retried left).0))
        (sym one) (refl, two)
