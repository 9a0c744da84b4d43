-- ===== src/Throttler/Guarded.antt =====
-- The guard over the in-memory storage, against the log of accepted requests.
use bustan.Prelude.{
  ok, ℕ, ◌||◌, ◌+◌, ◌-◌, ◌*◌, ◌≤◌, ◌≡◌, refl, true, false, not, none, some, List, [], arith, Text,
  length, ltb, list_eq, nat_eq,
}
use bustan.Throttler.{ThrottleState, Storage, count_request}
use bustan.Throttler.Runs.{Arrival, empty, serve, IsMonotonic, last_reading}
use bustan.Throttler.Sliding.{recent, log_run, count-eq-recent, KnownKeys}
use bustan.Throttler.Guard.{
  ExecutionContext, ThrottlerStorage, Activation, resolve_budget, count_against, can_activate,
  skips, at_least_one,
}

-- The storage, at a clock reading.
abbrev pub in_memory : ℕ → ℕ → ThrottlerStorage Storage
in_memory res now = record {
  count_request = λ key ttl limit s. count_request res key ttl limit now s;
}

-- What the guard answers a request whose key was let through `n` times in its window.
pub record Admits (most n : ℕ) (state : ThrottleState) (context : ExecutionContext)
    (a : Activation Storage) : Type 0 where
  allowed : a.allowed ≡ ltb n most
  decision :
      a.rate_limit
      ≡ some (record {
        limit = most;
        remaining = most - (n + 1);
        reset = state.reset_after;
        exceeded = not (ltb n most);
      })
  silent : a.allowed ≡ true → a.retry_after ≡ none
  told :
      a.allowed ≡ false
      → context.has_response ≡ true
      → (k : ℕ) × (a.retry_after ≡ some k) × (1 ≤ k) × (state.reset_after ≤ k)

ltb-not_leb : (m n : ℕ) → ltb m (n + 1) ≡ not (ltb n m)
ltb-not_leb m n = ground arith

count_against-Admits :
    (res now most seconds n : ℕ) (key : Text) (context : ExecutionContext) (s : Storage)
    → (count_request res key seconds most now s).0.count ≡ n + 1
    → Admits most n
        (count_request res key seconds most now s).0
        context
        (count_against (in_memory res now) context s (most, seconds, key))
unfolding count_against
count_against-Admits res now most seconds n key context s count =
    let state = (count_request res key seconds most now s).0 in
    record {
      allowed = ground (arith, count);
      decision = rw (count, ltb-not_leb most n) refl;
      silent = λ h. ground (arith, count, h);
      told = λ h response.
          (at_least_one state.reset_after, ground (arith, h, response), ground arith, ground arith);
    }

module _ (res : ℕ) (ttl limit : Text → ℕ) (ks : List Text) (app_limit app_ttl : ℕ)
    (key_resolver : ExecutionContext → Text) where
  -- From an empty storage with room for the keys `ks`, so that no window is dropped for room, after
  -- any run of requests for those keys on a monotonic clock: a request that is there, not exempt, and
  -- whose budget can be read is let through just when fewer requests of its key than its limit were
  -- accepted in its window. The decision tells how many are left, and a refused caller whose response
  -- can be written to is told to wait at least one second and at least the storage's reset.
  pub can_activate-recent :
      (max_keys : ℕ) (run : List Arrival) (a : Arrival) (context : ExecutionContext)
      → length ks ≤ max_keys
      → IsMonotonic 0 run
      → KnownKeys res ttl limit ks run
      → last_reading 0 run ≤ a.at
      → context.has_request ≡ true
      → (skips context.policy || context.handler_skips) ≡ false
      → resolve_budget app_limit app_ttl key_resolver context ≡ ok (limit a.key, ttl a.key, a.key)
      → let s = serve res ttl limit (empty max_keys) run in
        (act : Activation Storage) × (can_activate app_limit app_ttl key_resolver
            (in_memory res a.at)
            context
            s
          ≡ ok act)
        × Admits
            (limit a.key)
            (recent (ttl a.key * res) a.at a.key (log_run res ttl limit [] run))
            (count_request res a.key (ttl a.key) (limit a.key) a.at s).0
            context
            act
  unfolding resolve_budget count_against
  can_activate-recent max_keys run a context room m known le active counted budget =
      let s = serve res ttl limit (empty max_keys) run in
      (
        count_against (in_memory res a.at) context s (limit a.key, ttl a.key, a.key),
        unfold can_activate in rw (active, counted, budget) refl,
        count_against-Admits res a.at (limit a.key) (ttl a.key) _ a.key context s
            (count-eq-recent res ttl limit ks max_keys run a room m known le),
      )
