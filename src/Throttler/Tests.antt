-- ===== src/Throttler/Tests.antt =====
-- Runs of the throttler on small inputs, and its theorems at them.
use bustan.Prelude.{ℕ, ◌+◌, ◌*◌, ◌≤◌, ◌<◌, Text, ◌≡◌, ◌↔◌, refl, List, [], ◌∷◌, arith, length, none}
use bustan.OrderedDict.{get, set, move_to_end, remove, trim}
use bustan.Throttler.{
  ThrottleState, Storage, count_request, expire, admit, store_window, reset_from, create,
}
use bustan.Throttler.Invariant.{IsValid, count_request-IsValid}
use bustan.Throttler.Runs.{
  Arrival, empty, serve, serve-IsValid, timestamps, serve-memory, IsValid-empty,
}
use bustan.Throttler.Replies.{retry_exact}
use bustan.Throttler.Sliding.{accepted, recent, log_arrival, log_run, count-eq-recent}

abbrev key_a : Text
key_a = b'a' ∷ []

abbrev key_b : Text
key_b = b'b' ∷ []

-- Ten ticks to the second, a window of two seconds and a limit of two.
abbrev ttl : Text → ℕ
ttl key = 2

abbrev limit : Text → ℕ
limit key = 2

abbrev arrival : Text → ℕ → Arrival
arrival key at = record { key = key; at = at }

abbrev run : List Arrival
run = arrival key_a 0 ∷ arrival key_b 5 ∷ arrival key_a 7 ∷ []

program : Unit {0}
unfolding count_request expire admit store_window reset_from get set move_to_end remove trim serve
    accepted recent log_arrival log_run create
program = tt

third_refused :
    (count_request 10 key_a 2 2 9 (serve 10 ttl limit (empty 5) run)).0
    ≡ record { count = 3; reset_after = 2 }
unfolding program
third_refused = refl

after_window :
    (count_request 10 key_a 2 2 20 (serve 10 ttl limit (empty 5) run)).0
    ≡ record { count = 2; reset_after = 1 }
unfolding program
after_window = refl

evicts_oldest : length (serve 10 ttl limit (empty 1) run).windows ≡ 1
unfolding program
evicts_oldest = refl

refuses_no_keys : create 0 ≡ none
unfolding program
refuses_no_keys = refl

abbrev served : Storage
served = serve 10 ttl limit (empty 5) run

count-eq-recent_example :
    (count_request 10 key_a 2 2 9 served).0.count
    ≡ recent (2 * 10) 9 key_a (log_run 10 ttl limit [] run) + 1
count-eq-recent_example =
    count-eq-recent 10 ttl limit (key_a ∷ key_b ∷ []) 5 run (arrival key_a 9) (omega arith)
      (omega arith) (refl, (refl, (refl, tt))) (omega arith)

serve-memory_example : timestamps (serve 10 ttl limit (empty 1) run).windows ≤ 1 * 2
serve-memory_example = serve-memory 10 ttl limit 2 1 run (λ key. omega arith) (omega arith)

count_request-IsValid_example : IsValid limit 3 (count_request 10 key_a 2 2 3 (empty 5)).1
count_request-IsValid_example =
    count_request-IsValid limit 10 key_a 2 0 3 (empty 5) (omega arith) (IsValid-empty limit 5)

served-IsValid : IsValid limit 7 served
served-IsValid = serve-IsValid 10 ttl limit (empty 5) 0 run (omega arith) (IsValid-empty limit 5)

refused_at_9 : 2 < (count_request 10 key_a 2 2 9 served).0.count
unfolding program
refused_at_9 = omega arith

room : 0 < served.max_keys
unfolding program
room = omega arith

abbrev refusal : ThrottleState × Storage
refusal = count_request 10 key_a 2 2 9 served

retry_exact_example :
    ((count_request 10 key_a 2 2 (9 + 1 * 10) refusal.1).0.count ≤ 2 ↔ (refusal.0.reset_after ≤ 1))
    × (1 ≤ refusal.0.reset_after)
    × (refusal.0.reset_after ≤ 2)
retry_exact_example =
    retry_exact 10 limit key_a 2 7 9 1 served (omega arith) (omega arith) room (omega arith)
      served-IsValid refused_at_9
