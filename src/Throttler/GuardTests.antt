-- ===== src/Throttler/GuardTests.antt =====
-- Runs of the guard and of the client resolver on small inputs, and their theorems at them.
use bustan.Prelude.{
  ok, err, ℕ, ◌*◌, ◌≡◌, ◌↔◌, refl, Bool, true, false, Option, none, some, List, [], ◌∷◌, ◌++◌,
  arith, Text, list_eq, nat_eq, ◌==◌, reverse, split, strip, lstrip, before, is_space,
}
use bustan.OrderedDict.{get, set, move_to_end, remove, trim}
use bustan.Throttler.{Storage, count_request, expire, admit, store_window, reset_from}
use bustan.Throttler.Runs.{Arrival, empty, serve}
use bustan.Throttler.Sliding.{accepted, recent, log_arrival, log_run}
use bustan.Throttler.Client.{
  candidate_of, is_trusted, first_outside, forwarded_client, client_key, throttle_prefix,
}
use bustan.Throttler.Caller.{IsCaller, forwarded_client_iff, client_key-appended}
use bustan.Throttler.Guard.{
  unreadable, too_short, ExecutionContext, Activation, resolve_budget, can_activate, count_against,
  window_seconds, read_seconds, is_number, int_from, unit_seconds, route_key,
}
use bustan.Throttler.Guarded.{Admits, in_memory, can_activate-recent}

program : Unit {0}
unfolding count_request expire admit store_window reset_from get set move_to_end remove trim serve
    accepted recent log_arrival log_run split strip lstrip before is_space candidate_of is_trusted
    first_outside forwarded_client client_key resolve_budget can_activate count_against
    window_seconds read_seconds is_number int_from unit_seconds route_key reverse
program = tt

-- " 5M "
five_minutes : window_seconds (32 ∷ b'5' ∷ b'M' ∷ 32 ∷ []) ≡ ok 300
unfolding program
five_minutes = refl

no_digits : window_seconds (b'h' ∷ []) ≡ err unreadable
unfolding program
no_digits = refl

no_seconds : window_seconds (b'0' ∷ []) ≡ err too_short
unfolding program
no_seconds = refl

-- An address is here a text that is not empty, and a network one address.
abbrev address_of : Text → Option Text
address_of [] = none
address_of (c ∷ text) = some (c ∷ text)

abbrev canonical : Text → Text
canonical address = address

abbrev is_in : Text → Text → Bool
is_in address network = address == network

abbrev proxies : List Text
proxies = (b'9' ∷ []) ∷ []

-- "1, 7,9"
abbrev header : Text
header = b'1' ∷ b',' ∷ 32 ∷ b'7' ∷ b',' ∷ b'9' ∷ []

names_the_rightmost : forwarded_client address_of canonical is_in proxies header ≡ some (b'7' ∷ [])
unfolding program
names_the_rightmost = refl

peer_is_trusted : is_trusted address_of canonical is_in proxies (b'9' ∷ []) ≡ true
unfolding program
peer_is_trusted = refl

appended-IsCaller :
    IsCaller address_of canonical is_in proxies (32 ∷ b'7' ∷ b',' ∷ b'9' ∷ []) (b'7' ∷ [])
unfolding program
appended-IsCaller = record {
  left = [];
  entry = 32 ∷ b'7' ∷ [];
  right = (b'9' ∷ []) ∷ [];
  address = b'7' ∷ [];
  entries = refl;
  parses = refl;
  outside = refl;
  canonical = refl;
  behind = (refl, tt);
}

forwarded_client_iff_example :
    (forwarded_client address_of canonical is_in proxies header ≡ some (b'7' ∷ []))
    ↔ IsCaller address_of canonical is_in proxies header (b'7' ∷ [])
forwarded_client_iff_example =
    forwarded_client_iff address_of canonical is_in proxies header (b'7' ∷ [])

client_key-appended_example :
    client_key address_of canonical is_in proxies
      (some (record { peer = some (b'9' ∷ []); forwarded = some header }))
    ≡ throttle_prefix ++ b'7' ∷ []
client_key-appended_example =
    client_key-appended address_of canonical is_in proxies (b'9' ∷ []) (b'1' ∷ [])
      (32 ∷ b'7' ∷ b',' ∷ b'9' ∷ []) b'7' [] peer_is_trusted appended-IsCaller

-- An application-wide limit of one request in two seconds, ten ticks to the second.
abbrev key : Text
key = b'k' ∷ []

abbrev context : ExecutionContext
context = record {
  has_request = true;
  policy = none;
  handler_skips = false;
  handler_module = [];
  handler_name = [];
  has_response = true;
}

abbrev two : Text → ℕ
two _ = 2

abbrev one : Text → ℕ
one _ = 1

abbrev run : List Arrival
run = record { key = key; at = 3 } ∷ []

budget : resolve_budget 1 2 (λ c. key) context ≡ ok (1, 2, key)
unfolding program
budget = refl

can_activate-recent_example :
    (act : Activation Storage) × (can_activate 1 2
        (λ c. key)
        (in_memory 10 9)
        context
        (serve 10 two one (empty 5) run)
      ≡ ok act)
    × Admits 1
        (recent (2 * 10) 9 key (log_run 10 two one [] run))
        (count_request 10 key 2 1 9 (serve 10 two one (empty 5) run)).0
        context
        act
can_activate-recent_example =
    can_activate-recent 10 two one (key ∷ []) 1 2 (λ c. key) 5 run (record { key = key; at = 9 })
      context (omega arith) (omega arith, tt) (refl, tt) (omega arith) refl refl budget
