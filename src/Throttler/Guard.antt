-- ===== src/Throttler/Guard.antt =====
-- `ThrottlerGuard` of security/throttler.py: which limit, window and key a request is counted
-- against, and what the guard answers. The storage is the interface `ThrottlerStorage`.
use bustan.Prelude.{
  Result, ok, err, ℕ, ◌+◌, ◌-◌, ◌*◌, Bool, true, false, not, ◌&&◌, ◌||◌, Option, none, some, [],
  ◌∷◌, ◌++◌, ◌==◌, nat_eq, Text, leb, ltb, if◌then◌else◌, length, reverse, strip, lower,
}
use bustan.Throttler.{ThrottleState}

-- The error of a window that is no whole number, and of one shorter than a second. Python refuses
-- to read a number of more than 4300 digits.
pub data WindowError : Type 0 where
  unreadable too_short too_long : WindowError

abbrev pub is_digit : ℕ → Bool
is_digit c = leb b'0' c && leb c b'9'

abbrev all_digits : Text → Bool
all_digits [] = true
all_digits (c ∷ text) = is_digit c && all_digits text

-- `digits.isascii() and digits.isdigit()`
unfoldable pub is_number : Text → Bool
is_number [] = false
is_number (c ∷ text) = is_digit c && all_digits text

-- `int(digits)`, from the value of the digits before.
unfoldable pub int_from : ℕ → Text → ℕ
int_from n [] = n
int_from n (c ∷ text) = int_from (n * 10 + (c - b'0')) text

-- `_WINDOW_UNIT_SECONDS`
unfoldable pub unit_seconds : ℕ → Option ℕ
unit_seconds c =
    if c == b's'
    then some 1
    else if c == b'm'
    then some 60
    else if c == b'h'
    then some 3600
    else if c == b'd'
    then some 86400
    else none

-- `text[:-1]` and the unit of `text[-1:]`, where the last character is one.
abbrev split_unit_reversed : Text → Text × ℕ
split_unit_reversed [] = ([], 1)
split_unit_reversed (c ∷ text) = elim (unit_seconds c) [
  | none ↦ (reverse (c ∷ text), 1)
  | some unit ↦ (reverse text, unit)
]

unfoldable pub read_seconds : Text → ℕ → Result WindowError ℕ
read_seconds digits unit =
    if not (is_number digits)
    then err unreadable
    else if ltb 4300 (length digits)
    then err too_long
    else if ltb (int_from 0 digits * unit) 1
    then err too_short
    else ok (int_from 0 digits * unit)

-- `_window_seconds`
unfoldable pub window_seconds : Text → Result WindowError ℕ
window_seconds window =
    let (digits, unit) = split_unit_reversed (reverse (lower (strip window))) in
    read_seconds digits unit

-- What the guard reads of its context: whether a request is active, the policy of the route, the
-- mark of `SkipThrottle`, the handler's names, and whether there is a response to write on.
pub record RateLimitPolicy : Type 0 where
  pub limit : Option ℕ
  pub window : Option Text
  pub skip : Bool

pub record ExecutionContext : Type 0 where
  pub has_request : Bool
  pub policy : Option RateLimitPolicy
  pub handler_skips : Bool
  pub handler_module : Text
  pub handler_name : Text
  pub has_response : Bool

pub record RateLimitDecision : Type 0 where
  pub limit : ℕ
  pub remaining : ℕ
  pub reset : ℕ
  pub exceeded : Bool

-- What the storages promise the guard.
pub record ThrottlerStorage (S : Type 0) : Type 0 where
  pub count_request : Text → ℕ → ℕ → S → ThrottleState × S

pub data GuardError : Type 0 where
  no_request : GuardError
  bad_window : WindowError → GuardError

-- The guard's answer, with what it leaves in the request's slots, the `Retry-After` header and the
-- storage.
pub record Activation (S : Type 0) : Type 0 where
  pub allowed : Bool
  pub rate_limit : Option RateLimitDecision
  pub retry_after : Option ℕ
  pub storage : S

abbrev pub route_part : Text
route_part = b':' ∷ b'r' ∷ b'o' ∷ b'u' ∷ b't' ∷ b'e' ∷ b':' ∷ []

unfoldable pub route_key : Text → ExecutionContext → Text
route_key caller context =
    caller ++ route_part ++ context.handler_module ++ b'.' ∷ context.handler_name

-- `getattr(policy, "skip", False)`
abbrev pub skips : Option RateLimitPolicy → Bool
skips none = false
skips (some policy) = policy.skip

-- `max(1, reset_after)`
abbrev pub at_least_one : ℕ → ℕ
at_least_one n = if ltb n 1 then 1 else n

-- The rest of `can_activate`, for a request that is counted.
module _ {S : Type 0} (storage : ThrottlerStorage S) where
  unfoldable pub count_against : ExecutionContext → S → ℕ × ℕ × Text → Activation S
  count_against context s (most, seconds, key) =
      let (state, after) = storage.count_request key seconds most s in
      let exceeded = ltb most state.count in
      record {
        allowed = not exceeded;
        rate_limit = some (record {
          limit = most;
          remaining = most - state.count;
          reset = state.reset_after;
          exceeded = exceeded;
        });
        retry_after =
            if exceeded && context.has_response
            then some (at_least_one state.reset_after)
            else none;
        storage = after;
      }

module _ (limit ttl : ℕ) (key_resolver : ExecutionContext → Text) where
  -- The window and the key of a route that declares a limit and a window.
  abbrev declared_budget :
      Option ℕ → Option Text → ExecutionContext → Result WindowError (ℕ × ℕ × Text)
  declared_budget (some most) (some window) context = elim (window_seconds window) [
    | err e ↦ err e
    | ok seconds ↦ ok (most, seconds, route_key (key_resolver context) context)
  ]
  declared_budget _ _ context = ok (limit, ttl, key_resolver context)

  -- `_resolve_budget`
  unfoldable pub resolve_budget : ExecutionContext → Result WindowError (ℕ × ℕ × Text)
  resolve_budget context = elim context.policy [
    | none ↦ ok (limit, ttl, key_resolver context)
    | some policy ↦ declared_budget policy.limit policy.window context
  ]

  module _ {S : Type 0} (storage : ThrottlerStorage S) where
    -- `can_activate`
    unfoldable pub can_activate : ExecutionContext → S → Result GuardError (Activation S)
    can_activate context s =
        if not context.has_request
        then err no_request
        else if skips context.policy || context.handler_skips
        then ok (record { allowed = true; rate_limit = none; retry_after = none; storage = s })
        else (elim (resolve_budget context) [
          | err e ↦ err (bad_window e)
          | ok budget ↦ ok (count_against storage context s budget)
        ])
