-- ===== src/Throttler.antt =====
-- security/throttler.py: the sliding-window storage `InMemoryThrottlerStorage` and the guard
-- `ThrottlerGuard`. The proofs are in the modules below.
--
-- A clock reading is a whole number of ticks, `res` ticks to the second, so that the comparison
-- and the subtraction of two readings are exact. `window[0] <= now - ttl` is written with the
-- window on the other side, since `-` stops at 0.
mod Tests
mod GuardTests
pub mod Window
pub mod Sliding
pub mod Runs
pub mod Replies
pub mod Invariant
pub mod Client
pub mod Caller
pub mod Guard
pub mod Guarded
use bustan.Prelude.{
  ℕ, ◌+◌, ◌-◌, ◌*◌, ◌/◌, Text, Bool, Option, none, some, List, [], ◌∷◌, ◌++◌, leb, ltb, length,
  list_eq, nat_eq, if◌then◌else◌,
}
use bustan.OrderedDict.{OrderedDict, get, set, remove, move_to_end, trim}

pub record ThrottleState : Type 0 where
  pub count : ℕ
  pub reset_after : ℕ

-- `InMemoryThrottlerStorage`: a window holds its accepted requests, the oldest first.
pub record Storage : Type 0 where
  pub max_keys : ℕ
  pub windows : OrderedDict Text (List ℕ)

-- `__post_init__`: `none` is the `ValueError`.
unfoldable pub create : ℕ → Option Storage
create max_keys =
    if ltb max_keys 1 then none else some (record { max_keys = max_keys; windows = [] })

-- `while window and window[0] <= cutoff: window.popleft()`
unfoldable pub expire : ℕ → ℕ → List ℕ → List ℕ
expire span now [] = []
expire span now (t ∷ window) = if leb (t + span) now then expire span now window else t ∷ window

-- `window = self._windows.get(key)`, a new deque if there is none
abbrev pub window_or_new : Option (List ℕ) → List ℕ
window_or_new none = []
window_or_new (some window) = window

-- A request that fits is recorded; one that does not is counted and not recorded.
unfoldable pub admit : ℕ → ℕ → List ℕ → ℕ × List ℕ
admit limit now window =
    if ltb (length window) limit
    then (length (window ++ now ∷ []), window ++ now ∷ [])
    else (length window + 1, window)

-- `max(0, math.ceil(ttl - (now - window[0])))` for the oldest request `t`, with `span = ttl * res`:
-- where the difference is negative `-` stops at 0.
unfoldable pub reset_from : ℕ → ℕ → ℕ → ℕ → ℕ
reset_from res span now t = ((t + span - now) + (res - 1)) / res

module _ (res : ℕ) where
  -- What is written back for a window, and how long until its oldest request leaves it.
  unfoldable pub store_window :
      Text → List ℕ → ℕ → ℕ → OrderedDict Text (List ℕ) → ℕ × OrderedDict Text (List ℕ)
  store_window key [] ttl now windows = (0, remove key windows)
  store_window key (t ∷ window) ttl now windows =
      (reset_from res (ttl * res) now t, move_to_end key (set key (t ∷ window) windows))

  -- `count_request`, at the clock reading `now`.
  unfoldable pub count_request : Text → ℕ → ℕ → ℕ → Storage → ThrottleState × Storage
  count_request key ttl limit now s =
      let found = window_or_new (get key s.windows) in
      let touched = move_to_end key s.windows in
      let (count, window) = admit limit now (expire (ttl * res) now found) in
      let (reset_after, windows) = store_window key window ttl now touched in
      (
        record { count = count; reset_after = reset_after },
        record s { windows = trim s.max_keys windows },
      )
