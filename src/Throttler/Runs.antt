-- ===== src/Throttler/Runs.antt =====
-- Runs of requests against one storage, each key under a window length and a limit of its own.
use bustan.Prelude.{
  ℕ, ◌+◌, ◌*◌, ◌≤◌, ◌≡◌, refl, Text, List, [], ◌∷◌, arith, length, list_eq, nat_eq,
}
use bustan.OrderedDict.{OrderedDict}
use bustan.OrderedDict.Values.{Entries}
use bustan.Throttler.{Storage, count_request}
use bustan.Throttler.Invariant.{IsWindow, IsValid, count_request-IsValid}

-- A request for a key, at a clock reading.
pub record Arrival : Type 0 where
  pub key : Text
  pub at : ℕ

-- The readings of a monotonic clock that starts at `before`.
abbrev pub IsMonotonic : ℕ → List Arrival → Type 0
IsMonotonic before [] = Unit
IsMonotonic before (a ∷ rest) = (before ≤ a.at) × IsMonotonic a.at rest

-- The reading at the end of a run.
abbrev pub last_reading : ℕ → List Arrival → ℕ
last_reading before [] = before
last_reading before (a ∷ rest) = last_reading a.at rest

abbrev pub empty : ℕ → Storage
empty max_keys = record { max_keys = max_keys; windows = [] }

-- Every timestamp that the storage holds.
abbrev pub timestamps : OrderedDict Text (List ℕ) → ℕ
timestamps [] = 0
timestamps ((k, w) ∷ d) = length w + timestamps d

module _ (res : ℕ) (ttl limit : Text → ℕ) where
  -- The storage after one request.
  abbrev pub arrive : Storage → Arrival → Storage
  arrive s a = (count_request res a.key (ttl a.key) (limit a.key) a.at s).1

  -- The storage after a run of requests.
  unfoldable pub serve : Storage → List Arrival → Storage
  serve s [] = s
  serve s (a ∷ rest) = serve (arrive s a) rest

  pub serve-IsValid :
      (s : Storage) (before : ℕ) (run : List Arrival)
      → IsMonotonic before run
      → IsValid limit before s
      → IsValid limit (last_reading before run) (serve s run)
  unfolding serve
  serve-IsValid s before [] m h = h
  serve-IsValid s before (a ∷ rest) m h =
      serve-IsValid (arrive s a) a.at rest m.1
        (count_request-IsValid limit res a.key (ttl a.key) before a.at s m.0 h)

  pub max_keys-serve : (s : Storage) (run : List Arrival) → (serve s run).max_keys ≡ s.max_keys
  unfolding serve count_request
  max_keys-serve s [] = refl
  max_keys-serve s (a ∷ rest) = max_keys-serve (arrive s a) rest

timestamps-le :
    (limit : Text → ℕ) (most now : ℕ) (d : OrderedDict Text (List ℕ))
    → ((key : Text) → limit key ≤ most)
    → Entries (IsWindow limit now) d
    → timestamps d ≤ length d * most
timestamps-le limit most now [] cap h = omega arith
timestamps-le limit most now ((k, w) ∷ d) cap h =
    grind (arith, timestamps-le limit most now d cap h.1, cap k, h.0.within)

pub IsValid-empty : (limit : Text → ℕ) (max_keys : ℕ) → IsValid limit 0 (empty max_keys)
IsValid-empty limit max_keys = record { distinct = tt; bounded = omega arith; windows = tt }

-- A storage that starts empty, whatever requests arrive on a monotonic clock and however many keys
-- they name, never holds more than `max_keys * most` timestamps if no key has a limit over `most`.
pub serve-memory :
    (res : ℕ) (ttl limit : Text → ℕ) (most max_keys : ℕ) (run : List Arrival)
    → ((key : Text) → limit key ≤ most)
    → IsMonotonic 0 run
    → timestamps (serve res ttl limit (empty max_keys) run).windows ≤ max_keys * most
serve-memory res ttl limit most max_keys run cap m =
    let s = serve res ttl limit (empty max_keys) run in
    let valid =
      serve-IsValid res ttl limit (empty max_keys) 0 run m (IsValid-empty limit max_keys) in
    grind (
      arith,
      timestamps-le limit most (last_reading 0 run) s.windows cap valid.windows,
      valid.bounded,
      max_keys-serve res ttl limit (empty max_keys) run,
    )
