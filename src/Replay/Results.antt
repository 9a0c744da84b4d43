-- ===== src/Replay/Results.antt =====
-- `_RecordedResults` of security/policy.py. The clock reading is an argument; an operation runs under
-- the store's lock, so that it is one step. A key is a tuple, here the list of its texts.
use bustan.Prelude.{
  ℕ, ◌+◌, ◌&&◌, Option, none, some, List, [], ◌∷◌, list_eq, nat_eq, Text, length, ltb, leb,
  if◌then◌else◌,
}
use bustan.OrderedDict.{OrderedDict, get, set, remove, move_to_end}

abbrev pub ReplayKey : Type 0
ReplayKey = List Text

-- `_Recorded`
pub record Recorded (V : Type 0) : Type 0 where
  pub value : V
  pub expires_at : ℕ

pub record RecordedResults (V : Type 0) : Type 0 where
  pub limit : ℕ
  pub entries : OrderedDict ReplayKey (Recorded V)

module _ {V : Type 0} where
  -- `__init__`
  abbrev pub new_results : ℕ → RecordedResults V
  new_results limit = record { limit = limit; entries = [] }

  -- `_drop_stale`: from the front, until that has not expired and the limit is kept.
  unfoldable pub drop_stale :
      ℕ → ℕ → OrderedDict ReplayKey (Recorded V) → OrderedDict ReplayKey (Recorded V)
  drop_stale limit now [] = []
  drop_stale limit now ((k, oldest) ∷ entries) =
      let rest = drop_stale limit now entries in
      if leb (length ((k, oldest) ∷ entries)) limit && ltb now oldest.expires_at
      then (k, oldest) ∷ entries
      else rest

  abbrev answer_found :
      ℕ
      → ReplayKey
      → Option (Recorded V)
      → RecordedResults V
      → Option (Recorded V) × RecordedResults V
  answer_found now key none results = (none, results)
  answer_found now key (some entry) results =
      if leb entry.expires_at now
      then (none, record results { entries = remove key results.entries })
      else (some entry, results)

  -- `answer`
  unfoldable pub answer :
      ℕ → ReplayKey → RecordedResults V → Option (Recorded V) × RecordedResults V
  answer now key results = answer_found now key (get key results.entries) results

  -- `record`
  unfoldable pub record_result : ℕ → ReplayKey → V → ℕ → RecordedResults V → RecordedResults V
  record_result now key value ttl results = record results {
    entries = drop_stale results.limit now (
        move_to_end key
          (set key (record { value = value; expires_at = now + ttl }) results.entries));
  }
