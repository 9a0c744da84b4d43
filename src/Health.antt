-- ===== src/Health.antt =====
-- health/service.py and health/indicators.py: the indicators of the two probes and the reports made of
-- them. An indicator is named by a number; how its check ends when a probe reads it is a function of
-- the model's caller. The checks run together, and the report has them in the order of registration.
pub mod Probes
mod Tests
use bustan.Prelude.{
  ℕ, Bool, true, false, Option, none, some, List, [], ◌∷◌, Text, list_eq, nat_eq, any,
  if◌then◌else◌, Result, ok, err, ◌>>=◌,
}
use bustan.OrderedDict.{OrderedDict, set, has_key}
use bustan.Readiness.{
  ReadinessState, Report, up as lifecycle_up, down_draining, down_starting,
  check as lifecycle_check,
}

-- `HealthStatus`
pub data HealthStatus : Type 0 where
  up down : HealthStatus

-- The sentences that a result may carry, those of the framework by their meaning.
pub data Detail : Type 0 where
  not_in_time check_failed unusable_result is_draining is_starting : Detail
  says : Text → Detail

pub record HealthIndicatorResult : Type 0 where
  pub status : HealthStatus
  pub detail : Option Detail

-- How the check of an indicator ends.
pub data Outcome : Type 0 where
  answers : HealthIndicatorResult → Outcome
  times_out raises answers_otherwise : Outcome

abbrev pub result_up : HealthIndicatorResult
result_up = record { status = up; detail = none }

abbrev pub result_down : Detail → HealthIndicatorResult
result_down detail = record { status = down; detail = some detail }

-- `_check`
abbrev pub result_of : Outcome → HealthIndicatorResult
result_of (answers result) = result
result_of times_out = result_down not_in_time
result_of raises = result_down check_failed
result_of answers_otherwise = result_down unusable_result

-- `LifecycleIndicator.check`, as a result
abbrev pub lifecycle_result : Report → HealthIndicatorResult
lifecycle_result lifecycle_up = result_up
lifecycle_result down_draining = result_down is_draining
lifecycle_result down_starting = result_down is_starting

pub data Indicator : Type 0 where
  lifecycle : Indicator
  registered : ℕ → Indicator

abbrev pub Probe : Type 0
Probe = OrderedDict Text Indicator

pub record HealthService : Type 0 where
  pub liveness_probe : Probe
  pub readiness_probe : Probe

abbrev pub lifecycle_name : Text
lifecycle_name = b'l' ∷ b'i' ∷ b'f' ∷ b'e' ∷ b'c' ∷ b'y' ∷ b'c' ∷ b'l' ∷ b'e' ∷ []

-- `HealthService.__init__`
abbrev pub new_service : HealthService
new_service = record { liveness_probe = []; readiness_probe = (lifecycle_name, lifecycle) ∷ [] }

pub data HealthError : Type 0 where
  name_taken : Text → HealthError

-- `_register`
unfoldable pub register : Text → Indicator → Probe → Result HealthError Probe
register name indicator probe =
    if has_key name probe then err (name_taken name) else ok (set name indicator probe)

-- `register_liveness`
unfoldable pub register_liveness : Text × ℕ → HealthService → Result HealthError HealthService
register_liveness (name, n) service =
    register name (registered n) service.liveness_probe >>= λ (probe : Probe).
    ok (record service { liveness_probe = probe })

-- `register_readiness`
unfoldable pub register_readiness : Text × ℕ → HealthService → Result HealthError HealthService
register_readiness (name, n) service =
    register name (registered n) service.readiness_probe >>= λ (probe : Probe).
    ok (record service { readiness_probe = probe })

unfoldable pub register_all : List (Text × ℕ) → HealthService → Result HealthError HealthService
register_all [] service = ok service
register_all (indicator ∷ indicators) service =
    register_readiness indicator service >>= λ after. register_all indicators after

abbrev pub HealthReport : Type 0
HealthReport = HealthStatus × OrderedDict Text HealthIndicatorResult

abbrev pub is_down : HealthStatus → Bool
is_down up = false
is_down down = true

abbrev pub entry_is_down : Text × HealthIndicatorResult → Bool
entry_is_down (name, result) = is_down result.status

module _ (outcomes : ℕ → Outcome) (state : ReadinessState) where
  abbrev pub result_for : Indicator → HealthIndicatorResult
  result_for lifecycle = lifecycle_result (lifecycle_check state)
  result_for (registered n) = result_of (outcomes n)

  unfoldable pub checks_of : Probe → OrderedDict Text HealthIndicatorResult
  checks_of [] = []
  checks_of ((name, indicator) ∷ probe) = (name, result_for indicator) ∷ checks_of probe

  -- `_run`
  unfoldable pub run : Probe → HealthReport
  run probe = (if any entry_is_down (checks_of probe) then down else up, checks_of probe)

  -- `liveness`
  abbrev pub liveness : HealthService → HealthReport
  liveness service = run service.liveness_probe

  -- `readiness`
  abbrev pub readiness : HealthService → HealthReport
  readiness service = run service.readiness_probe
