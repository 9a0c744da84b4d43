-- ===== src/Health/Tests.antt =====
-- A process with a database and a queue, and the theorem at it.
use bustan.Prelude.{
  ℕ, ◌≡◌, ◌↔◌, refl, true, false, List, [], ◌∷◌, ◌++◌, ◌==◌, list_eq, nat_eq, Text, All, Result, ok,
  err, if◌then◌else◌,
}
use bustan.OrderedDict.{set, has_key}
use bustan.Readiness.{ReadinessState, up as lifecycle_up, check as lifecycle_check}
use bustan.Health.{
  up, down, Outcome, answers, times_out, result_up, HealthService, HealthError, name_taken,
  new_service, register, register_readiness, register_all, checks_of, run, readiness, liveness,
}
use bustan.Health.Probes.{IsServing, readiness_iff}

program : Unit {0}
unfolding set has_key lifecycle_check register register_readiness register_all checks_of run
program = tt

abbrev indicators : List (Text × ℕ)
indicators = (b'd' ∷ b'b' ∷ [], 0) ∷ (b'q' ∷ [], 1) ∷ []

-- The queue does not answer in time.
abbrev outcomes : ℕ → Outcome
outcomes n = if n == 0 then answers result_up else times_out

abbrev state : ReadinessState
state = record { started = true; draining = false }

abbrev service_of : Result HealthError HealthService → HealthService
service_of (ok service) = service
service_of (err e) = new_service

abbrev service : HealthService
service = service_of (register_all indicators new_service)

all_registered : register_all indicators new_service ≡ ok service
unfolding program
all_registered = refl

reported_down : (readiness outcomes state service).0 ≡ down
unfolding program
reported_down = refl

taken : register_all (indicators ++ (b'q' ∷ [], 2) ∷ []) new_service ≡ err (name_taken (b'q' ∷ []))
unfolding program
taken = refl

readiness_iff_example :
    (((readiness outcomes state service).0 ≡ up) ↔ (
      (lifecycle_check state ≡ lifecycle_up)
      × All (λ (i : Text × ℕ). IsServing (outcomes i.1)) indicators))
    × ((liveness outcomes state service).0 ≡ up)
readiness_iff_example = readiness_iff outcomes state indicators service all_registered
