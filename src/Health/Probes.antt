-- ===== src/Health/Probes.antt =====
-- When the readiness probe is up.
use bustan.Prelude.{
  ℕ, ◌≡◌, ◌↔◌, refl, sym, ap, subst, ◌∙◌, false, List, [], ◌∷◌, ◌++◌, ◌==◌, Text, list_eq, nat_eq,
  arith, any, All, Bool-cases, inl, inr, ok, bind-ok, ok-injective,
}
use mathlib.Core.List.{append_assoc, append-nil}
use bustan.OrderedDict.{set, has_key}
use bustan.Readiness.{
  ReadinessState, Report, up as lifecycle_up, down_draining, down_starting,
  check as lifecycle_check,
}
use bustan.Health.{
  HealthStatus, up, down, Outcome, answers, times_out, raises, answers_otherwise, result_of,
  lifecycle_result, Indicator, registered, Probe, HealthService, new_service, register,
  register_readiness, register_all, is_down, entry_is_down, checks_of, run, readiness, liveness,
}

set-absent :
    (k : Text) (v : Indicator) (d : Probe) → has_key k d ≡ false → set k v d ≡ d ++ (k, v) ∷ []
unfolding has_key set
set-absent k v [] absent = refl
set-absent k v ((i, w) ∷ d) absent = elim (Bool-cases (i == k)) [
  | inl same ↦ absurd (ground (arith, absent, same))
  | inr other ↦ rw other (ap (λ l. (i, w) ∷ l) (set-absent k v d (ground (arith, absent, other))))
]

abbrev entries_of : List (Text × ℕ) → Probe
entries_of [] = []
entries_of ((name, n) ∷ indicators) = (name, registered n) ∷ entries_of indicators

register-ok :
    (name : Text) (indicator : Indicator) (probe after : Probe)
    → register name indicator probe ≡ ok after
    → probe ++ (name, indicator) ∷ [] ≡ after
unfolding register
register-ok name indicator probe after e = elim (Bool-cases (has_key name probe)) [
  | inl taken ↦ absurd (ground (arith, taken, e))
  | inr new ↦
      let stored : set name indicator probe ≡ after = ground (arith, new, e) in
      sym (set-absent name indicator probe new) ∙ stored
]

register_all-entries :
    (indicators : List (Text × ℕ)) (service after : HealthService)
    → register_all indicators service ≡ ok after
    → (after.readiness_probe ≡ service.readiness_probe ++ entries_of indicators)
      × (after.liveness_probe ≡ service.liveness_probe)
unfolding register_all register_readiness
register_all-entries [] service after e =
    let same : service ≡ after = ok-injective _ _ e in
    (
      sym (ap (λ (s : HealthService). s.readiness_probe) same)
          ∙ sym (append-nil service.readiness_probe),
      sym (ap (λ (s : HealthService). s.liveness_probe) same),
    )
register_all-entries ((name, n) ∷ indicators) service after e =
    let (mid, first, second) =
      bind-ok (register_readiness (name, n) service)
        (λ (s : HealthService). register_all indicators s) after e in
    let (probe, one, stored) =
      bind-ok (register name (registered n) service.readiness_probe)
        (λ (p : Probe). ok (record service { readiness_probe = p })) mid first in
    let rest = register_all-entries indicators mid after second in
    let here : record service { readiness_probe = probe } ≡ mid = ok-injective _ _ stored in
    (
      rest.0
          ∙ ap (λ (s : HealthService). s.readiness_probe ++ entries_of indicators) (sym here)
          ∙ ap (λ p. p ++ entries_of indicators)
              (sym (register-ok name (registered n) service.readiness_probe probe one))
          ∙ append_assoc service.readiness_probe ((name, registered n) ∷ [])
              (entries_of indicators),
      rest.1 ∙ ap (λ (s : HealthService). s.liveness_probe) (sym here),
    )

-- An indicator serves if its check answers in time, with a result that is up.
abbrev pub IsServing : Outcome → Type 0
IsServing (answers result) = result.status ≡ up
IsServing _ = ⊥

is_down_iff : (s : HealthStatus) → (is_down s ≡ false) ↔ (s ≡ up)
is_down_iff up = (λ e. refl, λ e. refl)
is_down_iff down = (λ e. absurd (ground (arith, e)), λ e. absurd (ground (arith, e)))

result_of_iff : (o : Outcome) → ((result_of o).status ≡ up) ↔ IsServing o
result_of_iff (answers result) = (λ e. e, λ e. e)
result_of_iff times_out = (λ e. absurd (ground (arith, e)), λ e. absurd e)
result_of_iff raises = (λ e. absurd (ground (arith, e)), λ e. absurd e)
result_of_iff answers_otherwise = (λ e. absurd (ground (arith, e)), λ e. absurd e)

lifecycle_result_iff : (r : Report) → ((lifecycle_result r).status ≡ up) ↔ (r ≡ lifecycle_up)
lifecycle_result_iff lifecycle_up = (λ e. refl, λ e. refl)
lifecycle_result_iff down_draining =
    (λ e. absurd (ground (arith, e)), λ e. absurd (ground (arith, e)))
lifecycle_result_iff down_starting =
    (λ e. absurd (ground (arith, e)), λ e. absurd (ground (arith, e)))

module _ (outcomes : ℕ → Outcome) (state : ReadinessState) where
  entries_up_iff :
      (indicators : List (Text × ℕ))
      → (any entry_is_down (checks_of outcomes state (entries_of indicators)) ≡ false)
        ↔ All (λ (i : Text × ℕ). IsServing (outcomes i.1)) indicators
  unfolding checks_of
  entries_up_iff [] = (λ e. tt, λ all. refl)
  entries_up_iff ((name, n) ∷ indicators) =
      let rest = entries_up_iff indicators in
      let one = is_down_iff (result_of (outcomes n)).status in
      let serves = result_of_iff (outcomes n) in
      (
        λ e. (serves.0 (one.0 (ground (arith, e))), rest.0 (ground (arith, e))),
        λ all. ground (arith, one.1 (serves.1 all.0), rest.1 all.1),
      )

  -- With any indicators registered for readiness, the probe is up exactly if the lifecycle check is and
  -- the check of each indicator answers in time, with a result that is up; and the liveness probe, for
  -- which none is registered, is up in every case.
  pub readiness_iff :
      (indicators : List (Text × ℕ)) (service : HealthService)
      → register_all indicators new_service ≡ ok service
      → (((readiness outcomes state service).0 ≡ up) ↔ (
          (lifecycle_check state ≡ lifecycle_up)
          × All (λ (i : Text × ℕ). IsServing (outcomes i.1)) indicators))
        × ((liveness outcomes state service).0 ≡ up)
  unfolding run checks_of
  readiness_iff indicators service e =
      let (ready, alive) = register_all-entries indicators new_service service e in
      let rest = entries_up_iff indicators in
      let own = is_down_iff (lifecycle_result (lifecycle_check state)).status in
      let reported = lifecycle_result_iff (lifecycle_check state) in
      (
        subst
            (λ (p : Probe). ((run outcomes state p).0 ≡ up) ↔ (
              (lifecycle_check state ≡ lifecycle_up)
              × All (λ (i : Text × ℕ). IsServing (outcomes i.1)) indicators))
            (sym ready)
            (
              λ h. elim (Bool-cases (is_down (lifecycle_result (lifecycle_check state)).status)) [
                | inl bad ↦ absurd (ground (arith, bad, h))
                | inr good ↦
                    elim (Bool-cases
                      (any entry_is_down (checks_of outcomes state (entries_of indicators)))) [
                        | inl bad ↦ absurd (ground (arith, good, bad, h))
                        | inr fine ↦ (reported.0 (own.0 good), rest.0 fine)
                      ]
              ],
              λ both. ground (arith, own.1 (reported.1 both.0), rest.1 both.1),
            ),
        subst (λ (p : Probe). (run outcomes state p).0 ≡ up) (sym alive) refl,
      )
