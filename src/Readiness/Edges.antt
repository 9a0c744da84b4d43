-- ===== src/Readiness/Edges.antt =====
-- What a process has reported after any order of events: the answer depends only on which happened.
use bustan.Prelude.{
  ◌≡◌, refl, ap, ◌∙◌, Bool, true, false, ◌||◌, List, [], ◌∷◌, arith, any, if◌then◌else◌,
}
use bustan.Readiness.{
  ReadinessState, unstarted, begin_drain, bootstrap, before_shutdown, up, down_draining,
  down_starting, check, Event, drain_begins, bootstraps, shutdown_begins, handle, handle_all,
}

abbrev pub asks_to_stop : Event → Bool
asks_to_stop bootstraps = false
asks_to_stop drain_begins = true
asks_to_stop shutdown_begins = true

abbrev pub finishes_startup : Event → Bool
finishes_startup bootstraps = true
finishes_startup drain_begins = false
finishes_startup shutdown_begins = false

abbrev state_of : Bool → Bool → ReadinessState
state_of s d = record { started = s; draining = d }

state_eq : {s t d e : Bool} → s ≡ t → d ≡ e → state_of s d ≡ state_of t e
state_eq {s} {t} {d} {e} hs hd = ap (λ b. state_of b d) hs ∙ ap (state_of t) hd

or_nothing : (b : Bool) → b ≡ (b || false)
or_nothing b = ground arith

or_true : (a b : Bool) → (true || b) ≡ (a || (true || b))
or_true a b = ground arith

handle_all-eq :
    (events : List Event) (state : ReadinessState)
    → handle_all events state ≡ record {
      started = state.started || any finishes_startup events;
      draining = state.draining || any asks_to_stop events;
    }
unfolding handle_all handle begin_drain bootstrap before_shutdown
handle_all-eq [] state = state_eq (or_nothing state.started) (or_nothing state.draining)
handle_all-eq (drain_begins ∷ events) state =
    handle_all-eq events (begin_drain state)
    ∙ state_eq refl (or_true state.draining (any asks_to_stop events))
handle_all-eq (bootstraps ∷ events) state =
    handle_all-eq events (bootstrap state)
    ∙ state_eq (or_true state.started (any finishes_startup events)) refl
handle_all-eq (shutdown_begins ∷ events) state =
    handle_all-eq events (before_shutdown state)
    ∙ state_eq refl (or_true state.draining (any asks_to_stop events))

-- After any events in any order, a new process reports that it is draining if anything asked it to
-- stop, else that it is up if its startup finished, and else that it is starting.
pub check-handle_all :
    (events : List Event)
    → check (handle_all events unstarted) ≡ (
        if any asks_to_stop events
        then down_draining
        else if any finishes_startup events
        then up
        else down_starting)
unfolding check
check-handle_all events = ap check (handle_all-eq events unstarted)
