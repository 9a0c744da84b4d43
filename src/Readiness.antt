-- ===== src/Readiness.antt =====
-- health/readiness.py: the two edges that the readiness of a process turns on, and the check that
-- reports them.
mod Tests
pub mod Edges
use bustan.Prelude.{Bool, true, false, List, [], ◌∷◌, if◌then◌else◌}

pub record ReadinessState : Type 0 where
  pub started : Bool
  pub draining : Bool

-- `__init__`
abbrev pub unstarted : ReadinessState
unstarted = record { started = false; draining = false }

unfoldable pub begin_drain : ReadinessState → ReadinessState
begin_drain state = record state { draining = true }

unfoldable pub bootstrap : ReadinessState → ReadinessState
bootstrap state = record state { started = true }

unfoldable pub before_shutdown : ReadinessState → ReadinessState
before_shutdown state = record state { draining = true }

-- What a check reports: up, or down for one of the two edges.
pub data Report : Type 0 where
  up down_draining down_starting : Report

-- `LifecycleIndicator.check`
unfoldable pub check : ReadinessState → Report
check state = if state.draining then down_draining else if state.started then up else down_starting

-- What happens to the state in the life of a process
pub data Event : Type 0 where
  drain_begins bootstraps shutdown_begins : Event

unfoldable pub handle : Event → ReadinessState → ReadinessState
handle drain_begins state = begin_drain state
handle bootstraps state = bootstrap state
handle shutdown_begins state = before_shutdown state

unfoldable pub handle_all : List Event → ReadinessState → ReadinessState
handle_all [] state = state
handle_all (event ∷ rest) state = handle_all rest (handle event state)
