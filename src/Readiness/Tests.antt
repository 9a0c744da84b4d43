-- ===== src/Readiness/Tests.antt =====
-- A process that drains before it has started, and the theorem at it.
use bustan.Prelude.{◌≡◌, [], ◌∷◌}
use bustan.Readiness.{check, handle_all, unstarted, down_draining, drain_begins, bootstraps}
use bustan.Readiness.Edges.{check-handle_all}

check-handle_all_example :
    check (handle_all (drain_begins ∷ bootstraps ∷ []) unstarted) ≡ down_draining
check-handle_all_example = check-handle_all (drain_begins ∷ bootstraps ∷ [])
