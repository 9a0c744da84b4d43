-- ===== src/Lifecycle.antt =====
-- kernel/lifecycle: the hooks of modules and providers, and the startup and shutdown of an
-- application. `Runner` is runner.py, `Manager` manager.py, `Overrides` the
-- override manager of kernel/ioc/overrides.py; the other modules prove them right.
mod Tests
pub mod Runner
pub mod Manager
pub mod Overrides
pub mod Restarts
pub mod Failures
pub mod Startup
pub mod Stages
pub mod Participants
pub mod Cycle
