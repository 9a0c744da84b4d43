-- ===== src/Routing.antt =====
-- The compiled routes of src/bustan/runtime: `Versioning` is versioning.py, `Contracts` the contract of
-- one route, `Registry` the checks of registry.py, `Plan` the route plan builder of routing.py; the
-- other modules prove them right.
mod Tests
pub mod Versioning
pub mod Contracts
pub mod Registry
pub mod Plan
pub mod Conflicts
pub mod Dispatch
pub mod Groups
pub mod Claims
pub mod Answers
