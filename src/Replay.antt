-- ===== src/Replay.antt =====
-- The replay of results in src/bustan/security/policy.py: `Results` is `_RecordedResults`, the bounded
-- store with expiry, `Interceptors` the cache and the idempotency keys that use it; the other modules
-- prove them right.
mod Tests
pub mod Results
pub mod Interceptors
pub mod Staleness
pub mod Runs
pub mod Retries
pub mod Keys
