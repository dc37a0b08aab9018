-- ===== src/Service.antt =====
-- internal/service: the handlers of the two topics and the outbox loop, over the store, the model,
-- the policy and the counters.
pub mod Snapshot
pub mod Metrics
pub mod Processor
pub mod Outbox
pub mod System
pub mod Commits
