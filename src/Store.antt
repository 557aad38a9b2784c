-- ===== src/Store.antt =====
-- pkg/store: where the plugins put their results.
pub mod Config
pub mod InKube
pub mod Persistent
pub mod Metrics
pub mod Factory
