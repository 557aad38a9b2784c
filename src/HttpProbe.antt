-- ===== src/HttpProbe.antt =====
-- pkg/plugins/http_probe: the plugin that asks endpoints for their state and stores the answers.
pub mod Config
pub mod Health
pub mod Executor
pub mod Plugin
pub mod Workers
