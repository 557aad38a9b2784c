-- ===== src/HotUpdate.antt =====
-- pkg/plugins/hot_update: the plugin that downloads a patch and has the main container load it.
pub mod Config
pub mod Version
pub mod Processes
pub mod State
pub mod Pair
pub mod Download
pub mod Load
pub mod Handler
pub mod Requests
pub mod Start
pub mod Health
pub mod Plugin
