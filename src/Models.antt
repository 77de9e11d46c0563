-- ===== src/Models.antt =====
-- Package models (internal/models): the configuration and its reload.
pub mod Config
pub mod SafeConfig
