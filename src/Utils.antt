-- ===== src/Utils.antt =====
-- internal/utils
pub mod Dotenv
pub mod Env
