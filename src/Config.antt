-- ===== src/Config.antt =====
-- Package pkg/erconfig: application configuration.
mod Types
pub mod Validate
pub mod Options
pub mod Factories
pub mod Describe
pub mod Find
pub use Types.*
