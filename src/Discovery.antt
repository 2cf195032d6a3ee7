-- ===== src/Discovery.antt =====
-- Package pkg/erdiscovery: where the configuration comes from.
pub mod Service
pub mod Traefik
pub mod Udocker
pub mod Docker
pub mod EventLog
pub mod Multi
pub mod Bucket
