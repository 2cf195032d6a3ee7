-- ===== src/Server.antt =====
-- Package pkg/erserver: the server.
pub mod Mounts
pub mod IpFilter
pub mod HostRegexp
pub mod Serve
pub mod Sync
