-- ===== src/Backends.antt =====
-- Package pkg/erbackend and pkg/erserver/backendfactory.go: the handlers of requests.
pub mod Handlers
pub mod Factory
pub mod AuthV0
pub mod Director
