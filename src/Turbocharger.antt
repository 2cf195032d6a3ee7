-- ===== src/Turbocharger.antt =====
-- pkg/turbocharger: the serving of static files by their content, from caches in front of a store.
pub mod Ids
pub mod Header
pub mod Middleware
pub mod Store
pub mod Manifest
pub mod Deployment
