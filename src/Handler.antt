-- ===== src/Handler.antt =====
-- The components of include/boost/taar/handler.
pub mod Glob
pub mod ContentCache
pub mod Conditional
pub mod Paths
