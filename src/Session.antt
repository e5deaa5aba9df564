-- ===== src/Session.antt =====
-- session/http.hpp: the HTTP session of one connection.
pub mod Failures
pub mod Routes
pub mod Message
pub mod Stream
pub mod Answer
pub mod Turn
pub mod Continued
