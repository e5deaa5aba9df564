-- ===== src/Matcher.antt =====
-- include/boost/taar/matcher: path templates and how they match a request target.
pub mod Template
pub mod Target
