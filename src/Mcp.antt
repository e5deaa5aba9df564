-- ===== src/Mcp.antt =====
-- include/boost/taar/mcp: the sessions of the Model Context Protocol endpoint.
pub mod EventStream
pub mod Pending
pub mod Paging
