-- ===== src/Tests.antt =====
-- Concrete runs of the model and instances of the theorems, a module for each part.
mod Formats
mod Rpc
mod Dates
mod Mcp
mod Paging
mod Bodies
mod Routing
mod Media
mod Files
mod Policies
mod Sessions
mod Stores
mod Forms
mod Negotiation
mod Concurrency
