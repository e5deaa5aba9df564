-- ===== src/JsonRpc.antt =====
-- include/boost/taar/jsonrpc: envelopes, the requests in flight and the endpoint that answers.
pub mod Json
pub mod Envelope
pub mod Requests
pub mod Endpoint
