-- ===== src/Core.antt =====
-- include/boost/taar/core: text formats and concurrent building blocks.
pub mod Base64
pub mod ByteRange
pub mod Cookies
pub mod EntityTag
pub mod AcceptEncoding
pub mod AsyncChannel
pub mod AsyncLock
pub mod Cors
pub mod ContextStore
pub mod PartHeaders
pub mod Multipart
pub mod Mime
pub mod HttpDate
pub mod SegmentedBody
