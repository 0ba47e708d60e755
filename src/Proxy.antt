-- ===== src/Proxy.antt =====
-- The proxy (src/proxy).
mod Tree
mod TreeEdit
mod TransformTests
mod RoutingTests
mod ForwardTests
mod ModelTests
mod Tests
mod UrlTests
pub mod Json
pub mod Truncate
pub mod UpstreamUrl
pub mod Sse
pub mod Thinking
pub mod Edit
pub mod Transform
pub mod Markers
pub mod Routing
pub mod Forward
pub mod Hooks
pub mod Flags
pub mod Headers
pub mod ModelRewrite
pub mod Router
