-- ===== src/Relay.antt =====
-- packages/relay/src: the relay between MCP clients and the executors, nodes and hubs.
pub mod RateLimit
pub mod Registry
pub mod Routing
pub mod Hub
