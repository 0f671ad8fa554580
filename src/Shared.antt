-- ===== src/Shared.antt =====
-- packages/shared/src: what the relay, the nodes and the hubs have in common.
pub mod Json
pub mod Permissions
pub mod PathFilter
pub mod NodePath
pub mod Executor
pub mod EnvFile
