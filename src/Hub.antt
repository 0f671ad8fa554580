-- ===== src/Hub.antt =====
-- packages/hub/src: the hub, which serves shares of a machine to its many users.
pub mod Permissions
pub mod Identity
pub mod Rpc
pub mod Worker
pub mod Pool
