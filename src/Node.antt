-- ===== src/Node.antt =====
-- packages/node: a user's own executor.
pub mod Rpc
