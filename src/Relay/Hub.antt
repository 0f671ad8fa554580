-- ===== src/Relay/Hub.antt =====
-- packages/relay/src/hub.ts: the relay's side of an executor's connection.
pub mod Sync
