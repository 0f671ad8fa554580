-- ===== src/Lib.antt =====
-- Constellation connects an MCP client to the file shares of a user's machines. The relay
-- (packages/relay) takes the client's tool calls, finds the executor that holds the share and sends
-- it an RPC over a WebSocket. The executor is a user's node (packages/node) or an admin's hub
-- (packages/hub), which checks the user's permissions on the share. Both run the tool with the
-- file executor of packages/shared, which resolves the paths of the request, keeps them inside the
-- share and refuses what the user's path filters block.
--
-- Files, by the code that they model (paths are under packages/):
--   Shared/Permissions, with its children   shared/src/permissions.ts
--   Shared/PathFilter, with its children    shared/src/path-filter.ts
--   Shared/Executor, with its children      shared/src/executor/index.ts and tools/safe-path.ts
--   Shared/Executor/Edit, with its children shared/src/executor/tools/fs-edit.ts
--   Hub/Permissions, with its children      hub/src/permissions.ts
--   Hub/Identity, with its children         hub/src/identity.ts
--   Hub/Rpc, with its children              hub/src/index.ts: handleRpc, guessShare, resolveDstShare
--   Hub/Worker, with its children           hub/src/subnode-worker.ts and subnode-worker-logic.ts
--   Hub/Pool, with its children             hub/src/subnode.ts
--   Relay/RateLimit, with its children      relay/src/router.ts: the rate limits
--   Relay/Routing, with its children        relay/src/router.ts: shares and tool calls
--   Node/Rpc, with its children             node/src/rpc.ts
--   Relay/Registry, with its children       relay/src/registry.ts
--   Relay/Hub/Sync, with its children       relay/src/hub.ts: handleHubShareSync
--   Shared/EnvFile, with its children       shared/src/env-file.ts
--   Shared/Json, Shared/NodePath            values of JavaScript, and what is used of node:path
--   Prelude, with its children              texts, maps and lists
-- A definition has the name of the function that it models, in snake case; the examples of a part
-- stand in its Tests module.
--
-- Strings are lists of UTF-16 code units. A Map is a list of entries with distinct keys, in the
-- order of insertion. State that a module keeps is a record that each operation takes and returns;
-- the time is an argument. The registry's promises are numbers, and its state lists the timers that
-- are live and the promises that were settled, in the order in which that happened. An exception is
-- a value of the result, and so is one that leaves `execute` (`escaped`); in the cleaning of an
-- executor's error it is none.
--
-- The worker pool is a relation between states: each callback of the event loop, up to its next wait,
-- is a step, and the steps come in any order. What the system answers is an argument of the step.
-- The subnodes and workers are numbers, and what their objects hold stands in lists for the whole
-- pool. A request that has the request id of one that waits at the same worker takes its entry there;
-- the replaced one keeps its timer (`replaced`). `send` refuses a message to a removed worker, and nothing comes from one.
--
-- The parts meet as in the source. Relay/Routing uses the permissions and the path filters of Shared,
-- and its envelope is what a node or a hub is sent. Hub/Rpc checks the envelope with Hub/Identity and
-- Hub/Permissions; Hub/Rpc/Destination puts its checks and `execute` of Shared/Executor together.
--
-- What editFile's truncation and write do to the file is an argument (`Write`).
--
-- The RE2 library is the record Engine of Shared/PathFilter. The answers of the file system are the
-- record Disk of Shared/Executor/Execute; two calls may be answered differently, so nothing is
-- assumed of what other processes do in between. The database of the relay is the record Database of
-- Relay/Routing, and what getent prints is the function Getent of Hub/Identity.
--
-- Fuel: the loop over the ancestors of a path (blocks_from) has one unit more than the path has
-- code units, and each round removes one of these at least. The resolution of a path (resolve) has
-- 51, since the source gives up when its depth exceeds 50. The loop of countOccurrences (count_from)
-- has one unit more than the text has code units, and each round goes past one of these at least.
-- onRequestComplete (drain) has one unit more than the queue has entries, and each round takes one.
--
-- Not modelled: logging, the wire formats, the HTTP interface of the relay, the rest of
-- relay/src/hub.ts (the handshake, heartbeats, token rotation, a node's config update), the
-- environment and the signals of the pool's workers, the commands and user interfaces, and the
-- tools that touch the disk after the executor's checks, except edit_file.
pub mod Prelude
pub mod Shared
pub mod Hub
pub mod Node
pub mod Relay
