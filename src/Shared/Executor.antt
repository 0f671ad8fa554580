-- ===== src/Shared/Executor.antt =====
-- packages/shared/src/executor: the executor of a node or a hub's worker. Its validation of a request,
-- up to the operation on the file system that the request is allowed to perform.
pub mod SafePath
pub mod Tool
pub mod Errors
pub mod Dispatch
pub mod Execute
pub mod Filters
pub mod Edit
pub mod Tests
