-- ===== src/Relay/Registry.antt =====
-- packages/relay/src/registry.ts: the live connections, and the RPCs that wait for a response.
-- A JavaScript object has an identity, a timer fires once unless it is cleared, and a promise is
-- settled by its first `resolve` or `reject`: these are written out here.
pub mod Connections
pub mod Pending
pub mod Settles
pub mod Disconnects
pub mod Tests
use constellation_mcp.Prelude.{
  ℕ, suc, Bool, true, false, not, List, [], ◌∷◌, Option, none, some, if◌then◌else◌, ◌==◌, keep,
}
use constellation_mcp.Prelude.Text.{Text, eq_text}
use constellation_mcp.Prelude.Table.{Table, get, put, delete}

-- The fields that the registry reads, with the identity of the object.
pub record ConnectedExecutor : Type 0 where
  pub identity : ℕ
  pub executor_id : Text

abbrev pub Connections : Type 0
Connections = Table ConnectedExecutor

-- With the connection that occupied the slot.
pub register_connection : Connections → ConnectedExecutor → Connections × Option ConnectedExecutor
register_connection cs conn = (put cs conn.executor_id conn, get cs conn.executor_id)

-- `connections.get(conn.executorId) !== conn` on objects.
is_same : Option ConnectedExecutor → ConnectedExecutor → Bool
is_same none conn = false
is_same (some c) conn = c.identity == conn.identity

pub unregister_connection : Connections → ConnectedExecutor → Connections × Bool
unfolding is_same
unregister_connection cs conn =
    if is_same (get cs conn.executor_id) conn
    then (delete cs conn.executor_id, true)
    else (cs, false)

pub get_connection : Connections → Text → Option ConnectedExecutor
get_connection cs executor_id = get cs executor_id

-- Who waits: the promise that `resolve` and `reject` settle, which names its timer too.
pub record PendingRpc : Type 0 where
  pub promise : ℕ
  pub executor_id : Text

pub record Timer : Type 0 where
  pub promise : ℕ
  pub request_id : Text

-- How a promise was settled. `R` are the responses, `E` the errors.
pub data Outcome (R E : Type 0) : Type 0 where
  resolved : R → Outcome R E
  rejected : E → Outcome R E

pub record Rpcs (R E : Type 0) : Type 0 where
  pub pending : Table PendingRpc
  pub timers : List Timer
  pub settled : List (ℕ × Outcome R E)
  pub next_promise : ℕ

pub data ResolvePendingRpcResult : Type 0 where
  resolved not_found owner_mismatch : ResolvePendingRpcResult

-- `clearTimeout`.
abbrev pub clear : ℕ → List Timer → List Timer
clear promise = keep λ t. not (t.promise == promise)

module _ {R E : Type 0} where
  pub no_rpcs : Rpcs R E
  no_rpcs = record { pending = []; timers = []; settled = []; next_promise = 0 }

  -- The promise that is returned is `next_promise`.
  pub dispatch_pending_rpc : Rpcs R E → (request_id executor_id : Text) → Rpcs R E
  dispatch_pending_rpc s request_id executor_id = record {
    pending =
        put s.pending request_id (record { promise = s.next_promise; executor_id = executor_id });
    timers = record { promise = s.next_promise; request_id = request_id } ∷ s.timers;
    settled = s.settled;
    next_promise = suc s.next_promise;
  }

  -- The callback of a timer: it deletes whatever waits under its request id.
  pub fire : Rpcs R E → Timer → E → Rpcs R E
  fire s t timeout = record s {
    pending = delete s.pending t.request_id;
    timers = clear t.promise s.timers;
    settled = (t.promise, rejected timeout) ∷ s.settled;
  }

  -- `clearTimeout`, the deletion, and the promise.
  pub settle : Rpcs R E → Text → ℕ → Outcome R E → Rpcs R E
  settle s request_id promise outcome = record s {
    pending = delete s.pending request_id;
    timers = clear promise s.timers;
    settled = (promise, outcome) ∷ s.settled;
  }

  pub resolve_pending_rpc :
      Rpcs R E → (request_id responding_id : Text) → R → Rpcs R E × ResolvePendingRpcResult
  unfolding settle
  resolve_pending_rpc s request_id responding_id response = elim (get s.pending request_id) [
    | none ↦ (s, not_found)
    | some p ↦
        if not (eq_text p.executor_id responding_id)
        then (s, owner_mismatch)
        else (settle s request_id p.promise (resolved response), ResolvePendingRpcResult.resolved)
  ]

  -- The loop over the entries of the map, which deletes as it goes.
  pub reject_entries : Text → E → Table PendingRpc → Rpcs R E → Rpcs R E
  unfolding settle
  reject_entries executor_id error [] s = s
  reject_entries executor_id error ((request_id, p) ∷ rest) s =
      reject_entries executor_id error rest (
        if eq_text p.executor_id executor_id
        then settle s request_id p.promise (rejected error)
        else s)

  pub reject_pending_rpcs_for_executor : Rpcs R E → Text → E → Rpcs R E
  unfolding reject_entries
  reject_pending_rpcs_for_executor s executor_id error =
      reject_entries executor_id error s.pending s
