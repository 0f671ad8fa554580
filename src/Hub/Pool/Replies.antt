-- ===== src/Hub/Pool/Replies.antt =====
-- packages/hub/src/subnode.ts: the messages and the end of a worker, `onRequestComplete`, the timers
-- and `shutdown`.
use constellation_mcp.Prelude.{
  ℕ, zero, suc, Bool, true, not, List, [], ◌∷◌, ◌++◌, Option, none, some, if◌then◌else◌, any, find,
  keep, remove_first, length, ltb,
}
use constellation_mcp.Prelude.Text.{Text, text, decimal}
use constellation_mcp.Prelude.Strings.{Integer}
use constellation_mcp.Shared.Json.{Value}
use constellation_mcp.Hub.Rpc.{DispatchResult, dispatch_error, responded}
use constellation_mcp.Hub.Pool.{
  Config, UidRestriction, check_uid_restrictions, uid_blocked, check_gid_restrictions, Request,
  Worker, worker_runs_as, Pending, QueuedRequest, State, is_same, answer,
}
use constellation_mcp.Hub.Pool.Workers.{
  is_for, workers_of, is_busy, is_queued, answered, remove_worker, remove_all,
  evict_subnode_workers, reset_idle_timer, send_request,
}
use constellation_mcp.Hub.Pool.Calls.{hub_shutting_down}

abbrev pub queue_timeout : DispatchResult
queue_timeout = dispatch_error (text "timeout") (text "Request timed out waiting for a free worker")

abbrev pub identity_changed : DispatchResult
identity_changed =
    dispatch_error (text "worker_error")
      (text "Your account's identity changed while this request was queued. Please retry.")

unfoldable pub recheck :
    Option UidRestriction → Worker → Request → (again : State → State) → State → State
recheck (some restriction) w r again s =
    again (answer r (uid_blocked r) (evict_subnode_workers r.identity.username s))
recheck none w r again s = record s {
  rechecking = s.rechecking ++ record { worker = w.id; subnode = w.subnode; request = r } ∷ [];
}

-- A round of the loop of `onRequestComplete`, for the entry that was taken from the queue, up to
-- the lookup of its groups; `again` is the rest of the loop.
unfoldable pub next_queued :
    Config → (now : ℕ) → Worker → Option QueuedRequest → (again : State → State) → State → State
next_queued cfg now w none again s = reset_idle_timer w s
next_queued cfg now w (some q) again s =
    let taken = record s { queue = remove_first (λ p. is_same q.request p.request) s.queue } in
    if ltb q.deadline now
    then again (answer q.request queue_timeout taken)
    else if not (worker_runs_as w q.request.identity)
    then answer q.request identity_changed (remove_worker w.id taken)
    else recheck (check_uid_restrictions cfg q.request.identity.uid) w q.request again taken

-- The loop of `onRequestComplete`; each round takes an entry from the queue.
unfoldable pub drain : Config → (now : ℕ) → ℕ → Worker → State → State
drain cfg now zero w s = reset_idle_timer w s
drain cfg now (suc fuel) w s =
    next_queued cfg now w (find (is_queued w.subnode) s.queue) (λ t. drain cfg now fuel w t) s

unfoldable pub on_request_complete : Config → (now : ℕ) → Worker → State → State
on_request_complete cfg now w s = drain cfg now (suc (length s.queue)) w s

unfoldable pub recheck_done :
    Config
    → (now : ℕ) → (accepted : Bool) → Option DispatchResult
    → Worker
    → Request
    → State
    → State
recheck_done cfg now accepted (some blocked) w r s =
    on_request_complete cfg now w (answer r blocked (evict_subnode_workers r.identity.username s))
recheck_done cfg now accepted none w r s = send_request accepted w r s

-- From the answer of `getGroupIds` on.
unfoldable pub on_recheck :
    Config
    → (now : ℕ) → Option (List Integer)
    → (accepted : Bool) → Worker
    → Pending
    → State
    → State
on_recheck cfg now groups accepted w p s =
    recheck_done cfg now accepted (check_gid_restrictions cfg groups p.request) w p.request
      (record s { rechecking = remove_first (λ q. is_same p.request q.request) s.rechecking })

unfoldable pub complete :
    Config → (now : ℕ) → Worker → Option Pending → (result error : Value) → State → State
complete cfg now w none result error s = remove_worker w.id s
complete cfg now w (some p) result error s = answer p.request (responded result error) (
    on_request_complete cfg now w
      (record s { pending = remove_first (λ q. is_same p.request q.request) s.pending }))

unfoldable pub on_response :
    Config → (now : ℕ) → Worker → Text → (result error : Value) → State → State
on_response cfg now w request_id result error s =
    complete cfg now w (find (is_for w.id request_id) s.pending) result error s

-- The timer of `sendRequest`.
unfoldable pub on_rpc_timeout : Config → Pending → State → State
on_rpc_timeout cfg p s =
    answer p.request
      (dispatch_error (text "timeout")
        (text "Request did not complete within " ++ (decimal cfg.rpc_timeout_ms ++ text "ms")))
      (remove_worker p.worker
        (record s { pending = remove_first (λ q. is_same p.request q.request) s.pending }))

-- The same timer, of a call whose entry of `pending` another one has replaced: the entry that is there
-- is deleted, and the timer of its call runs on.
unfoldable pub on_replaced_timeout : Config → Pending → State → State
on_replaced_timeout cfg p s =
    let here = is_for p.worker p.request.request_id in
    answer p.request
      (dispatch_error (text "timeout")
        (text "Request did not complete within " ++ (decimal cfg.rpc_timeout_ms ++ text "ms")))
      (remove_worker p.worker (record s {
        pending = keep (λ q. not (here q)) s.pending;
        replaced =
            remove_first (λ q. is_same p.request q.request) s.replaced ++ keep here s.pending;
      }))

-- The timer of an entry that is still in the queue.
unfoldable pub expire_queued : QueuedRequest → State → State
expire_queued q s =
    answer q.request queue_timeout
      (record s { queue = remove_first (λ p. is_same q.request p.request) s.queue })

-- The subnodes that the map holds have their workers removed that are not busy.
unfoldable pub stop_idle : List (Text × ℕ) → State → State
stop_idle [] s = s
stop_idle ((username, n) ∷ rest) s =
    stop_idle rest (remove_all (keep (λ w. not (is_busy s w)) (workers_of s n)) s)

-- Whether the map holds the subnode.
unfoldable pub is_mapped : State → QueuedRequest → Bool
is_mapped s q = any (λ (e : Text × ℕ). is_queued e.1 q) s.subnodes

-- `shutdown`, up to the wait for the requests in flight.
unfoldable pub begin_shutdown : State → State
begin_shutdown s = stop_idle s.subnodes (record s {
  shutting_down = true;
  queue = keep (λ q. not (is_mapped s q)) s.queue;
  answers =
      answered (λ (q : QueuedRequest). q.request) hub_shutting_down (keep (is_mapped s) s.queue)
      ++ s.answers;
})

unfoldable pub stop_each : List (Text × ℕ) → State → State
stop_each [] s = s
stop_each ((username, n) ∷ rest) s = stop_each rest (remove_all (workers_of s n) s)

-- After the wait.
unfoldable pub end_shutdown : State → State
end_shutdown s = stop_each s.subnodes s
