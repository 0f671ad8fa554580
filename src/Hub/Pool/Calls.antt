-- ===== src/Hub/Pool/Calls.antt =====
-- packages/hub/src/subnode.ts: `dispatch`, `assignAndSend` and `spawnWorker`.
use constellation_mcp.Prelude.{
  ℕ, ◌+◌, Bool, true, false, not, ◌&&◌, List, [], ◌∷◌, ◌++◌, Option, none, some, if◌then◌else◌,
  find, keep, remove_first, length, ltb, leb,
}
use constellation_mcp.Prelude.Text.{text, decimal}
use constellation_mcp.Prelude.Table.{get, put}
use constellation_mcp.Prelude.Strings.{Integer}
use constellation_mcp.Hub.Identity.{ResolvedIdentity}
use constellation_mcp.Hub.Rpc.{DispatchResult, dispatch_error}
use constellation_mcp.Hub.Pool.{
  Config, UidRestriction, check_uid_restrictions, uid_blocked, check_gid_restrictions, Request,
  Tier, warm, burst, Worker, worker_runs_as, Pending, Waiting, State, is_same, answer,
}
use constellation_mcp.Hub.Pool.Workers.{
  workers_of, is_on, update_worker, is_busy, remove_all, evict_subnode_workers, send_request,
}

abbrev pub hub_shutting_down : DispatchResult
hub_shutting_down =
    dispatch_error (text "worker_error") (text "HUB_SHUTTING_DOWN — retry after 45 seconds")

unfoldable pub check_groups : Option UidRestriction → Request → State → State
check_groups (some restriction) r s =
    answer r (uid_blocked r) (evict_subnode_workers r.identity.username s)
check_groups none r s = record s { checking = s.checking ++ r ∷ [] }

-- Up to the lookup of the groups.
unfoldable pub dispatch : Config → Request → State → State
dispatch cfg r s =
    if s.shutting_down
    then answer r hub_shutting_down s
    else check_groups (check_uid_restrictions cfg r.identity.uid) r s

-- `assignAndSend`, which waits for the lock.
abbrev assign_and_send : ℕ → Request → State → State
assign_and_send n r s = record s { waiting = s.waiting ++ record { subnode = n; request = r } ∷ [] }

unfoldable pub at_capacity : Config → State → Bool
at_capacity cfg s =
    ltb 0 cfg.max_concurrent_subnodes && leb cfg.max_concurrent_subnodes (length s.subnodes)

unfoldable pub subnode_limit : DispatchResult
subnode_limit = dispatch_error (text "subnode_limit") (
    text
      "Hub is at capacity for the number of distinct users it can serve concurrently. Please try again shortly.")

unfoldable pub find_subnode : Config → Option ℕ → Request → State → State
find_subnode cfg (some n) r s = assign_and_send n r s
find_subnode cfg none r s =
    if at_capacity cfg s
    then answer r subnode_limit s
    else assign_and_send s.next r
        (record s { subnodes = put s.subnodes r.identity.username s.next; next = s.next + 1 })

unfoldable pub with_groups : Config → Option DispatchResult → Request → State → State
with_groups cfg (some blocked) r s = answer r blocked (evict_subnode_workers r.identity.username s)
with_groups cfg none r s = find_subnode cfg (get s.subnodes r.identity.username) r s

-- From the answer of `getGroupIds` on; `r` is among those that are checked.
unfoldable pub on_groups : Config → Option (List Integer) → Request → State → State
on_groups cfg groups r s =
    with_groups cfg (check_gid_restrictions cfg groups r) r
      (record s { checking = remove_first (is_same r) s.checking })

unfoldable pub is_stale : State → ResolvedIdentity → Worker → Bool
is_stale s identity w = not (is_busy s w) && not (worker_runs_as w identity)

-- The workers that run under other credentials go, and the map holds the subnode again.
unfoldable pub drop_stale : ℕ → Request → State → State
drop_stale n r s =
    let left = remove_all (keep (is_stale s r.identity) (workers_of s n)) s in
    record left { subnodes = put left.subnodes r.identity.username n }

unfoldable pub spawn_failed : DispatchResult
spawn_failed =
    dispatch_error (text "spawn_failed") (text "Failed to spawn a worker process for this request.")

-- Up to the wait for the worker's `ready`; `forked` is whether `fork` returns.
unfoldable pub spawn_worker : (forked : Bool) → ℕ → Tier → Request → State → State
spawn_worker forked n tier r s = if not forked then answer r spawn_failed s else record s {
  next = s.next + 1;
  workers =
      s.workers
      ++ record {
        id = s.next;
        subnode = n;
        uid = r.identity.uid;
        gid = r.identity.gid;
        tier = tier;
        ready = false;
        pooled = false;
        idle_timer = false;
        removed = false;
      }
        ∷ [];
  spawning = s.spawning ++ record { worker = s.next; subnode = n; request = r } ∷ [];
}

unfoldable pub is_free : State → Worker → Bool
is_free s w = w.ready && not (is_busy s w)

unfoldable pub enqueue : Config → (now : ℕ) → ℕ → Request → State → State
enqueue cfg now n r s = record s {
  queue =
      s.queue ++ record { subnode = n; request = r; deadline = now + cfg.queue_timeout_ms } ∷ [];
}

-- The choice between an idle worker, a new one and the queue; `size` is that of `subnode.workers`.
unfoldable pub assign :
    Config
    → (now : ℕ) → (forked accepted : Bool) → ℕ
    → Request
    → (size : ℕ) → Option Worker
    → State
    → State
assign cfg now forked accepted n r size (some w) s = send_request accepted w r s
assign cfg now forked accepted n r size none s =
    if ltb size cfg.max_workers
    then spawn_worker forked n (if ltb size cfg.min_workers then warm else burst) r s
    else enqueue cfg now n r s

unfoldable pub assign_to :
    Config → (now : ℕ) → (forked accepted : Bool) → ℕ → Request → State → State
assign_to cfg now forked accepted n r s =
    assign cfg now forked accepted n r (length (workers_of s n)) (find (is_free s) (workers_of s n))
      s

-- The callback that runs under the lock, for the call that is first in line.
unfoldable pub run_locked : Config → (now : ℕ) → (forked accepted : Bool) → Waiting → State → State
run_locked cfg now forked accepted w s =
    let begun = record s { waiting = remove_first (λ v. is_same w.request v.request) s.waiting } in
    assign_to cfg now forked accepted w.subnode w.request (drop_stale w.subnode w.request begun)

unfoldable pub on_spawned : (accepted : Bool) → Worker → Option Pending → State → State
on_spawned accepted w none s = record s {
  workers = update_worker (λ v. record v { ready = true }) w.id s.workers;
}
on_spawned accepted w (some p) s = send_request accepted w p.request (record s {
  workers = update_worker (λ v. record v { ready = true; pooled = true }) w.id s.workers;
  spawning = remove_first (λ q. is_same p.request q.request) s.spawning;
})

-- The worker is ready: if a call waits for it, the worker joins its subnode and is sent the request.
unfoldable pub on_ready : (accepted : Bool) → Worker → State → State
on_ready accepted w s = on_spawned accepted w (find (is_on w.id) s.spawning) s

-- The worker's process is told to end; the pool hears of that by its exit.
unfoldable pub on_spawn_timeout : Config → Pending → State → State
on_spawn_timeout cfg p s =
    answer p.request
      (dispatch_error (text "spawn_failed") (
        text "Subnode worker did not signal ready within "
        ++ (decimal cfg.rpc_timeout_ms ++ text "ms")))
      (record s { spawning = remove_first (λ q. is_same p.request q.request) s.spawning })
