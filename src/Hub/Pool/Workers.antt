-- ===== src/Hub/Pool/Workers.antt =====
-- packages/hub/src/subnode.ts: `removeWorker`, `evictSubnodeWorkers`, `resetIdleTimer` and
-- `sendRequest`.
use constellation_mcp.Prelude.{
  ℕ, Bool, true, false, not, ◌&&◌, List, [], ◌∷◌, ◌++◌, Option, none, some, map, if◌then◌else◌, any,
  find, keep, ◌==◌,
}
use constellation_mcp.Prelude.Text.{Text, text, eq_text}
use constellation_mcp.Prelude.Table.{get, sift}
use constellation_mcp.Hub.Rpc.{DispatchResult, dispatch_error}
use constellation_mcp.Hub.Pool.{Request, Worker, Pending, QueuedRequest, State, answer}

unfoldable pub is_of : ℕ → Worker → Bool
is_of n w = w.pooled && w.subnode == n

-- `subnode.workers`.
abbrev pub workers_of : State → ℕ → List Worker
workers_of s n = keep (is_of n) s.workers

unfoldable pub is_on : ℕ → Pending → Bool
is_on id p = p.worker == id

-- Whether `worker.pending.size` is not 0.
unfoldable pub is_busy : State → Worker → Bool
is_busy s w = any (is_on w.id) s.pending

unfoldable pub update_worker : (Worker → Worker) → ℕ → List Worker → List Worker
update_worker f id = map (λ (w : Worker). if w.id == id then f w else w)

-- The calls of some entries, with what they return.
unfoldable pub answered {ℓ} :
    {A : Type ℓ} → (A → Request) → DispatchResult → List A → List (Request × DispatchResult)
answered f result = map (λ x. (f x, result))

abbrev pub terminated : DispatchResult
terminated = dispatch_error (text "worker_error") (text "Subnode worker terminated unexpectedly")

abbrev pub not_ready : DispatchResult
not_ready = dispatch_error (text "spawn_failed") (text "Subnode worker terminated unexpectedly")

abbrev pub stranded : DispatchResult
stranded =
    dispatch_error (text "worker_error")
      (text "All workers terminated before this request could be processed")

unfoldable pub is_queued : ℕ → QueuedRequest → Bool
is_queued n q = q.subnode == n

-- What follows when a subnode has lost its last worker. Only its user's entry of the map can hold it.
unfoldable pub close_subnode : ℕ → State → State
close_subnode n s = record s {
  queue = keep (λ q. not (is_queued n q)) s.queue;
  answers =
      answered (λ (q : QueuedRequest). q.request) stranded (keep (is_queued n) s.queue)
      ++ s.answers;
  subnodes = sift (λ m. if m == n then none else some m) s.subnodes;
}

unfoldable pub unpool : Worker → Worker
unpool w = record w { pooled = false; idle_timer = false; removed = true }

-- The worker leaves its subnode, and its calls are rejected.
unfoldable pub detach : Worker → State → State
detach w s = record s {
  workers = update_worker unpool w.id s.workers;
  spawning = keep (λ p. not (is_on w.id p)) s.spawning;
  pending = keep (λ p. not (is_on w.id p)) s.pending;
  answers =
      answered (λ (p : Pending). p.request) terminated (keep (is_on w.id) s.pending)
      ++ (answered (λ (p : Pending). p.request) not_ready (keep (is_on w.id) s.spawning)
          ++ s.answers);
}

unfoldable pub find_worker : State → ℕ → Option Worker
find_worker s id = find (λ (w : Worker). w.id == id) s.workers

unfoldable pub remove_found : Option Worker → State → State
remove_found none s = s
remove_found (some w) s =
    if w.removed
    then s
    else (let left = detach w s in
        if any (is_of w.subnode) left.workers then left else close_subnode w.subnode left)

unfoldable pub remove_worker : ℕ → State → State
unfolding remove_found
remove_worker id s = remove_found (find_worker s id) s

unfoldable pub remove_all : List Worker → State → State
remove_all [] s = s
remove_all (w ∷ ws) s = remove_all ws (remove_worker w.id s)

unfoldable pub remove_workers_of : Option ℕ → State → State
remove_workers_of none s = s
remove_workers_of (some n) s = remove_all (workers_of s n) s

unfoldable pub evict_subnode_workers : Text → State → State
unfolding remove_workers_of
evict_subnode_workers username s = remove_workers_of (get s.subnodes username) s

-- The timer that was set before is replaced.
unfoldable pub reset_idle_timer : Worker → State → State
reset_idle_timer w s = record s {
  workers = update_worker (λ v. record v { idle_timer = not (is_busy s w) }) w.id s.workers;
}

-- The entry of `worker.pending` for a request id.
unfoldable pub is_for : (worker : ℕ) → Text → Pending → Bool
is_for id request_id p = is_on id p && eq_text p.request.request_id request_id

-- `accepted` is what `child.send` returns; a message that it does not accept may arrive nonetheless.
-- An entry of `pending` for the same request id is replaced; the order of the entries is left out.
unfoldable pub send_request : (accepted : Bool) → Worker → Request → State → State
send_request accepted w r s =
    let here = is_for w.id r.request_id in
    let others = keep (λ p. not (here p)) s.pending in
    let logged = record s {
      sent = (w, r) ∷ s.sent;
      pending = others;
      replaced = s.replaced ++ keep here s.pending;
    } in
    if accepted
    then record logged {
      pending = others ++ record { worker = w.id; subnode = w.subnode; request = r } ∷ [];
    }
    else answer r
        (dispatch_error (text "worker_error")
          (text "Failed to send the request to a worker process."))
        logged
