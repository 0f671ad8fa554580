-- ===== src/Hub/Pool/Stranded/Completed.antt =====
-- packages/hub/src/subnode.ts: the end of a request or of the pool leaves no queue without a worker.
use constellation_mcp.Prelude.{
  ℕ, zero, suc, Bool, not, List, [], ◌∷◌, Option, none, some, find, keep, keep-mem, remove_first,
  length, ltb, if-case,
}
use constellation_mcp.Prelude.Text.{Text}
use constellation_mcp.Shared.Json.{Value}
use constellation_mcp.Hub.Rpc.{DispatchResult}
use constellation_mcp.Hub.Pool.{
  Config, UidRestriction, Request, Worker, Pending, QueuedRequest, State, answer, is_same,
  check_uid_restrictions, uid_blocked, worker_runs_as,
}
use constellation_mcp.Hub.Pool.Workers.{
  is_queued, is_busy, remove_all, evict_subnode_workers, workers_of,
}
use constellation_mcp.Hub.Pool.Replies.{
  queue_timeout, recheck, next_queued, recheck_done, complete, stop_idle, is_mapped, stop_each,
  drain, on_request_complete, begin_shutdown,
}
use constellation_mcp.Prelude.Members.{mem-remove_first}
use constellation_mcp.Prelude.Members.{mem-remove_first}
use constellation_mcp.Hub.Pool.Stranded.{IsServed, Both}
use constellation_mcp.Hub.Pool.Stranded.Assigned.{
  remove-Served, evict-Both, remove_all-Both, reset_idle_timer-Served, send_request-Served,
}

module _ (cfg : Config) where
  recheck-Served :
      (o : Option UidRestriction) (w : Worker) (r : Request) (again : State → State) (s : State)
      → ((t : State) → Both t → IsServed (again t))
      → Both s
      → IsServed (recheck o w r again s)
  unfolding recheck
  recheck-Served (some x) w r again s rest b =
      rest (answer r (uid_blocked r) (evict_subnode_workers r.identity.username s))
        (evict-Both r.identity.username s b)
  recheck-Served none w r again s rest b = b.1

  next_queued-Served :
      (now : ℕ) (w : Worker) (o : Option QueuedRequest) (again : State → State) (s : State)
      → ((t : State) → Both t → IsServed (again t))
      → Both s
      → IsServed (next_queued cfg now w o again s)
  unfolding next_queued
  next_queued-Served now w none again s rest b = reset_idle_timer-Served w s b.1
  next_queued-Served now w (some q) again s rest (tidy, v) =
      let same : QueuedRequest → Bool = λ p. is_same q.request p.request in
      let taken : State = record s { queue = remove_first same s.queue } in
      let fewer : Both taken = (tidy, λ p m. v p (mem-remove_first same s.queue m)) in
      if-case IsServed (ltb q.deadline now) _ _
        (λ e. rest (answer q.request queue_timeout taken) fewer)
        λ e.
          if-case IsServed (not (worker_runs_as w q.request.identity)) _ _
            (λ f. remove-Served w.id taken fewer)
            λ f.
              recheck-Served (check_uid_restrictions cfg q.request.identity.uid) w q.request again
                taken rest fewer

  drain-Served :
      (now fuel : ℕ) (w : Worker) (s : State) → Both s → IsServed (drain cfg now fuel w s)
  unfolding drain
  drain-Served now zero w s b = reset_idle_timer-Served w s b.1
  drain-Served now (suc fuel) w s b =
      next_queued-Served now w (find (is_queued w.subnode) s.queue) _ s
        (λ t. drain-Served now fuel w t) b

  pub recheck_done-Served :
      (now : ℕ) (accepted : Bool) (o : Option DispatchResult) (w : Worker) (r : Request) (s : State)
      → Both s
      → IsServed (recheck_done cfg now accepted o w r s)
  unfolding recheck_done on_request_complete
  recheck_done-Served now accepted (some blocked) w r s b =
      let out : State = answer r blocked (evict_subnode_workers r.identity.username s) in
      drain-Served now (suc (length out.queue)) w out (evict-Both r.identity.username s b)
  recheck_done-Served now accepted none w r s b = send_request-Served accepted w r s b.1

  pub complete-Served :
      (now : ℕ) (w : Worker) (o : Option Pending) (result error : Value) (s : State)
      → Both s
      → IsServed (complete cfg now w o result error s)
  unfolding complete on_request_complete
  complete-Served now w none result error s b = remove-Served w.id s b
  complete-Served now w (some p) result error s b =
      drain-Served now (suc (length s.queue)) w
        (record s { pending = remove_first (λ q. is_same p.request q.request) s.pending }) b

stop_idle-Served : (es : List (Text × ℕ)) (s : State) → Both s → IsServed (stop_idle es s)
unfolding stop_idle
stop_idle-Served [] s b = b.1
stop_idle-Served ((username, n) ∷ es) s b =
    let idle : List Worker = keep (λ w. not (is_busy s w)) (workers_of s n) in
    stop_idle-Served es (remove_all idle s) (remove_all-Both idle s b)

pub begin_shutdown-Served : (s : State) → Both s → IsServed (begin_shutdown s)
unfolding begin_shutdown
begin_shutdown-Served s (tidy, v) =
    stop_idle-Served s.subnodes _
      (tidy, λ q m. v q (keep-mem (λ p. not (is_mapped s p)) s.queue m).0)

pub stop_each-Served : (es : List (Text × ℕ)) (s : State) → Both s → IsServed (stop_each es s)
unfolding stop_each
stop_each-Served [] s b = b.1
stop_each-Served ((username, n) ∷ es) s b =
    stop_each-Served es (remove_all (workers_of s n) s) (remove_all-Both (workers_of s n) s b)
