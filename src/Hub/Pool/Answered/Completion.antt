-- ===== src/Hub/Pool/Answered/Completion.antt =====
-- packages/hub/src/subnode.ts: the ends of requests and of the pool keep the count of calls.
use constellation_mcp.Prelude.{
  ◌++◌, ◌≡◌, refl, ap, ◌∙◌, ℕ, zero, suc, ◌+◌, Bool, not, List, [], ◌∷◌, Memᴰ, Option, none, some,
  arith, find, keep, remove_first, length, ltb, if-case,
}
use constellation_mcp.Prelude.Text.{Text}
use constellation_mcp.Prelude.Strings.{Integer}
use constellation_mcp.Shared.Json.{Value}
use constellation_mcp.Prelude.Tally.{tally, tally-append, tally-keep, find-Mem}
use constellation_mcp.Hub.Rpc.{DispatchResult}
use constellation_mcp.Hub.Pool.{
  Config, UidRestriction, Request, Worker, Pending, QueuedRequest, State, answer, is_same,
  check_uid_restrictions, uid_blocked, check_gid_restrictions, worker_runs_as,
}
use constellation_mcp.Hub.Pool.Workers.{
  is_queued, is_busy, answered, remove_worker, remove_all, evict_subnode_workers, workers_of,
}
use constellation_mcp.Hub.Pool.Calls.{hub_shutting_down}
use constellation_mcp.Hub.Pool.Replies.{
  queue_timeout, identity_changed, recheck, next_queued, recheck_done, complete, stop_idle,
  is_mapped, stop_each, drain, on_request_complete, on_recheck, on_response, on_rpc_timeout,
  on_replaced_timeout, expire_queued, begin_shutdown, end_shutdown,
}
use constellation_mcp.Hub.Pool.Workers.{is_for}
use constellation_mcp.Hub.Pool.Answered.{
  queue-total, rechecking-total, pending-total, tally-answered, answered_call, call_of, queued_call,
  replaced-total, moved-total, total, one, total-answer, remove_worker-total, remove_all-total,
  evict-total, reset_idle_timer-total, send_request-total,
}

-- A rest of a loop that keeps the count.
Keeps : ℕ → (State → State) → Type 0
Keeps i again = (s : State) → total i (again s) ≡ total i s

recheck-total :
    (i : ℕ) (o : Option UidRestriction) (w : Worker) (r : Request) (again : State → State)
    (s : State)
    → Keeps i again
    → total i (recheck o w r again s) ≡ one i r + total i s
unfolding recheck total tally Keeps
recheck-total i (some x) w r again s keeps =
    keeps (answer r (uid_blocked r) (evict_subnode_workers r.identity.username s))
    ∙ (unfold total in
        (total-answer i r (uid_blocked r) (evict_subnode_workers r.identity.username s)
          ∙ ap (λ n. one i r + n) (evict-total i r.identity.username s)))
recheck-total i none w r again s keeps = omega (
  arith,
  tally-append call_of i s.rechecking
      (record { worker = w.id; subnode = w.subnode; request = r } ∷ []),
)

next_queued-total :
    (i : ℕ) (cfg : Config) (now : ℕ) (w : Worker) (o : Option QueuedRequest) (again : State → State)
    (s : State)
    → Keeps i again
    → ((q : QueuedRequest) → o ≡ some q → Memᴰ q s.queue)
    → total i (next_queued cfg now w o again s) ≡ total i s
unfolding next_queued Keeps
next_queued-total i cfg now w none again s keeps m = reset_idle_timer-total i w s
next_queued-total i cfg now w (some q) again s keeps m =
    let taken : State = record s {
      queue = remove_first (λ p. is_same q.request p.request) s.queue;
    } in
    let less : total i taken + one i q.request ≡ total i s = queue-total i q s (m q refl) in
    if-case (λ t. total i t ≡ total i s) (ltb q.deadline now) _ _
      (λ e. omega (
        arith,
        less,
        keeps (answer q.request queue_timeout taken),
        total-answer i q.request queue_timeout taken,
      ))
      λ e.
        if-case (λ t. total i t ≡ total i s) (not (worker_runs_as w q.request.identity)) _ _
          (λ f. omega (
            arith,
            less,
            total-answer i q.request identity_changed (remove_worker w.id taken),
            remove_worker-total i w.id taken,
          ))
          λ f. omega (
            arith,
            less,
            recheck-total i (check_uid_restrictions cfg q.request.identity.uid) w q.request again
                taken keeps,
          )

drain-total :
    (i : ℕ) (cfg : Config) (now fuel : ℕ) (w : Worker) (s : State)
    → total i (drain cfg now fuel w s) ≡ total i s
unfolding drain Keeps
drain-total i cfg now zero w s = reset_idle_timer-total i w s
drain-total i cfg now (suc fuel) w s =
    next_queued-total i cfg now w (find (is_queued w.subnode) s.queue) (λ t. drain cfg now fuel w t)
      s (λ t. drain-total i cfg now fuel w t) (λ q. find-Mem (is_queued w.subnode) s.queue)

on_request_complete-total :
    (i : ℕ) (cfg : Config) (now : ℕ) (w : Worker) (s : State)
    → total i (on_request_complete cfg now w s) ≡ total i s
unfolding on_request_complete
on_request_complete-total i cfg now w s = drain-total i cfg now (suc (length s.queue)) w s

recheck_done-total :
    (i : ℕ) (cfg : Config) (now : ℕ) (accepted : Bool) (o : Option DispatchResult) (w : Worker)
    (r : Request) (s : State)
    → total i (recheck_done cfg now accepted o w r s) ≡ one i r + total i s
unfolding recheck_done
recheck_done-total i cfg now accepted (some blocked) w r s =
    let out : State = evict_subnode_workers r.identity.username s in
    omega (
      arith,
      on_request_complete-total i cfg now w (answer r blocked out),
      total-answer i r blocked out,
      evict-total i r.identity.username s,
    )
recheck_done-total i cfg now accepted none w r s = send_request-total i accepted w r s

pub on_recheck-total :
    (i : ℕ) (cfg : Config) (now : ℕ) (groups : Option (List Integer)) (accepted : Bool) (w : Worker)
    (p : Pending) (s : State)
    → Memᴰ p s.rechecking
    → total i (on_recheck cfg now groups accepted w p s) ≡ total i s
unfolding on_recheck
on_recheck-total i cfg now groups accepted w p s m = omega (
  arith,
  rechecking-total i p s m,
  recheck_done-total i cfg now accepted (check_gid_restrictions cfg groups p.request) w p.request
      (record s { rechecking = remove_first (λ q. is_same p.request q.request) s.rechecking }),
)

complete-total :
    (i : ℕ) (cfg : Config) (now : ℕ) (w : Worker) (o : Option Pending) (result error : Value)
    (s : State)
    → ((p : Pending) → o ≡ some p → Memᴰ p s.pending)
    → total i (complete cfg now w o result error s) ≡ total i s
unfolding complete
complete-total i cfg now w none result error s m = remove_worker-total i w.id s
complete-total i cfg now w (some p) result error s m =
    let taken : State = record s {
      pending = remove_first (λ q. is_same p.request q.request) s.pending;
    } in
    omega (
      arith,
      pending-total i p s (m p refl),
      on_request_complete-total i cfg now w taken,
      total-answer i p.request _ (on_request_complete cfg now w taken),
    )

pub on_response-total :
    (i : ℕ) (cfg : Config) (now : ℕ) (w : Worker) (request_id : Text) (result error : Value)
    (s : State)
    → total i (on_response cfg now w request_id result error s) ≡ total i s
unfolding on_response
on_response-total i cfg now w request_id result error s =
    complete-total i cfg now w (find (is_for w.id request_id) s.pending) result error s
      (λ p. find-Mem (is_for w.id request_id) s.pending)

pub on_rpc_timeout-total :
    (i : ℕ) (cfg : Config) (p : Pending) (s : State)
    → Memᴰ p s.pending
    → total i (on_rpc_timeout cfg p s) ≡ total i s
unfolding on_rpc_timeout
on_rpc_timeout-total i cfg p s m =
    let taken : State = record s {
      pending = remove_first (λ q. is_same p.request q.request) s.pending;
    } in
    omega (
      arith,
      pending-total i p s m,
      remove_worker-total i p.worker taken,
      total-answer i p.request _ (remove_worker p.worker taken),
    )

pub on_replaced_timeout-total :
    (i : ℕ) (cfg : Config) (p : Pending) (s : State)
    → Memᴰ p s.replaced
    → total i (on_replaced_timeout cfg p s) ≡ total i s
unfolding on_replaced_timeout
on_replaced_timeout-total i cfg p s m =
    let here : Pending → Bool = is_for p.worker p.request.request_id in
    let first : State = record s {
      replaced = remove_first (λ q. is_same p.request q.request) s.replaced;
    } in
    let moved : State = record first {
      pending = keep (λ q. not (here q)) s.pending;
      replaced = first.replaced ++ keep here s.pending;
    } in
    omega (
      arith,
      replaced-total i p s m,
      moved-total i here first,
      remove_worker-total i p.worker moved,
      total-answer i p.request _ (remove_worker p.worker moved),
    )

pub expire_queued-total :
    (i : ℕ) (q : QueuedRequest) (s : State)
    → Memᴰ q s.queue
    → total i (expire_queued q s) ≡ total i s
unfolding expire_queued
expire_queued-total i q s m = omega (
  arith,
  queue-total i q s m,
  total-answer i q.request queue_timeout
      (record s { queue = remove_first (λ p. is_same q.request p.request) s.queue }),
)

stop_idle-total : (i : ℕ) (es : List (Text × ℕ)) (s : State) → total i (stop_idle es s) ≡ total i s
unfolding stop_idle
stop_idle-total i [] s = refl
stop_idle-total i ((username, n) ∷ es) s =
    let idle : List Worker = keep (λ w. not (is_busy s w)) (workers_of s n) in
    stop_idle-total i es (remove_all idle s) ∙ remove_all-total i idle s

pub begin_shutdown-total : (i : ℕ) (s : State) → total i (begin_shutdown s) ≡ total i s
unfolding begin_shutdown total
begin_shutdown-total i s =
    (unfold total in stop_idle-total i s.subnodes _)
    ∙ omega (
      arith,
      tally-keep queued_call i (is_mapped s) s.queue,
      tally-append answered_call i
          (answered (λ (q : QueuedRequest). q.request) hub_shutting_down
            (keep (is_mapped s) s.queue))
          s.answers,
      tally-answered (λ (q : QueuedRequest). q.request) hub_shutting_down i
          (keep (is_mapped s) s.queue),
    )

stop_each-total : (i : ℕ) (es : List (Text × ℕ)) (s : State) → total i (stop_each es s) ≡ total i s
unfolding stop_each
stop_each-total i [] s = refl
stop_each-total i ((username, n) ∷ es) s =
    stop_each-total i es (remove_all (workers_of s n) s) ∙ remove_all-total i (workers_of s n) s

pub end_shutdown-total : (i : ℕ) (s : State) → total i (end_shutdown s) ≡ total i s
unfolding end_shutdown
end_shutdown-total i s = stop_each-total i s.subnodes s
