-- ===== src/Hub/Pool/Credentials/Completed.antt =====
-- packages/hub/src/subnode.ts: a worker takes from the queue only what runs as its user.
use constellation_mcp.Prelude.{
  ◌≡◌, refl, sym, ap, ◌∙◌, ℕ, zero, suc, Bool, not, List, [], ◌∷◌, Memᴰ, Option, none, some, arith,
  subst, ◌<◌, find, keep, keep-mem, remove_first, length, ltb, if-case,
}
use constellation_mcp.Prelude.Text.{Text}
use constellation_mcp.Prelude.Strings.{Integer}
use constellation_mcp.Shared.Json.{Value}
use constellation_mcp.Hub.Rpc.{DispatchResult}
use constellation_mcp.Hub.Pool.{
  Config, UidRestriction, Request, Worker, Pending, QueuedRequest, State, answer, is_same,
  check_uid_restrictions, uid_blocked, check_gid_restrictions, worker_runs_as,
}
use constellation_mcp.Hub.Pool.Workers.{
  is_queued, is_busy, remove_all, evict_subnode_workers, workers_of,
}
use constellation_mcp.Hub.Pool.Replies.{
  queue_timeout, recheck, next_queued, recheck_done, complete, stop_idle, is_mapped, stop_each,
  drain, on_request_complete, on_recheck, on_response, on_rpc_timeout, on_replaced_timeout,
  expire_queued, begin_shutdown, end_shutdown,
}
use constellation_mcp.Prelude.Members.{mem-remove_first, every-append}
use constellation_mcp.Hub.Pool.Shrinks.{Tidy, evict-Shrinks, Shrinks}
use constellation_mcp.Hub.Pool.Workers.{find_worker, is_for}
use constellation_mcp.Hub.Pool.Credentials.{
  Runs, May, Fits, IsSafe, Safe-queues, Safe-rechecks, remove_worker-IsSafe, remove_all-IsSafe,
  evict-IsSafe, send_request-IsSafe, reset_idle_timer-IsSafe, Runs-same,
}
use constellation_mcp.Hub.Pool.Removal.{find_worker-id, find_worker-has_id}
use constellation_mcp.Hub.Pool.Credentials.Begun.{is_found, is_member}

-- The worker that a callback holds still has the credentials of the worker with its number.
abbrev Known : Worker → State → Type 0
Known w s =
    (w.id < s.next)
    × ((x : Worker) → Memᴰ x s.workers → x.id ≡ w.id → (x.uid ≡ w.uid) × (x.gid ≡ w.gid))

Shrinks-Known : (w : Worker) (s t : State) → Shrinks s t → Known w s → Known w t
Shrinks-Known w s t sh (below, same) = (
  subst (λ n. w.id < n) (sym sh.same_next) below,
  λ x m e.
      let (u, n, i, a, b) = sh.of_workers x m in
      let (c, d) = same u n (sym i ∙ e) in (a ∙ c, b ∙ d),
)

member-Known : (w : Worker) (s : State) → Tidy s → find_worker s w.id ≡ some w → Known w s
member-Known w s tidy e = (
  tidy.below w (is_member s w e),
  λ x m k.
      let same = is_found s x w tidy m k e in
      (ap (λ (y : Worker). y.uid) same, ap (λ (y : Worker). y.gid) same),
)

module _ (cfg : Config) (w : Worker) where
  -- What the loop keeps.
  abbrev Holds : State → Type 0
  Holds s = IsSafe cfg s × Known w s

  evict-Holds : (username : Text) (s : State) → Holds s → Holds (evict_subnode_workers username s)
  evict-Holds username s (v, k) = (
    evict-IsSafe cfg username s v,
    Shrinks-Known w s (evict_subnode_workers username s) (evict-Shrinks username s) k,
  )

  recheck-IsSafe :
      (o : Option UidRestriction) (r : Request) (again : State → State) (s : State)
      → check_uid_restrictions cfg r.identity.uid ≡ o
      → Runs w r
      → ((t : State) → Holds t → IsSafe cfg (again t))
      → Holds s
      → IsSafe cfg (recheck o w r again s)
  unfolding recheck
  recheck-IsSafe (some x) r again s e runs rest h =
      rest (answer r (uid_blocked r) (evict_subnode_workers r.identity.username s))
        (evict-Holds r.identity.username s h)
  recheck-IsSafe none r again s e runs rest (v, k) = Safe-rechecks cfg v _ (
      every-append (Fits cfg s.next s.workers) s.rechecking _ v.rechecked
        (e, k.0, λ x m i. let (a, b) = k.1 x m i in Runs-same x w r a b runs))

  next_queued-IsSafe :
      (now : ℕ) (o : Option QueuedRequest) (again : State → State) (s : State)
      → ((t : State) → Holds t → IsSafe cfg (again t))
      → Holds s
      → IsSafe cfg (next_queued cfg now w o again s)
  unfolding next_queued
  next_queued-IsSafe now none again s rest (v, k) = reset_idle_timer-IsSafe cfg w s v
  next_queued-IsSafe now (some q) again s rest (v, k) =
      let same : QueuedRequest → Bool = λ p. is_same q.request p.request in
      let taken : State = record s { queue = remove_first same s.queue } in
      let safe : IsSafe cfg taken =
        Safe-queues cfg v (remove_first same s.queue)
          (λ p m. v.may_queue p (mem-remove_first same s.queue m)) in
      if-case (IsSafe cfg) (ltb q.deadline now) _ _
        (λ e. rest (answer q.request queue_timeout taken) (safe, k))
        λ e.
          if-case (IsSafe cfg) (not (worker_runs_as w q.request.identity)) _ _
            (λ f. remove_worker-IsSafe cfg w.id taken safe)
            λ f.
              recheck-IsSafe (check_uid_restrictions cfg q.request.identity.uid) q.request again
                taken refl (ground arith) rest (safe, k)

  drain-IsSafe : (now fuel : ℕ) (s : State) → Holds s → IsSafe cfg (drain cfg now fuel w s)
  unfolding drain
  drain-IsSafe now zero s (v, k) = reset_idle_timer-IsSafe cfg w s v
  drain-IsSafe now (suc fuel) s h =
      next_queued-IsSafe now (find (is_queued w.subnode) s.queue) _ s (λ t. drain-IsSafe now fuel t)
        h

  on_request_complete-IsSafe :
      (now : ℕ) (s : State) → Holds s → IsSafe cfg (on_request_complete cfg now w s)
  unfolding on_request_complete
  on_request_complete-IsSafe now s h = drain-IsSafe now (suc (length s.queue)) s h

  recheck_done-IsSafe :
      (now : ℕ) (accepted : Bool) (o : Option DispatchResult) (r : Request) (s : State)
      → Runs w r
      → May cfg r
      → Holds s
      → IsSafe cfg (recheck_done cfg now accepted o w r s)
  unfolding recheck_done
  recheck_done-IsSafe now accepted (some blocked) r s runs may h =
      on_request_complete-IsSafe now
        (answer r blocked (evict_subnode_workers r.identity.username s))
        (evict-Holds r.identity.username s h)
  recheck_done-IsSafe now accepted none r s runs may (v, k) =
      send_request-IsSafe cfg accepted w r s runs may v

  pub on_recheck-IsSafe :
      (now : ℕ) (groups : Option (List Integer)) (accepted : Bool) (p : Pending) (s : State)
      → Memᴰ p s.rechecking
      → find_worker s p.worker ≡ some w
      → IsSafe cfg s
      → IsSafe cfg (on_recheck cfg now groups accepted w p s)
  unfolding on_recheck
  on_recheck-IsSafe now groups accepted p s m e v =
      let same : Pending → Bool = λ q. is_same p.request q.request in
      let self : find_worker s w.id ≡ some w = find_worker-id s p.worker w e in
      let here : w.id ≡ p.worker = find_worker-has_id s p.worker w e in
      let (may, below, runs) = v.rechecked p m in
      recheck_done-IsSafe now accepted (check_gid_restrictions cfg groups p.request) p.request
        (record s { rechecking = remove_first same s.rechecking })
        (runs w (is_member s w self) here) may
        (
          Safe-rechecks cfg v (remove_first same s.rechecking)
              (λ q n. v.rechecked q (mem-remove_first same s.rechecking n)),
          member-Known w s v.tidy self,
        )

  complete-IsSafe :
      (now : ℕ) (o : Option Pending) (result error : Value) (s : State)
      → Holds s
      → IsSafe cfg (complete cfg now w o result error s)
  unfolding complete
  complete-IsSafe now none result error s (v, k) = remove_worker-IsSafe cfg w.id s v
  complete-IsSafe now (some p) result error s h =
      on_request_complete-IsSafe now
        (record s { pending = remove_first (λ q. is_same p.request q.request) s.pending }) h

  pub on_response-IsSafe :
      (now : ℕ) (request_id : Text) (result error : Value) (s : State)
      → find_worker s w.id ≡ some w
      → IsSafe cfg s
      → IsSafe cfg (on_response cfg now w request_id result error s)
  unfolding on_response
  on_response-IsSafe now request_id result error s e v =
      complete-IsSafe now (find (is_for w.id request_id) s.pending) result error s
        (v, member-Known w s v.tidy e)

module _ (cfg : Config) where
  pub on_rpc_timeout-IsSafe :
      (p : Pending) (s : State) → IsSafe cfg s → IsSafe cfg (on_rpc_timeout cfg p s)
  unfolding on_rpc_timeout
  on_rpc_timeout-IsSafe p s v =
      remove_worker-IsSafe cfg p.worker
        (record s { pending = remove_first (λ q. is_same p.request q.request) s.pending }) v

  pub on_replaced_timeout-IsSafe :
      (p : Pending) (s : State) → IsSafe cfg s → IsSafe cfg (on_replaced_timeout cfg p s)
  unfolding on_replaced_timeout
  on_replaced_timeout-IsSafe p s v = remove_worker-IsSafe cfg p.worker _ v

  pub expire_queued-IsSafe :
      (q : QueuedRequest) (s : State) → IsSafe cfg s → IsSafe cfg (expire_queued q s)
  unfolding expire_queued
  expire_queued-IsSafe q s v =
      let same : QueuedRequest → Bool = λ p. is_same q.request p.request in
      Safe-queues cfg v (remove_first same s.queue)
        λ p m. v.may_queue p (mem-remove_first same s.queue m)

  stop_idle-IsSafe : (es : List (Text × ℕ)) (s : State) → IsSafe cfg s → IsSafe cfg (stop_idle es s)
  unfolding stop_idle
  stop_idle-IsSafe [] s v = v
  stop_idle-IsSafe ((username, n) ∷ es) s v =
      let idle : List Worker = keep (λ w. not (is_busy s w)) (workers_of s n) in
      stop_idle-IsSafe es (remove_all idle s) (remove_all-IsSafe cfg idle s v)

  pub begin_shutdown-IsSafe : (s : State) → IsSafe cfg s → IsSafe cfg (begin_shutdown s)
  unfolding begin_shutdown
  begin_shutdown-IsSafe s v = stop_idle-IsSafe s.subnodes _ (
      Safe-queues cfg v (keep (λ q. not (is_mapped s q)) s.queue)
        λ q m. v.may_queue q (keep-mem (λ p. not (is_mapped s p)) s.queue m).0)

  stop_each-IsSafe : (es : List (Text × ℕ)) (s : State) → IsSafe cfg s → IsSafe cfg (stop_each es s)
  unfolding stop_each
  stop_each-IsSafe [] s v = v
  stop_each-IsSafe ((username, n) ∷ es) s v =
      stop_each-IsSafe es (remove_all (workers_of s n) s)
        (remove_all-IsSafe cfg (workers_of s n) s v)

  pub end_shutdown-IsSafe : (s : State) → IsSafe cfg s → IsSafe cfg (end_shutdown s)
  unfolding end_shutdown
  end_shutdown-IsSafe s v = stop_each-IsSafe s.subnodes s v
