-- ===== src/Hub/Pool/Stranded/Never.antt =====
-- packages/hub/src/subnode.ts: no request is left in the queue of a subnode with no worker.
use constellation_mcp.Prelude.{Bool, ◌++◌, keep, not, List, Memᴰ, Option, ◌<◌, find, remove_first}
use constellation_mcp.Prelude.Strings.{Integer}
use constellation_mcp.Hub.Pool.{
  Pending, Config, Request, QueuedRequest, State, new_pool, is_same, check_gid_restrictions,
}
use constellation_mcp.Hub.Pool.Workers.{is_on}
use constellation_mcp.Hub.Pool.Calls.{on_groups, on_ready, on_spawn_timeout}
use constellation_mcp.Hub.Pool.Replies.{
  on_recheck, on_response, on_rpc_timeout, on_replaced_timeout, expire_queued, end_shutdown,
}
use constellation_mcp.Prelude.Members.{mem-remove_first}
use constellation_mcp.Prelude.Members.{mem-remove_first}
use constellation_mcp.Hub.Pool.Credentials.Sent.{Reach-IsSafe}
use constellation_mcp.Hub.Pool.Steps.{
  Reach, start, calls, has_groups, locks, is_ready, is_not_ready, responds, has_groups_again,
  times_out, times_out_replaced, expires, idles, exits, stops, has_drained,
}
use constellation_mcp.Hub.Pool.Workers.{is_for}
use constellation_mcp.Hub.Pool.Stranded.{HasWorker, IsServed, Both}
use constellation_mcp.Hub.Pool.Stranded.Assigned.{
  remove-Served, on_spawned-Served, dispatch-Served, with_groups-Served, run_locked-Served,
}
use constellation_mcp.Hub.Pool.Stranded.Completed.{
  complete-Served, recheck_done-Served, begin_shutdown-Served, stop_each-Served,
}

Reach-Both : {cfg : Config} {cs : List Request} {s : State} → Reach cfg cs s → IsServed s → Both s
Reach-Both k v = ((Reach-IsSafe k).tidy, v)

on_groups-Served :
    (cfg : Config) (groups : Option (List Integer)) (r : Request) (s : State)
    → Both s
    → IsServed (on_groups cfg groups r s)
unfolding on_groups
on_groups-Served cfg groups r s b =
    with_groups-Served cfg (check_gid_restrictions cfg groups r) r
      (record s { checking = remove_first (is_same r) s.checking }) b

Reach-Served :
    {cfg : Config} {cs : List Request} {s : State}
    → 0 < cfg.max_workers
    → Reach cfg cs s
    → IsServed s
unfolding on_replaced_timeout new_pool on_ready on_spawn_timeout on_response on_recheck
    on_rpc_timeout expire_queued end_shutdown
Reach-Served pos start = λ q m. elim m [ ]
Reach-Served {cfg} pos (calls {s = s} r k e) =
    dispatch-Served cfg r s (Reach-Both k (Reach-Served pos k))
Reach-Served {cfg} pos (has_groups {s = s} g r k m) =
    on_groups-Served cfg g r s (Reach-Both k (Reach-Served pos k))
Reach-Served {cfg} pos (locks {s = s} now f a w k e n) =
    run_locked-Served cfg now f a w s pos (Reach-Both k (Reach-Served pos k))
Reach-Served {cfg} pos (is_ready {s = s} a w k e n) =
    on_spawned-Served a w (find (is_on w.id) s.spawning) s (Reach-Served pos k)
Reach-Served {cfg} pos (is_not_ready {s = s} p k m) = Reach-Served pos k
Reach-Served {cfg} pos (responds {s = s} now w id result error k e n) =
    complete-Served cfg now w (find (is_for w.id id) s.pending) result error s
      (Reach-Both k (Reach-Served pos k))
Reach-Served {cfg} pos (has_groups_again {s = s} now g a w p k m e n) =
    recheck_done-Served cfg now a (check_gid_restrictions cfg g p.request) w p.request
      (record s { rechecking = remove_first (λ q. is_same p.request q.request) s.rechecking })
      (Reach-Both k (Reach-Served pos k))
Reach-Served {cfg} pos (times_out {s = s} p k m) =
    remove-Served p.worker
      (record s { pending = remove_first (λ q. is_same p.request q.request) s.pending })
      (Reach-Both k (Reach-Served pos k))
Reach-Served {cfg} pos (times_out_replaced {s = s} p k m) =
    let here : Pending → Bool = is_for p.worker p.request.request_id in
    remove-Served p.worker
      (record s {
        pending = keep (λ q. not (here q)) s.pending;
        replaced =
            remove_first (λ q. is_same p.request q.request) s.replaced ++ keep here s.pending;
      })
      (Reach-Both k (Reach-Served pos k))
Reach-Served {cfg} pos (expires {s = s} q k m) =
    λ p n. Reach-Served pos k p (mem-remove_first (λ x. is_same q.request x.request) s.queue n)
Reach-Served {cfg} pos (idles {s = s} w k e n) =
    remove-Served w.id s (Reach-Both k (Reach-Served pos k))
Reach-Served {cfg} pos (exits {s = s} id k) = remove-Served id s (Reach-Both k (Reach-Served pos k))
Reach-Served {cfg} pos (stops {s = s} k) =
    begin_shutdown-Served s (Reach-Both k (Reach-Served pos k))
Reach-Served {cfg} pos (has_drained {s = s} k e) =
    stop_each-Served s.subnodes s (Reach-Both k (Reach-Served pos k))

-- Whatever happens and in whatever order, if the pool may have workers at all then a request stands in
-- the queue only while its subnode has a worker: when the last one goes, the queue is answered.
pub never_stranded :
    {cfg : Config} {cs : List Request} {s : State}
    → 0 < cfg.max_workers
    → Reach cfg cs s
    → (q : QueuedRequest) → Memᴰ q s.queue
    → HasWorker q.subnode s.workers
never_stranded pos k = Reach-Served pos k
