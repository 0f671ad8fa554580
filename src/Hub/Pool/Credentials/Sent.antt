-- ===== src/Hub/Pool/Credentials/Sent.antt =====
-- packages/hub/src/subnode.ts: every request that is sent runs as its user.
use constellation_mcp.Prelude.{◌≡◌, ap, true, List, Memᴰ, none, arith, ==_iff}
use constellation_mcp.Prelude.Strings.{Integer, whole, negative}
use constellation_mcp.Prelude.Tally.{find-Mem}
use constellation_mcp.Hub.Pool.{
  same_integer, Config, check_uid_restrictions, Request, Worker, worker_runs_as, State, new_pool,
}
use constellation_mcp.Hub.Pool.Steps.{
  Reach, start, calls, has_groups, locks, is_ready, is_not_ready, responds, has_groups_again,
  times_out, times_out_replaced, expires, idles, exits, stops, has_drained,
}
use constellation_mcp.Hub.Pool.Credentials.{IsSafe, remove_worker-IsSafe}
use constellation_mcp.Hub.Pool.Credentials.Assigned.{
  dispatch-IsSafe, on_groups-IsSafe, run_locked-IsSafe, on_ready-IsSafe, on_spawn_timeout-IsSafe,
}
use constellation_mcp.Hub.Pool.Credentials.Completed.{
  on_recheck-IsSafe, on_response-IsSafe, on_rpc_timeout-IsSafe, on_replaced_timeout-IsSafe,
  expire_queued-IsSafe, begin_shutdown-IsSafe, end_shutdown-IsSafe,
}

new_pool-IsSafe : (cfg : Config) → IsSafe cfg new_pool
unfolding new_pool
new_pool-IsSafe cfg = record {
  tidy = record {
    distinct = λ w m. elim m [ ];
    below = λ w m. elim m [ ];
    apart = λ w m. elim m [ ];
  };
  may_check = λ r m. elim m [ ];
  may_wait = λ w m. elim m [ ];
  may_queue = λ q m. elim m [ ];
  spawned = λ p m. elim m [ ];
  rechecked = λ p m. elim m [ ];
  ran = λ a m. elim m [ ];
}

pub Reach-IsSafe : {cfg : Config} {cs : List Request} {s : State} → Reach cfg cs s → IsSafe cfg s
Reach-IsSafe {cfg} start = new_pool-IsSafe cfg
Reach-IsSafe {cfg} (calls {s = s} r k e) = dispatch-IsSafe cfg r s (Reach-IsSafe k)
Reach-IsSafe {cfg} (has_groups {s = s} g r k m) = on_groups-IsSafe cfg g r s m (Reach-IsSafe k)
Reach-IsSafe {cfg} (locks {s = s} now f a w k e n) =
    run_locked-IsSafe cfg now f a w s (find-Mem _ s.waiting e) (Reach-IsSafe k)
Reach-IsSafe {cfg} (is_ready {s = s} a w k e n) = on_ready-IsSafe cfg a w s e n (Reach-IsSafe k)
Reach-IsSafe {cfg} (is_not_ready {s = s} p k m) = on_spawn_timeout-IsSafe cfg p s (Reach-IsSafe k)
Reach-IsSafe {cfg} (responds {s = s} now w id result error k e n) =
    on_response-IsSafe cfg w now id result error s e (Reach-IsSafe k)
Reach-IsSafe {cfg} (has_groups_again {s = s} now g a w p k m e n) =
    on_recheck-IsSafe cfg w now g a p s m e (Reach-IsSafe k)
Reach-IsSafe {cfg} (times_out {s = s} p k m) = on_rpc_timeout-IsSafe cfg p s (Reach-IsSafe k)
Reach-IsSafe {cfg} (times_out_replaced {s = s} p k m) =
    on_replaced_timeout-IsSafe cfg p s (Reach-IsSafe k)
Reach-IsSafe {cfg} (expires {s = s} q k m) = expire_queued-IsSafe cfg q s (Reach-IsSafe k)
Reach-IsSafe {cfg} (idles {s = s} w k e n) = remove_worker-IsSafe cfg w.id s (Reach-IsSafe k)
Reach-IsSafe {cfg} (exits {s = s} id k) = remove_worker-IsSafe cfg id s (Reach-IsSafe k)
Reach-IsSafe {cfg} (stops {s = s} k) = begin_shutdown-IsSafe cfg s (Reach-IsSafe k)
Reach-IsSafe {cfg} (has_drained {s = s} k e) = end_shutdown-IsSafe cfg s (Reach-IsSafe k)

same_integer→eq : (m n : Integer) → same_integer m n ≡ true → m ≡ n
unfolding same_integer
same_integer→eq (whole m) (whole n) e = ap whole ((==_iff m n).0 e)
same_integer→eq (whole m) (negative n) e = cc e
same_integer→eq (negative m) (whole n) e = cc e
same_integer→eq (negative m) (negative n) e = ap negative ((==_iff m n).0 e)

-- Whatever happens and in whatever order, a request is only ever sent to a worker that was spawned with
-- the user id and the group id of the request's identity, and only if the hub allows that user id.
pub sent_as :
    {cfg : Config} {cs : List Request} {s : State} (w : Worker) (r : Request)
    → Reach cfg cs s
    → Memᴰ (w, r) s.sent
    → (w.uid ≡ r.identity.uid)
      × (w.gid ≡ r.identity.gid)
      × (check_uid_restrictions cfg r.identity.uid ≡ none)
unfolding worker_runs_as
sent_as w r k m =
    let (runs, may) = (Reach-IsSafe k).ran (w, r) m in
    (
      same_integer→eq w.uid r.identity.uid (ground arith),
      same_integer→eq w.gid r.identity.gid (ground arith),
      may,
    )
