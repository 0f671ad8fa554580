-- ===== src/Hub/Pool/Answered/Once.antt =====
-- packages/hub/src/subnode.ts: each call of `dispatch` is in one place, and returns once.
use constellation_mcp.Prelude.{
  ◌≡◌, refl, ◌∙◌, ℕ, ◌+◌, List, [], ◌∷◌, arith, if◌then◌else◌, length, ltb,
}
use constellation_mcp.Prelude.Tally.{tally, find-Mem}
use constellation_mcp.Hub.Pool.{Config, Request, State, new_pool}
use constellation_mcp.Hub.Pool.Steps.{
  Reach, start, calls, has_groups, locks, is_ready, is_not_ready, responds, has_groups_again,
  times_out, times_out_replaced, expires, idles, exits, stops, has_drained,
}
use constellation_mcp.Hub.Pool.Answered.{
  call, outstanding, returned, total, one, remove_worker-total,
}
use constellation_mcp.Hub.Pool.Answered.Operations.{
  dispatch-total, on_groups-total, run_locked-total, on_ready-total, on_spawn_timeout-total,
}
use constellation_mcp.Hub.Pool.Answered.Completion.{
  on_recheck-total, on_response-total, on_rpc_timeout-total, on_replaced_timeout-total,
  expire_queued-total, begin_shutdown-total, end_shutdown-total,
}

total-new_pool : (i : ℕ) → total i new_pool ≡ tally call i []
unfolding new_pool total tally
total-new_pool i = refl

tally-one :
    (i : ℕ) (r : Request) (cs : List Request) → tally call i (r ∷ cs) ≡ one i r + tally call i cs
unfolding tally
tally-one i r cs = refl

-- As many places as calls with the number.
Reach-total :
    {cfg : Config} {cs : List Request} {s : State} (i : ℕ)
    → Reach cfg cs s
    → total i s ≡ tally call i cs
Reach-total i start = total-new_pool i
Reach-total i (calls {cs} {s} r k e) =
    omega (arith, dispatch-total i _ r s, tally-one i r cs, Reach-total i k)
Reach-total i (has_groups {s = s} g r k m) = on_groups-total i _ g r s m ∙ Reach-total i k
Reach-total i (locks {s = s} now f a w k e n) =
    run_locked-total i _ now f a w s (find-Mem _ s.waiting e) ∙ Reach-total i k
Reach-total i (is_ready {s = s} a w k e n) = on_ready-total i a w s ∙ Reach-total i k
Reach-total i (is_not_ready {s = s} p k m) = on_spawn_timeout-total i _ p s m ∙ Reach-total i k
Reach-total i (responds {s = s} now w id result error k e n) =
    on_response-total i _ now w id result error s ∙ Reach-total i k
Reach-total i (has_groups_again {s = s} now g a w p k m e n) =
    on_recheck-total i _ now g a w p s m ∙ Reach-total i k
Reach-total i (times_out {s = s} p k m) = on_rpc_timeout-total i _ p s m ∙ Reach-total i k
Reach-total i (times_out_replaced {s = s} p k m) =
    on_replaced_timeout-total i _ p s m ∙ Reach-total i k
Reach-total i (expires {s = s} q k m) = expire_queued-total i q s m ∙ Reach-total i k
Reach-total i (idles {s = s} w k e n) = remove_worker-total i w.id s ∙ Reach-total i k
Reach-total i (exits {s = s} id k) = remove_worker-total i id s ∙ Reach-total i k
Reach-total i (stops {s = s} k) = begin_shutdown-total i s ∙ Reach-total i k
Reach-total i (has_drained {s = s} k e) = end_shutdown-total i s ∙ Reach-total i k

-- The calls are numbered in order.
tally-calls :
    {cfg : Config} {cs : List Request} {s : State} (i : ℕ)
    → Reach cfg cs s
    → tally call i cs ≡ (if ltb i (length cs) then 1 else 0)
unfolding tally
tally-calls i start = ground arith
tally-calls i (calls {cs} r k e) = ground (arith, tally-calls i k)
tally-calls i (has_groups g r k m) = tally-calls i k
tally-calls i (locks now f a w k e n) = tally-calls i k
tally-calls i (is_ready a w k e n) = tally-calls i k
tally-calls i (is_not_ready p k m) = tally-calls i k
tally-calls i (responds now w id result error k e n) = tally-calls i k
tally-calls i (has_groups_again now g a w p k m e n) = tally-calls i k
tally-calls i (times_out p k m) = tally-calls i k
tally-calls i (times_out_replaced p k m) = tally-calls i k
tally-calls i (expires q k m) = tally-calls i k
tally-calls i (idles w k e n) = tally-calls i k
tally-calls i (exits id k) = tally-calls i k
tally-calls i (stops k) = tally-calls i k
tally-calls i (has_drained k e) = tally-calls i k

-- Whatever happens and in whatever order, each call of `dispatch` has either returned, and once, or
-- stands in exactly one place: its groups are looked up, it waits for the lock, for its worker to be
-- ready, in the queue, for the second lookup of its groups, for a worker's response, or, if another
-- call with its request id has taken its entry at the worker, for its own timer. Nothing else
-- stands there or has returned.
pub answered_once :
    {cfg : Config} {cs : List Request} {s : State} (i : ℕ)
    → Reach cfg cs s
    → outstanding i s + returned i s ≡ (if ltb i (length cs) then 1 else 0)
unfolding total
answered_once {cs} i k = (unfold total in Reach-total i k) ∙ tally-calls i k
