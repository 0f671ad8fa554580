-- ===== src/Hub/Pool/Steps.antt =====
-- packages/hub/src/subnode.ts: what can happen to a pool, in any order.
use constellation_mcp.Prelude.{
  ℕ, ◌≡◌, Bool, true, false, List, [], ◌∷◌, Memᴰ, Option, some, any, find, length, ◌==◌,
}
use constellation_mcp.Prelude.Text.{Text}
use constellation_mcp.Prelude.Strings.{Integer}
use constellation_mcp.Shared.Json.{Value}
use constellation_mcp.Hub.Pool.{
  Config, Request, Worker, Pending, QueuedRequest, Waiting, State, new_pool,
}
use constellation_mcp.Hub.Pool.Workers.{find_worker, remove_worker}
use constellation_mcp.Hub.Pool.Calls.{dispatch, on_groups, run_locked, on_ready, on_spawn_timeout}
use constellation_mcp.Hub.Pool.Replies.{
  on_recheck, on_response, on_rpc_timeout, on_replaced_timeout, expire_queued, begin_shutdown,
  end_shutdown,
}

-- The callbacks of the event loop, each up to its next wait. `calls` are the calls of `dispatch` so
-- far, the latest first. What the system answers is left open: the groups of a user, whether `fork` and
-- `send` succeed and the time. A worker that was removed sends nothing, and `send` refuses it.
pub data Reach (cfg : Config) : List Request → State → Type 0 where
  start : Reach cfg [] new_pool
  calls :
      {cs : List Request} {s : State} (r : Request)
      → Reach cfg cs s
      → r.id ≡ length cs
      → Reach cfg (r ∷ cs) (dispatch cfg r s)
  has_groups :
      {cs : List Request} {s : State} (groups : Option (List Integer)) (r : Request)
      → Reach cfg cs s
      → Memᴰ r s.checking
      → Reach cfg cs (on_groups cfg groups r s)
  locks :
      {cs : List Request} {s : State} (now : ℕ) (forked accepted : Bool) (w : Waiting)
      → Reach cfg cs s
      → find (λ (v : Waiting). v.subnode == w.subnode) s.waiting ≡ some w
      → any (λ (p : Pending). p.subnode == w.subnode) s.spawning ≡ false
      → Reach cfg cs (run_locked cfg now forked accepted w s)
  is_ready :
      {cs : List Request} {s : State} (accepted : Bool) (w : Worker)
      → Reach cfg cs s
      → find_worker s w.id ≡ some w
      → w.removed ≡ false
      → Reach cfg cs (on_ready accepted w s)
  is_not_ready :
      {cs : List Request} {s : State} (p : Pending)
      → Reach cfg cs s
      → Memᴰ p s.spawning
      → Reach cfg cs (on_spawn_timeout cfg p s)
  responds :
      {cs : List Request} {s : State} (now : ℕ) (w : Worker) (request_id : Text)
      (result error : Value)
      → Reach cfg cs s
      → find_worker s w.id ≡ some w
      → w.removed ≡ false
      → Reach cfg cs (on_response cfg now w request_id result error s)
  has_groups_again :
      {cs : List Request} {s : State} (now : ℕ) (groups : Option (List Integer)) (accepted : Bool)
      (w : Worker) (p : Pending)
      → Reach cfg cs s
      → Memᴰ p s.rechecking
      → find_worker s p.worker ≡ some w
      → (w.removed ≡ true → accepted ≡ false)
      → Reach cfg cs (on_recheck cfg now groups accepted w p s)
  times_out :
      {cs : List Request} {s : State} (p : Pending)
      → Reach cfg cs s
      → Memᴰ p s.pending
      → Reach cfg cs (on_rpc_timeout cfg p s)
  times_out_replaced :
      {cs : List Request} {s : State} (p : Pending)
      → Reach cfg cs s
      → Memᴰ p s.replaced
      → Reach cfg cs (on_replaced_timeout cfg p s)
  expires :
      {cs : List Request} {s : State} (q : QueuedRequest)
      → Reach cfg cs s
      → Memᴰ q s.queue
      → Reach cfg cs (expire_queued q s)
  idles :
      {cs : List Request} {s : State} (w : Worker)
      → Reach cfg cs s
      → find_worker s w.id ≡ some w
      → w.idle_timer ≡ true
      → Reach cfg cs (remove_worker w.id s)
  exits :
      {cs : List Request} {s : State} (id : ℕ) → Reach cfg cs s → Reach cfg cs (remove_worker id s)
  stops : {cs : List Request} {s : State} → Reach cfg cs s → Reach cfg cs (begin_shutdown s)
  has_drained :
      {cs : List Request} {s : State}
      → Reach cfg cs s
      → s.shutting_down ≡ true
      → Reach cfg cs (end_shutdown s)
