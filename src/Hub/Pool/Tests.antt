-- ===== src/Hub/Pool/Tests.antt =====
-- packages/hub/src/subnode.ts: examples.
use constellation_mcp.Prelude.{
  ◌≡◌, refl, ◌+◌, true, false, List, [], ◌∷◌, Memᴰ, none, some, arith, find, any, ◌==◌,
}
use constellation_mcp.Prelude.Text.{text, eq_text}
use constellation_mcp.Prelude.Table.{get, put}
use constellation_mcp.Prelude.Strings.{Integer, whole}
use constellation_mcp.Shared.Json.{null, undefined}
use constellation_mcp.Hub.Identity.{ResolvedIdentity}
use constellation_mcp.Hub.Pool.{
  same_integer, Config, check_uid_restrictions, check_gid_restrictions, Request, Worker,
  worker_runs_as, Waiting, Pending, State, new_pool, is_same, warm,
}
use constellation_mcp.Hub.Pool.Workers.{
  is_of, workers_of, is_on, is_busy, is_queued, update_worker, terminated, find_worker, remove_all,
  reset_idle_timer, send_request, remove_worker, is_for,
}
use constellation_mcp.Hub.Pool.Calls.{
  check_groups, dispatch, at_capacity, find_subnode, with_groups, on_groups, is_stale, drop_stale,
  spawn_worker, is_free, enqueue, assign, assign_to, run_locked, on_spawned, on_ready,
}
use constellation_mcp.Hub.Pool.Replies.{
  next_queued, drain, on_request_complete, complete, on_response,
}
use constellation_mcp.Hub.Pool.Steps.{Reach, start, calls, has_groups, locks, is_ready, responds}
use constellation_mcp.Hub.Pool.Answered.{outstanding, returned}
use constellation_mcp.Hub.Pool.Answered.Once.{answered_once}
use constellation_mcp.Hub.Pool.Credentials.Sent.{sent_as}
use constellation_mcp.Hub.Pool.Idle.{choosing, pending_at, idle_timer-rejects}
use constellation_mcp.Hub.Pool.Stranded.{HasWorker}
use constellation_mcp.Hub.Pool.Stranded.Never.{never_stranded}

abbrev alice : ResolvedIdentity
alice = record {
  username = text "alice";
  uid = whole 1001;
  gid = whole 1001;
  home = text "/home/alice";
}

abbrev cfg : Config
cfg = record {
  hub_uid = whole 900;
  hub_gid = whole 900;
  allowed_range = none;
  blocked_range = none;
  blocked_uids = [];
  blocked_gids = [];
  max_concurrent_subnodes = 0;
  min_workers = 1;
  max_workers = 1;
  queue_timeout_ms = 1000;
  rpc_timeout_ms = 2000;
}

abbrev first : Request
first = record {
  id = 0;
  identity = alice;
  tool = text "read_file";
  share = text "docs";
  params = null;
  request_id = text "a";
  path_filters = [];
}

abbrev second : Request
second = record first { id = 1; request_id = text "b" }

abbrev worker : Worker
worker = record {
  id = 1;
  subnode = 0;
  uid = whole 1001;
  gid = whole 1001;
  tier = warm;
  ready = false;
  pooled = false;
  idle_timer = false;
  removed = false;
}

abbrev called : State
called = on_groups cfg (some (whole 1001 ∷ [])) first (dispatch cfg first new_pool)

abbrev spawned : State
spawned = run_locked cfg 0 true true (record { subnode = 0; request = first }) called

abbrev sent : State
sent = on_ready true worker spawned

abbrev groups : List Integer
groups = whole 1001 ∷ []

abbrev second_waits : State → State
second_waits s = on_groups cfg (some groups) second (dispatch cfg second s)

-- The worker is busy.
abbrev queued : State
queued = run_locked cfg 0 true true (record { subnode = 0; request = second }) (second_waits sent)

-- The worker has responded.
abbrev idle : State
idle =
    on_response cfg 5 (record worker { ready = true; pooled = true }) (text "a") null undefined sent

abbrev idle_worker : Worker
idle_worker = record worker { ready = true; pooled = true; idle_timer = true }

sent-Reach : Reach cfg (first ∷ []) sent
unfolding find_worker run_locked assign_to assign drop_stale is_stale is_busy is_on worker_runs_as
    spawn_worker is_free is_of remove_all on_groups with_groups find_subnode check_gid_restrictions
    dispatch check_groups check_uid_restrictions same_integer new_pool is_same at_capacity eq_text
    get
sent-Reach =
    is_ready true worker
      (locks 0 true true (record { subnode = 0; request = first })
        (has_groups (some groups) first (calls first start refl) (Memᴰ.head refl)) refl refl)
      refl refl

queued-Reach : Reach cfg (second ∷ first ∷ []) queued
unfolding find_worker on_ready on_spawned update_worker send_request run_locked assign_to assign
    drop_stale is_stale is_busy is_on worker_runs_as spawn_worker is_free is_of remove_all on_groups
    with_groups find_subnode check_gid_restrictions dispatch check_groups check_uid_restrictions
    same_integer new_pool is_same at_capacity eq_text get put
queued-Reach =
    locks 0 true true (record { subnode = 0; request = second })
      (has_groups (some groups) second (calls second sent-Reach refl) (Memᴰ.head refl)) refl refl

idle-Reach : Reach cfg (second ∷ first ∷ []) (second_waits idle)
unfolding find_worker on_ready on_spawned update_worker send_request run_locked assign_to assign
    drop_stale is_stale is_busy is_on worker_runs_as spawn_worker is_free is_of remove_all on_groups
    with_groups find_subnode check_gid_restrictions dispatch check_groups check_uid_restrictions
    same_integer new_pool is_same at_capacity eq_text get put on_response complete
    on_request_complete drain next_queued reset_idle_timer is_for is_queued
idle-Reach =
    has_groups (some groups) second
      (calls second
        (responds 5 (record worker { ready = true; pooled = true }) (text "a") null undefined
          sent-Reach refl refl)
        refl)
      (Memᴰ.head refl)

queued_second : Memᴰ (record { subnode = 0; request = second; deadline = 1000 }) queued.queue
unfolding find_worker on_ready on_spawned update_worker send_request run_locked assign_to assign
    enqueue drop_stale is_stale is_busy is_on worker_runs_as spawn_worker is_free is_of remove_all
    on_groups with_groups find_subnode check_gid_restrictions dispatch check_groups
    check_uid_restrictions same_integer new_pool is_same at_capacity eq_text get put
queued_second = Memᴰ.head refl

sent_first : Memᴰ (worker, first) sent.sent
unfolding on_ready on_spawned update_worker send_request run_locked assign_to assign drop_stale
    is_stale is_busy is_on worker_runs_as spawn_worker is_free is_of remove_all on_groups
    with_groups find_subnode check_gid_restrictions dispatch check_groups check_uid_restrictions
    same_integer new_pool is_same at_capacity eq_text get put
sent_first = Memᴰ.head refl

idle_free :
    find
      (is_free (choosing (record { subnode = 0; request = second }) (second_waits idle)))
      (workers_of (choosing (record { subnode = 0; request = second }) (second_waits idle)) 0)
    ≡ some idle_worker
unfolding on_ready on_spawned update_worker send_request run_locked assign_to assign drop_stale
    is_stale is_busy is_on worker_runs_as spawn_worker is_free is_of remove_all on_groups
    with_groups find_subnode check_gid_restrictions dispatch check_groups check_uid_restrictions
    same_integer new_pool is_same at_capacity eq_text get put on_response complete
    on_request_complete drain next_queued reset_idle_timer is_for is_queued
idle_free = refl

idle_waits :
    (find (λ (v : Waiting). v.subnode == 0) (second_waits idle).waiting
      ≡ some (record { subnode = 0; request = second }))
    × (any (λ (p : Pending). p.subnode == 0) (second_waits idle).spawning ≡ false)
unfolding on_ready on_spawned update_worker send_request run_locked assign_to assign drop_stale
    is_stale is_busy is_on worker_runs_as spawn_worker is_free is_of remove_all on_groups
    with_groups find_subnode check_gid_restrictions dispatch check_groups check_uid_restrictions
    same_integer new_pool is_same at_capacity eq_text get put on_response complete
    on_request_complete drain next_queued reset_idle_timer is_for is_queued
idle_waits = (refl, refl)

answered_once_example : outstanding 1 queued + returned 1 queued ≡ 1
answered_once_example = answered_once 1 queued-Reach

sent_as_example :
    (whole 1001 ≡ whole 1001)
    × (whole 1001 ≡ whole 1001)
    × (check_uid_restrictions cfg (whole 1001) ≡ none)
sent_as_example = sent_as worker first sent-Reach sent_first

abbrev given : State
given = run_locked cfg 5 true true (record { subnode = 0; request = second }) (second_waits idle)

idle_timer-rejects_example :
    Reach cfg (second ∷ first ∷ []) given
    × Memᴰ (pending_at idle_worker second) given.pending
    × (find_worker given 1 ≡ some idle_worker)
    × Reach cfg (second ∷ first ∷ []) (remove_worker 1 given)
    × Memᴰ (second, terminated) (remove_worker 1 given).answers
idle_timer-rejects_example =
    idle_timer-rejects 5 (record { subnode = 0; request = second }) idle_worker idle-Reach
      idle_waits.0 idle_waits.1 idle_free refl

never_stranded_example : HasWorker 0 queued.workers
never_stranded_example =
    never_stranded (omega arith) queued-Reach
      (record { subnode = 0; request = second; deadline = 1000 }) queued_second
