-- ===== src/Hub/Pool/Answered/Operations.antt =====
-- packages/hub/src/subnode.ts: each operation keeps the count of calls.
use constellation_mcp.Prelude.{
  ◌≡◌, refl, ap, ◌∙◌, ℕ, ◌+◌, Bool, true, false, List, [], ◌∷◌, Memᴰ, Option, none, some, arith,
  find, keep, remove_first, ltb, if-case,
}
use constellation_mcp.Prelude.Table.{get}
use constellation_mcp.Prelude.Strings.{Integer}
use constellation_mcp.Prelude.Tally.{tally, tally-append, find-Mem}
use constellation_mcp.Hub.Rpc.{DispatchResult}
use constellation_mcp.Hub.Pool.{
  Config, UidRestriction, Request, Worker, Pending, Waiting, State, is_same, check_uid_restrictions,
  uid_blocked, check_gid_restrictions, Tier,
}
use constellation_mcp.Hub.Pool.Workers.{
  is_on, remove_all, evict_subnode_workers, workers_of, update_worker,
}
use constellation_mcp.Hub.Pool.Calls.{
  hub_shutting_down, check_groups, dispatch, at_capacity, find_subnode, with_groups, on_groups,
  run_locked, is_stale, drop_stale, enqueue, assign, assign_to, on_spawned, spawn_worker, on_ready,
  on_spawn_timeout,
}
use constellation_mcp.Hub.Pool.Answered.{
  checking-total, waiting-total, spawning-total, call, call_of, queued_call, waiting_call, total,
  one, total-answer, remove_all-total, evict-total, send_request-total,
}

check_groups-total :
    (i : ℕ) (o : Option UidRestriction) (r : Request) (s : State)
    → total i (check_groups o r s) ≡ one i r + total i s
unfolding check_groups total tally
check_groups-total i (some x) r s =
    unfold total in
    (total-answer i r (uid_blocked r) (evict_subnode_workers r.identity.username s)
      ∙ ap (λ n. one i r + n) (evict-total i r.identity.username s))
check_groups-total i none r s = omega (arith, tally-append call i s.checking (r ∷ []))

-- What an operation leaves counts one call more, or as many.
Plus : ℕ → ℕ → State → State → Type 0
Plus i n s t = total i t ≡ n + total i s

pub dispatch-total :
    (i : ℕ) (cfg : Config) (r : Request) (s : State)
    → total i (dispatch cfg r s) ≡ one i r + total i s
unfolding dispatch
dispatch-total i cfg r s =
    if-case (λ t. total i t ≡ one i r + total i s) s.shutting_down _ _
      (λ e. total-answer i r hub_shutting_down s)
      λ e. check_groups-total i (check_uid_restrictions cfg r.identity.uid) r s

find_subnode-total :
    (i : ℕ) (cfg : Config) (o : Option ℕ) (r : Request) (s : State)
    → total i (find_subnode cfg o r s) ≡ one i r + total i s
unfolding find_subnode total tally
find_subnode-total i cfg (some n) r s =
    omega (arith, tally-append waiting_call i s.waiting (record { subnode = n; request = r } ∷ []))
find_subnode-total i cfg none r s =
    if-case (λ t. total i t ≡ one i r + total i s) (at_capacity cfg s) _ _ (λ e. omega arith)
      λ e. omega (
        arith,
        tally-append waiting_call i s.waiting (record { subnode = s.next; request = r } ∷ []),
      )

with_groups-total :
    (i : ℕ) (cfg : Config) (o : Option DispatchResult) (r : Request) (s : State)
    → total i (with_groups cfg o r s) ≡ one i r + total i s
unfolding with_groups
with_groups-total i cfg (some blocked) r s = omega (
  arith,
  total-answer i r blocked (evict_subnode_workers r.identity.username s),
  evict-total i r.identity.username s,
)
with_groups-total i cfg none r s = find_subnode-total i cfg (get s.subnodes r.identity.username) r s

pub on_groups-total :
    (i : ℕ) (cfg : Config) (groups : Option (List Integer)) (r : Request) (s : State)
    → Memᴰ r s.checking
    → total i (on_groups cfg groups r s) ≡ total i s
unfolding on_groups
on_groups-total i cfg groups r s m = omega (
  arith,
  checking-total i r s m,
  with_groups-total i cfg (check_gid_restrictions cfg groups r) r
      (record s { checking = remove_first (is_same r) s.checking }),
)

drop_stale-total : (i n : ℕ) (r : Request) (s : State) → total i (drop_stale n r s) ≡ total i s
unfolding drop_stale remove_all total
drop_stale-total i n r s = remove_all-total i (keep (is_stale s r.identity) (workers_of s n)) s

spawn_worker-total :
    (i : ℕ) (forked : Bool) (n : ℕ) (tier : Tier) (r : Request) (s : State)
    → total i (spawn_worker forked n tier r s) ≡ one i r + total i s
unfolding spawn_worker total tally
spawn_worker-total i false n tier r s = omega arith
spawn_worker-total i true n tier r s = omega (
  arith,
  tally-append call_of i s.spawning (record { worker = s.next; subnode = n; request = r } ∷ []),
)

enqueue-total :
    (i : ℕ) (cfg : Config) (now n : ℕ) (r : Request) (s : State)
    → total i (enqueue cfg now n r s) ≡ one i r + total i s
unfolding enqueue total tally
enqueue-total i cfg now n r s = omega (
  arith,
  tally-append queued_call i s.queue
      (record { subnode = n; request = r; deadline = now + cfg.queue_timeout_ms } ∷ []),
)

assign-total :
    (i : ℕ) (cfg : Config) (now : ℕ) (forked accepted : Bool) (n : ℕ) (r : Request) (size : ℕ)
    (o : Option Worker) (s : State)
    → total i (assign cfg now forked accepted n r size o s) ≡ one i r + total i s
unfolding assign
assign-total i cfg now forked accepted n r size (some w) s = send_request-total i accepted w r s
assign-total i cfg now forked accepted n r size none s =
    if-case (λ t. total i t ≡ one i r + total i s) (ltb size cfg.max_workers) _ _
      (λ e. spawn_worker-total i forked n _ r s) λ e. enqueue-total i cfg now n r s

pub run_locked-total :
    (i : ℕ) (cfg : Config) (now : ℕ) (forked accepted : Bool) (w : Waiting) (s : State)
    → Memᴰ w s.waiting
    → total i (run_locked cfg now forked accepted w s) ≡ total i s
unfolding run_locked assign_to
run_locked-total i cfg now forked accepted w s m =
    let begun : State = record s {
      waiting = remove_first (λ v. is_same w.request v.request) s.waiting;
    } in
    omega (
      arith,
      waiting-total i w s m,
      drop_stale-total i w.subnode w.request begun,
      assign-total i cfg now forked accepted w.subnode w.request _ _
          (drop_stale w.subnode w.request begun),
    )

on_spawned-total :
    (i : ℕ) (accepted : Bool) (w : Worker) (o : Option Pending) (s : State)
    → ((p : Pending) → o ≡ some p → Memᴰ p s.spawning)
    → total i (on_spawned accepted w o s) ≡ total i s
unfolding on_spawned total
on_spawned-total i accepted w none s m = refl
on_spawned-total i accepted w (some p) s m = omega (
  arith,
  spawning-total i p s (m p refl),
  send_request-total i accepted w p.request (record s {
    workers = update_worker (λ v. record v { ready = true; pooled = true }) w.id s.workers;
    spawning = remove_first (λ q. is_same p.request q.request) s.spawning;
  }),
)

pub on_ready-total :
    (i : ℕ) (accepted : Bool) (w : Worker) (s : State) → total i (on_ready accepted w s) ≡ total i s
unfolding on_ready
on_ready-total i accepted w s =
    on_spawned-total i accepted w (find (is_on w.id) s.spawning) s
      (λ p. find-Mem (is_on w.id) s.spawning)

pub on_spawn_timeout-total :
    (i : ℕ) (cfg : Config) (p : Pending) (s : State)
    → Memᴰ p s.spawning
    → total i (on_spawn_timeout cfg p s) ≡ total i s
unfolding on_spawn_timeout
on_spawn_timeout-total i cfg p s m = omega (
  arith,
  spawning-total i p s m,
  total-answer i p.request _
      (record s { spawning = remove_first (λ q. is_same p.request q.request) s.spawning }),
)
