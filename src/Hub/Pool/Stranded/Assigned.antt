-- ===== src/Hub/Pool/Stranded/Assigned.antt =====
-- packages/hub/src/subnode.ts: a call is queued only at a subnode that has a worker.
use constellation_mcp.Prelude.{
  ◌≡◌, refl, sym, ap, ℕ, Bool, true, false, List, [], ◌∷◌, Memᴰ, Option, none, some, arith, subst,
  ◌<◌, keep, keep-mem, remove_first, length, ltb, if-case,
}
use constellation_mcp.Prelude.Text.{Text}
use constellation_mcp.Prelude.Table.{get}
use constellation_mcp.Hub.Rpc.{DispatchResult}
use constellation_mcp.Hub.Pool.{
  Config, UidRestriction, Request, Worker, Pending, Waiting, State, is_same, check_uid_restrictions,
  Tier,
}
use constellation_mcp.Hub.Pool.Workers.{
  remove_worker, remove_all, evict_subnode_workers, reset_idle_timer, send_request, workers_of,
}
use constellation_mcp.Hub.Pool.Calls.{
  check_groups, dispatch, at_capacity, find_subnode, with_groups, run_locked, is_stale, drop_stale,
  enqueue, assign, assign_to, on_spawned, spawn_worker,
}
use constellation_mcp.Prelude.Members.{every-append}
use constellation_mcp.Prelude.Members.{every-append}
use constellation_mcp.Hub.Pool.Workers.{is_of}
use constellation_mcp.Hub.Pool.Removal.{Kept-remove_all, Kept-evict}
use constellation_mcp.Hub.Pool.Stranded.{
  HasWorker, IsServed, Both, Kept-Both, update-HasWorker, append-HasWorker,
}

pub remove-Served : (id : ℕ) (s : State) → Both s → IsServed (remove_worker id s)
remove-Served id s b = (Kept-Both s id b).1

pub evict-Both : (username : Text) (s : State) → Both s → Both (evict_subnode_workers username s)
evict-Both = Kept-evict Both Kept-Both

pub remove_all-Both : (ws : List Worker) (s : State) → Both s → Both (remove_all ws s)
remove_all-Both = Kept-remove_all Both Kept-Both

pub reset_idle_timer-Served :
    (w : Worker) (s : State) → IsServed s → IsServed (reset_idle_timer w s)
unfolding reset_idle_timer is_of
reset_idle_timer-Served w s v q m =
    update-HasWorker _ w.id q.subnode s.workers (λ u n e h. h) (v q m)

pub send_request-Served :
    (accepted : Bool) (w : Worker) (r : Request) (s : State)
    → IsServed s
    → IsServed (send_request accepted w r s)
unfolding send_request
send_request-Served accepted w r s v = if-case IsServed accepted _ _ (λ e. v) λ e. v

pub on_spawned-Served :
    (accepted : Bool) (w : Worker) (o : Option Pending) (s : State)
    → IsServed s
    → IsServed (on_spawned accepted w o s)
unfolding on_spawned is_of
on_spawned-Served accepted w none s v =
    λ q m. update-HasWorker _ w.id q.subnode s.workers (λ u n e h. h) (v q m)
on_spawned-Served accepted w (some p) s v =
    send_request-Served accepted w p.request _
      λ q m. update-HasWorker _ w.id q.subnode s.workers (λ u n e h. ground arith) (v q m)

find_subnode-Served :
    (cfg : Config) (o : Option ℕ) (r : Request) (s : State)
    → IsServed s
    → IsServed (find_subnode cfg o r s)
unfolding find_subnode
find_subnode-Served cfg (some n) r s v = v
find_subnode-Served cfg none r s v = if-case IsServed (at_capacity cfg s) _ _ (λ e. v) λ e. v

check_groups-Served :
    (o : Option UidRestriction) (r : Request) (s : State) → Both s → IsServed (check_groups o r s)
unfolding check_groups
check_groups-Served (some x) r s b = (evict-Both r.identity.username s b).1
check_groups-Served none r s b = b.1

pub dispatch-Served :
    (cfg : Config) (r : Request) (s : State) → Both s → IsServed (dispatch cfg r s)
unfolding dispatch
dispatch-Served cfg r s b =
    if-case IsServed s.shutting_down _ _ (λ e. b.1)
      λ e. check_groups-Served (check_uid_restrictions cfg r.identity.uid) r s b

pub with_groups-Served :
    (cfg : Config) (o : Option DispatchResult) (r : Request) (s : State)
    → Both s
    → IsServed (with_groups cfg o r s)
unfolding with_groups
with_groups-Served cfg (some blocked) r s b = (evict-Both r.identity.username s b).1
with_groups-Served cfg none r s b = go (get s.subnodes r.identity.username)
  where
    go : (o : Option ℕ) → IsServed (find_subnode cfg o r s)
    go o = find_subnode-Served cfg o r s b.1

module _ (cfg : Config) where
  spawn_worker-Served :
      (forked : Bool) (n : ℕ) (tier : Tier) (r : Request) (s : State)
      → IsServed s
      → IsServed (spawn_worker forked n tier r s)
  unfolding spawn_worker
  spawn_worker-Served false n tier r s v = v
  spawn_worker-Served true n tier r s v = λ q m. append-HasWorker q.subnode s.workers _ (v q m)

  some-worker :
      (n : ℕ) (s : State)
      → 0 < cfg.max_workers
      → ltb (length (workers_of s n)) cfg.max_workers ≡ false
      → HasWorker n s.workers
  some-worker n s pos full = go (workers_of s n) refl
    where
      go : (ws : List Worker) → workers_of s n ≡ ws → HasWorker n s.workers
      go [] e = absurd (ground (arith, ap length e))
      go (w ∷ ws) e =
          let (m, h) =
            keep-mem (is_of n) s.workers (subst (λ xs. Memᴰ w xs) (sym e) (Memᴰ.head refl)) in
          (w, m, h)

  assign-Served :
      (now : ℕ) (forked accepted : Bool) (n : ℕ) (r : Request) (o : Option Worker) (s : State)
      → 0 < cfg.max_workers
      → IsServed s
      → IsServed (assign cfg now forked accepted n r (length (workers_of s n)) o s)
  unfolding assign enqueue
  assign-Served now forked accepted n r (some w) s pos v = send_request-Served accepted w r s v
  assign-Served now forked accepted n r none s pos v =
      if-case IsServed (ltb (length (workers_of s n)) cfg.max_workers) _ _
        (λ e. spawn_worker-Served forked n _ r s v)
        λ e. every-append (λ q. HasWorker q.subnode s.workers) s.queue _ v (some-worker n s pos e)

  pub run_locked-Served :
      (now : ℕ) (forked accepted : Bool) (w : Waiting) (s : State)
      → 0 < cfg.max_workers
      → Both s
      → IsServed (run_locked cfg now forked accepted w s)
  unfolding run_locked assign_to drop_stale
  run_locked-Served now forked accepted w s pos b =
      let begun : State = record s {
        waiting = remove_first (λ u. is_same w.request u.request) s.waiting;
      } in
      assign-Served now forked accepted w.subnode w.request _ (drop_stale w.subnode w.request begun)
        pos
        (remove_all-Both (keep (is_stale begun w.request.identity) (workers_of begun w.subnode))
          begun b).1
