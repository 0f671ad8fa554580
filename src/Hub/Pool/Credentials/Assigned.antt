-- ===== src/Hub/Pool/Credentials/Assigned.antt =====
-- packages/hub/src/subnode.ts: a call is given to a worker that runs as its user.
use constellation_mcp.Prelude.{
  ◌≡◌, refl, sym, ap, ℕ, ◌+◌, Bool, true, false, List, [], ◌∷◌, ◌++◌, Memᴰ, Option, none, some,
  ==_iff, find, remove_first, ltb, if-case,
}
use constellation_mcp.Prelude.Table.{get}
use constellation_mcp.Prelude.Strings.{Integer}
use constellation_mcp.Prelude.Tally.{find-Mem, find-holds}
use constellation_mcp.Hub.Rpc.{DispatchResult}
use constellation_mcp.Hub.Pool.{
  Config, UidRestriction, Request, Worker, Pending, Waiting, State, is_same, check_uid_restrictions,
  check_gid_restrictions, Tier,
}
use constellation_mcp.Hub.Pool.Workers.{is_on, update_worker}
use constellation_mcp.Hub.Pool.Calls.{
  check_groups, dispatch, at_capacity, find_subnode, with_groups, on_groups, run_locked, drop_stale,
  enqueue, assign, assign_to, on_spawned, spawn_worker, on_ready, on_spawn_timeout,
}
use constellation_mcp.Prelude.Members.{mem-remove_first, every-append}
use constellation_mcp.Hub.Pool.Tidy.{new-IsTidy}
use constellation_mcp.Hub.Pool.Stale.{free-drop_stale}
use constellation_mcp.Hub.Pool.Workers.{find_worker}
use constellation_mcp.Hub.Pool.Credentials.{
  Runs, May, Fits, IsSafe, Safe-checks, Safe-waits, Safe-queues, Safe-spawns, evict-IsSafe,
  send_request-IsSafe, update-IsSafe,
}
use constellation_mcp.Hub.Pool.Credentials.Begun.{
  is_found, later-Safe, joined-Fits, begun-IsSafe, new_worker, drop_stale-IsSafe, is_member,
  new-Fits,
}

module _ (cfg : Config) where
  check_groups-IsSafe :
      (o : Option UidRestriction) (r : Request) (s : State)
      → check_uid_restrictions cfg r.identity.uid ≡ o
      → IsSafe cfg s
      → IsSafe cfg (check_groups o r s)
  unfolding check_groups
  check_groups-IsSafe (some x) r s e v = evict-IsSafe cfg r.identity.username s v
  check_groups-IsSafe none r s e v =
      Safe-checks cfg v (s.checking ++ r ∷ [])
        (every-append (λ q. May cfg q) s.checking r v.may_check e)

  pub dispatch-IsSafe : (r : Request) (s : State) → IsSafe cfg s → IsSafe cfg (dispatch cfg r s)
  unfolding dispatch
  dispatch-IsSafe r s v =
      if-case (IsSafe cfg) s.shutting_down _ _ (λ e. v)
        λ e. check_groups-IsSafe (check_uid_restrictions cfg r.identity.uid) r s refl v

  find_subnode-IsSafe :
      (o : Option ℕ) (r : Request) (s : State)
      → May cfg r
      → IsSafe cfg s
      → IsSafe cfg (find_subnode cfg o r s)
  unfolding find_subnode
  find_subnode-IsSafe (some n) r s may v =
      Safe-waits cfg v (s.waiting ++ record { subnode = n; request = r } ∷ [])
        (every-append (λ w. May cfg w.request) s.waiting _ v.may_wait may)
  find_subnode-IsSafe none r s may v =
      if-case (IsSafe cfg) (at_capacity cfg s) _ _ (λ e. v)
        λ e.
          Safe-waits cfg (later-Safe cfg v)
            (s.waiting ++ record { subnode = s.next; request = r } ∷ [])
            (every-append (λ w. May cfg w.request) s.waiting _ v.may_wait may)

  with_groups-IsSafe :
      (o : Option DispatchResult) (r : Request) (s : State)
      → May cfg r
      → IsSafe cfg s
      → IsSafe cfg (with_groups cfg o r s)
  unfolding with_groups
  with_groups-IsSafe (some blocked) r s may v = evict-IsSafe cfg r.identity.username s v
  with_groups-IsSafe none r s may v =
      find_subnode-IsSafe (get s.subnodes r.identity.username) r s may v

  pub on_groups-IsSafe :
      (groups : Option (List Integer)) (r : Request) (s : State)
      → Memᴰ r s.checking
      → IsSafe cfg s
      → IsSafe cfg (on_groups cfg groups r s)
  unfolding on_groups
  on_groups-IsSafe groups r s m v =
      with_groups-IsSafe (check_gid_restrictions cfg groups r) r
        (record s { checking = remove_first (is_same r) s.checking }) (v.may_check r m)
        (Safe-checks cfg v (remove_first (is_same r) s.checking)
          λ q n. v.may_check q (mem-remove_first (is_same r) s.checking n))

  spawn_worker-IsSafe :
      (forked : Bool) (n : ℕ) (tier : Tier) (r : Request) (s : State)
      → May cfg r
      → IsSafe cfg s
      → IsSafe cfg (spawn_worker forked n tier r s)
  unfolding spawn_worker
  spawn_worker-IsSafe false n tier r s may v = v
  spawn_worker-IsSafe true n tier r s may v = record {
    tidy = new-IsTidy s.next s.workers _ refl refl v.tidy;
    may_check = v.may_check;
    may_wait = v.may_wait;
    may_queue = v.may_queue;
    spawned =
        every-append (Fits cfg (s.next + 1) (s.workers ++ new_worker n tier r s ∷ [])) s.spawning _
          (λ p m. joined-Fits cfg n tier r s p (v.spawned p m))
          (new-Fits cfg n tier r s may v.tidy);
    rechecked = λ p m. joined-Fits cfg n tier r s p (v.rechecked p m);
    ran = v.ran;
  }

  assign-IsSafe :
      (now : ℕ) (forked accepted : Bool) (n : ℕ) (r : Request) (size : ℕ) (o : Option Worker)
      (s : State)
      → May cfg r
      → ((w : Worker) → o ≡ some w → Runs w r)
      → IsSafe cfg s
      → IsSafe cfg (assign cfg now forked accepted n r size o s)
  unfolding assign enqueue
  assign-IsSafe now forked accepted n r size (some w) s may runs v =
      send_request-IsSafe cfg accepted w r s (runs w refl) may v
  assign-IsSafe now forked accepted n r size none s may runs v =
      if-case (IsSafe cfg) (ltb size cfg.max_workers) _ _
        (λ e. spawn_worker-IsSafe forked n _ r s may v)
        λ e. Safe-queues cfg v _ (every-append (λ q. May cfg q.request) s.queue _ v.may_queue may)

  pub run_locked-IsSafe :
      (now : ℕ) (forked accepted : Bool) (w : Waiting) (s : State)
      → Memᴰ w s.waiting
      → IsSafe cfg s
      → IsSafe cfg (run_locked cfg now forked accepted w s)
  unfolding run_locked assign_to
  run_locked-IsSafe now forked accepted w s m v =
      let begun : State = record s {
        waiting = remove_first (λ u. is_same w.request u.request) s.waiting;
      } in
      let safe : IsSafe cfg begun = begun-IsSafe cfg w s v in
      assign-IsSafe now forked accepted w.subnode w.request _ _
        (drop_stale w.subnode w.request begun) (v.may_wait w m)
        (λ u e. free-drop_stale w.subnode w.request begun u safe.tidy e)
        (drop_stale-IsSafe cfg w.subnode w.request begun safe)

  on_spawned-IsSafe :
      (accepted : Bool) (w : Worker) (o : Option Pending) (s : State)
      → find_worker s w.id ≡ some w
      → w.removed ≡ false
      → ((p : Pending) → o ≡ some p → Memᴰ p s.spawning × (w.id ≡ p.worker))
      → IsSafe cfg s
      → IsSafe cfg (on_spawned accepted w o s)
  unfolding on_spawned
  on_spawned-IsSafe accepted w none s e r h v =
      update-IsSafe cfg _ w.id s (λ x. (refl, refl, refl)) (λ x m k i. v.tidy.apart x m i) v
  on_spawned-IsSafe accepted w (some p) s e r h v =
      let (m, here) = h p refl in
      let same : Pending → Bool = λ q. is_same p.request q.request in
      let ready : Worker → Worker = λ x. record x { ready = true; pooled = true } in
      let rest : State = record s { spawning = remove_first same s.spawning } in
      let joined : IsSafe cfg (record rest { workers = update_worker ready w.id s.workers }) =
        update-IsSafe cfg ready w.id rest (λ x. (refl, refl, refl))
          (λ x n k i. cc (i, r, ap (λ (y : Worker). y.removed) (is_found s x w v.tidy n k e)))
          (Safe-spawns cfg v (remove_first same s.spawning)
            λ q n. v.spawned q (mem-remove_first same s.spawning n)) in
      send_request-IsSafe cfg accepted w p.request
        (record rest { workers = update_worker ready w.id s.workers })
        ((v.spawned p m).2 w (is_member s w e) here) (v.spawned p m).0 joined

  pub on_ready-IsSafe :
      (accepted : Bool) (w : Worker) (s : State)
      → find_worker s w.id ≡ some w
      → w.removed ≡ false
      → IsSafe cfg s
      → IsSafe cfg (on_ready accepted w s)
  unfolding on_ready is_on
  on_ready-IsSafe accepted w s e r v =
      on_spawned-IsSafe accepted w (find (is_on w.id) s.spawning) s e r
        (λ p f. (
          find-Mem (is_on w.id) s.spawning f,
          sym ((==_iff p.worker w.id).0 (find-holds (is_on w.id) s.spawning f)),
        ))
        v

  pub on_spawn_timeout-IsSafe :
      (p : Pending) (s : State) → IsSafe cfg s → IsSafe cfg (on_spawn_timeout cfg p s)
  unfolding on_spawn_timeout
  on_spawn_timeout-IsSafe p s v =
      let same : Pending → Bool = λ q. is_same p.request q.request in
      Safe-spawns cfg v (remove_first same s.spawning)
        λ q n. v.spawned q (mem-remove_first same s.spawning n)
