-- ===== src/Hub/Pool/Credentials.antt =====
-- packages/hub/src/subnode.ts: under which user and group a request runs.
pub mod Begun
pub mod Assigned
pub mod Completed
pub mod Sent
use constellation_mcp.Prelude.{
  ◌≡◌, ◌≢◌, refl, sym, ap, ◌∙◌, subst, ◌⊎◌, inl, inr, ℕ, zero, suc, ◌+◌, ◌<◌, Bool, true, false,
  not, ◌&&◌, List, [], ◌∷◌, ◌++◌, Memᴰ, Option, none, some, arith, Bool-cases, Option-cases,
  if◌then◌else◌, if-case, find, ◌==◌, ==_iff,
}
use constellation_mcp.Prelude.Text.{Text}
use constellation_mcp.Prelude.Members.{mem-append, mem-map}
use constellation_mcp.Hub.Rpc.{DispatchResult}
use constellation_mcp.Hub.Pool.{
  Config, check_uid_restrictions, Request, Worker, worker_runs_as, Pending, QueuedRequest, Waiting,
  State, answer,
}
use constellation_mcp.Hub.Pool.Workers.{
  update_worker, send_request, remove_worker, remove_all, evict_subnode_workers, reset_idle_timer,
}
use constellation_mcp.Hub.Pool.Removal.{Kept-remove_all, Kept-evict}
use constellation_mcp.Hub.Pool.Tidy.{IsTidy, update-IsTidy}
use constellation_mcp.Hub.Pool.Shrinks.{
  Shrinks, remove_worker-Shrinks, remove_all-Shrinks, evict-Shrinks, Tidy, Kept-Tidy,
}

abbrev pub Runs : Worker → Request → Type 0
Runs w r = worker_runs_as w r.identity ≡ true

abbrev pub May : Config → Request → Type 0
May cfg r = check_uid_restrictions cfg r.identity.uid ≡ none

-- The worker that a call waits for has the credentials of the call's user.
abbrev pub Fits : Config → ℕ → List Worker → Pending → Type 0
Fits cfg next ws p =
    May cfg p.request
    × (p.worker < next)
    × ((w : Worker) → Memᴰ w ws → w.id ≡ p.worker → Runs w p.request)

pub record Safe (cfg : Config) (next : ℕ) (ws : List Worker) (checking : List Request)
    (waiting : List Waiting) (spawning : List Pending) (queue : List QueuedRequest)
    (rechecking : List Pending) (sent : List (Worker × Request)) : Type 0 where
  pub tidy : IsTidy next ws
  pub may_check : (r : Request) → Memᴰ r checking → May cfg r
  pub may_wait : (w : Waiting) → Memᴰ w waiting → May cfg w.request
  pub may_queue : (q : QueuedRequest) → Memᴰ q queue → May cfg q.request
  pub spawned : (p : Pending) → Memᴰ p spawning → Fits cfg next ws p
  pub rechecked : (p : Pending) → Memᴰ p rechecking → Fits cfg next ws p
  pub ran : (a : Worker × Request) → Memᴰ a sent → Runs a.0 a.1 × May cfg a.1

abbrev pub IsSafe : Config → State → Type 0
IsSafe cfg s = Safe cfg s.next s.workers s.checking s.waiting s.spawning s.queue s.rechecking s.sent

pub Runs-same : (w u : Worker) (r : Request) → w.uid ≡ u.uid → w.gid ≡ u.gid → Runs u r → Runs w r
unfolding worker_runs_as
Runs-same w u r e f h = rw (e, f) h

Shrinks-Fits :
    (cfg : Config) (s t : State) (p : Pending)
    → Shrinks s t
    → Fits cfg s.next s.workers p
    → Fits cfg t.next t.workers p
Shrinks-Fits cfg s t p sh (may, below, runs) = (
  may,
  subst (λ n. p.worker < n) (sym sh.same_next) below,
  λ w m e.
      let (u, n, i, x, y) = sh.of_workers w m in Runs-same w u p.request x y (runs u n (sym i ∙ e)),
)

pub Shrinks-IsSafe :
    (cfg : Config) (s t : State) → Shrinks s t → Tidy t → IsSafe cfg s → IsSafe cfg t
Shrinks-IsSafe cfg s t sh tidy v = record {
  tidy = tidy;
  may_check = λ r m. v.may_check r (subst (λ (xs : List Request). Memᴰ r xs) sh.same_checking m);
  may_wait = λ w m. v.may_wait w (subst (λ (xs : List Waiting). Memᴰ w xs) sh.same_waiting m);
  may_queue = λ q m. v.may_queue q (sh.of_queue q m);
  spawned = λ p m. Shrinks-Fits cfg s t p sh (v.spawned p (sh.of_spawning p m));
  rechecked = λ p m.
      Shrinks-Fits cfg s t p sh
        (v.rechecked p (subst (λ (xs : List Pending). Memᴰ p xs) sh.same_rechecking m));
  ran = λ a m. v.ran a (subst (λ (xs : List (Worker × Request)). Memᴰ a xs) sh.same_sent m);
}

-- One of the lists is replaced by another.
module _ (cfg : Config) {next : ℕ} {ws : List Worker} {checking : List Request}
    {waiting : List Waiting} {spawning : List Pending} {queue : List QueuedRequest}
    {rechecking : List Pending} {sent : List (Worker × Request)}
    (v : Safe cfg next ws checking waiting spawning queue rechecking sent) where
  pub Safe-checks :
      (xs : List Request)
      → ((x : Request) → Memᴰ x xs → May cfg x)
      → Safe cfg next ws xs waiting spawning queue rechecking sent
  Safe-checks xs h = record {
    tidy = v.tidy;
    may_check = h;
    may_wait = v.may_wait;
    may_queue = v.may_queue;
    spawned = v.spawned;
    rechecked = v.rechecked;
    ran = v.ran;
  }

  pub Safe-waits :
      (xs : List Waiting)
      → ((x : Waiting) → Memᴰ x xs → May cfg x.request)
      → Safe cfg next ws checking xs spawning queue rechecking sent
  Safe-waits xs h = record {
    tidy = v.tidy;
    may_check = v.may_check;
    may_wait = h;
    may_queue = v.may_queue;
    spawned = v.spawned;
    rechecked = v.rechecked;
    ran = v.ran;
  }

  pub Safe-queues :
      (xs : List QueuedRequest)
      → ((x : QueuedRequest) → Memᴰ x xs → May cfg x.request)
      → Safe cfg next ws checking waiting spawning xs rechecking sent
  Safe-queues xs h = record {
    tidy = v.tidy;
    may_check = v.may_check;
    may_wait = v.may_wait;
    may_queue = h;
    spawned = v.spawned;
    rechecked = v.rechecked;
    ran = v.ran;
  }

  pub Safe-spawns :
      (xs : List Pending)
      → ((x : Pending) → Memᴰ x xs → Fits cfg next ws x)
      → Safe cfg next ws checking waiting xs queue rechecking sent
  Safe-spawns xs h = record {
    tidy = v.tidy;
    may_check = v.may_check;
    may_wait = v.may_wait;
    may_queue = v.may_queue;
    spawned = h;
    rechecked = v.rechecked;
    ran = v.ran;
  }

  pub Safe-rechecks :
      (xs : List Pending)
      → ((x : Pending) → Memᴰ x xs → Fits cfg next ws x)
      → Safe cfg next ws checking waiting spawning queue xs sent
  Safe-rechecks xs h = record {
    tidy = v.tidy;
    may_check = v.may_check;
    may_wait = v.may_wait;
    may_queue = v.may_queue;
    spawned = v.spawned;
    rechecked = h;
    ran = v.ran;
  }

  pub Safe-sends :
      (xs : List (Worker × Request))
      → ((x : Worker × Request) → Memᴰ x xs → Runs x.0 x.1 × May cfg x.1)
      → Safe cfg next ws checking waiting spawning queue rechecking xs
  Safe-sends xs h = record {
    tidy = v.tidy;
    may_check = v.may_check;
    may_wait = v.may_wait;
    may_queue = v.may_queue;
    spawned = v.spawned;
    rechecked = v.rechecked;
    ran = h;
  }

module _ (cfg : Config) where
  pub remove_worker-IsSafe : (id : ℕ) (s : State) → IsSafe cfg s → IsSafe cfg (remove_worker id s)
  remove_worker-IsSafe id s v =
      Shrinks-IsSafe cfg s (remove_worker id s) (remove_worker-Shrinks id s) (Kept-Tidy s id v.tidy)
        v

  pub remove_all-IsSafe :
      (ws : List Worker) (s : State) → IsSafe cfg s → IsSafe cfg (remove_all ws s)
  remove_all-IsSafe ws s v =
      Shrinks-IsSafe cfg s (remove_all ws s) (remove_all-Shrinks ws s)
        (Kept-remove_all Tidy Kept-Tidy ws s v.tidy) v

  pub evict-IsSafe :
      (username : Text) (s : State) → IsSafe cfg s → IsSafe cfg (evict_subnode_workers username s)
  evict-IsSafe username s v =
      Shrinks-IsSafe cfg s (evict_subnode_workers username s) (evict-Shrinks username s)
        (Kept-evict Tidy Kept-Tidy username s v.tidy) v

  pub send_request-IsSafe :
      (accepted : Bool) (w : Worker) (r : Request) (s : State)
      → Runs w r
      → May cfg r
      → IsSafe cfg s
      → IsSafe cfg (send_request accepted w r s)
  unfolding send_request
  send_request-IsSafe accepted w r s runs may v =
      if-case (IsSafe cfg) accepted _ _ (λ e. logged) λ e. logged
    where
      holds : (a : Worker × Request) → Memᴰ a ((w, r) ∷ s.sent) → Runs a.0 a.1 × May cfg a.1
      holds a (Memᴰ.head e) =
          subst (λ (x : Worker × Request). Runs x.0 x.1 × May cfg x.1) (sym e) (runs, may)
      holds a (Memᴰ.tail m) = v.ran a m

      logged : IsSafe cfg (record s { sent = (w, r) ∷ s.sent })
      logged = Safe-sends cfg v ((w, r) ∷ s.sent) holds

  -- A change of a worker that leaves its number and its credentials.
  pub update-IsSafe :
      (f : Worker → Worker) (id : ℕ) (s : State)
      → ((w : Worker) → ((f w).id ≡ w.id) × ((f w).uid ≡ w.uid) × ((f w).gid ≡ w.gid))
      → ((w : Worker) → Memᴰ w s.workers → w.id ≡ id → (f w).removed ≡ true → (f w).pooled ≡ false)
      → IsSafe cfg s
      → IsSafe cfg (record s { workers = update_worker f id s.workers })
  unfolding update_worker
  update-IsSafe f id s same ok v = record {
    tidy = update-IsTidy f id s.next s.workers (λ w. (same w).0) ok v.tidy;
    may_check = v.may_check;
    may_wait = v.may_wait;
    may_queue = v.may_queue;
    spawned = λ p m. moved p (v.spawned p m);
    rechecked = λ p m. moved p (v.rechecked p m);
    ran = v.ran;
  }
    where
      moved :
          (p : Pending)
          → Fits cfg s.next s.workers p
          → Fits cfg s.next (update_worker f id s.workers) p
      moved p (may, below, runs) = (
        may,
        below,
        λ w m e.
            let (u, n, k) = mem-map _ s.workers m in
            subst (λ (x : Worker). x.id ≡ p.worker → Runs x p.request) (sym k)
              (if-case (λ (x : Worker). x.id ≡ p.worker → Runs x p.request) (u.id == id) (f u) u
                (λ h i.
                  Runs-same (f u) u p.request (same u).1 (same u).2 (runs u n (sym (same u).0 ∙ i)))
                λ h. runs u n)
              e,
      )

  pub reset_idle_timer-IsSafe :
      (w : Worker) (s : State) → IsSafe cfg s → IsSafe cfg (reset_idle_timer w s)
  unfolding reset_idle_timer
  reset_idle_timer-IsSafe w s v =
      update-IsSafe _ w.id s (λ x. (refl, refl, refl)) (λ x m e r. v.tidy.apart x m r) v
