-- ===== src/Hub/Pool/Credentials/Begun.antt =====
-- packages/hub/src/subnode.ts: a call that has the lock finds no worker under other credentials, and a
-- new worker runs as the call's user.
use constellation_mcp.Prelude.{
  ◌≡◌, refl, sym, ◌∙◌, ℕ, ◌+◌, Bool, true, false, List, [], ◌∷◌, ◌++◌, Memᴰ, some, arith, subst,
  find, keep, remove_first, ◌==◌,
}
use mathlib.Core.Option.{some-injective}
use constellation_mcp.Prelude.Strings.{Integer, whole, negative}
use constellation_mcp.Prelude.Tally.{find-Mem}
use constellation_mcp.Hub.Pool.{
  Config, Request, Worker, Pending, QueuedRequest, Waiting, State, is_same, worker_runs_as,
  same_integer, Tier,
}
use constellation_mcp.Hub.Pool.Workers.{workers_of}
use constellation_mcp.Hub.Pool.Calls.{is_stale, drop_stale}
use constellation_mcp.Prelude.Members.{mem-remove_first, every-append}
use constellation_mcp.Hub.Pool.Shrinks.{Tidy}
use constellation_mcp.Hub.Pool.Tidy.{later-IsTidy}
use constellation_mcp.Hub.Pool.Workers.{find_worker}
use constellation_mcp.Hub.Pool.Credentials.{
  Runs, May, Fits, Safe, IsSafe, Safe-waits, remove_all-IsSafe,
}

later-Fits :
    (cfg : Config) (next : ℕ) (ws : List Worker) (p : Pending)
    → Fits cfg next ws p
    → Fits cfg (next + 1) ws p
later-Fits cfg next ws p (may, below, runs) = (may, omega arith, runs)

pub later-Safe :
    (cfg : Config) {next : ℕ} {ws : List Worker} {checking : List Request} {waiting : List Waiting}
    {spawning : List Pending} {queue : List QueuedRequest} {rechecking : List Pending}
    {sent : List (Worker × Request)}
    → Safe cfg next ws checking waiting spawning queue rechecking sent
    → Safe cfg (next + 1) ws checking waiting spawning queue rechecking sent
later-Safe cfg {next} {ws} v = record {
  tidy = later-IsTidy next ws v.tidy;
  may_check = v.may_check;
  may_wait = v.may_wait;
  may_queue = v.may_queue;
  spawned = λ p m. later-Fits cfg next ws p (v.spawned p m);
  rechecked = λ p m. later-Fits cfg next ws p (v.rechecked p m);
  ran = v.ran;
}

same_integer_refl : (n : Integer) → same_integer n n ≡ true
unfolding same_integer
same_integer_refl (whole n) = ground arith
same_integer_refl (negative n) = ground arith

-- The worker that `spawn_worker` makes.
abbrev pub new_worker : ℕ → Tier → Request → State → Worker
new_worker n tier r s = record {
  id = s.next;
  subnode = n;
  uid = r.identity.uid;
  gid = r.identity.gid;
  tier = tier;
  ready = false;
  pooled = false;
  idle_timer = false;
  removed = false;
}

module _ (cfg : Config) (n : ℕ) (tier : Tier) (r : Request) (s : State) where
  pub joined-Fits :
      (p : Pending)
      → Fits cfg s.next s.workers p
      → Fits cfg (s.next + 1) (s.workers ++ new_worker n tier r s ∷ []) p
  joined-Fits p (may, below, runs) = (
    may,
    omega arith,
    every-append (λ w. w.id ≡ p.worker → Runs w p.request) s.workers (new_worker n tier r s) runs
        λ e. absurd (omega arith),
  )

  pub new-Fits :
      May cfg r
      → Tidy s
      → Fits cfg
          (s.next + 1)
          (s.workers ++ new_worker n tier r s ∷ [])
          (record { worker = s.next; subnode = n; request = r })
  unfolding worker_runs_as
  new-Fits may tidy = (
    may,
    omega arith,
    every-append (λ w. w.id ≡ s.next → Runs w r) s.workers (new_worker n tier r s)
        (λ w m e. let h = tidy.below w m in absurd (omega arith))
        λ e. rw (same_integer_refl r.identity.uid, same_integer_refl r.identity.gid) refl,
  )

pub is_member : (s : State) (w : Worker) → find_worker s w.id ≡ some w → Memᴰ w s.workers
unfolding find_worker
is_member s w e = find-Mem (λ (v : Worker). v.id == w.id) s.workers e

pub is_found :
    (s : State) (x w : Worker)
    → Tidy s
    → Memᴰ x s.workers
    → x.id ≡ w.id
    → find_worker s w.id ≡ some w
    → x ≡ w
unfolding find_worker
is_found s x w tidy m k e = some-injective x w (
    sym (subst (λ i. find (λ (v : Worker). v.id == i) s.workers ≡ some x) k (tidy.distinct x m))
    ∙ e)

pub drop_stale-IsSafe :
    (cfg : Config) (n : ℕ) (r : Request) (s : State) → IsSafe cfg s → IsSafe cfg (drop_stale n r s)
unfolding drop_stale
drop_stale-IsSafe cfg n r s v =
    remove_all-IsSafe cfg (keep (is_stale s r.identity) (workers_of s n)) s v

pub begun-IsSafe :
    (cfg : Config) (w : Waiting) (s : State)
    → IsSafe cfg s
    → IsSafe cfg (record s { waiting = remove_first (λ u. is_same w.request u.request) s.waiting })
begun-IsSafe cfg w s v =
    let first : Waiting → Bool = λ u. is_same w.request u.request in
    Safe-waits cfg v (remove_first first s.waiting)
      λ u n. v.may_wait u (mem-remove_first first s.waiting n)
