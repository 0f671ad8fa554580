-- ===== src/Hub/Pool/Answered.antt =====
-- packages/hub/src/subnode.ts: no call is lost, and none returns twice.
mod Operations
mod Completion
pub mod Once
use constellation_mcp.Prelude.{
  ◌≡◌, refl, sym, ap, ◌∙◌, ◌⊎◌, inl, inr, ℕ, zero, suc, ◌+◌, Bool, true, false, not, ◌&&◌, List, [],
  ◌∷◌, ◌++◌, Memᴰ, Option, none, some, arith, Bool-cases, Option-cases, if◌then◌else◌, any, find,
  keep, remove_first, length, ltb, leb, ◌==◌, map,
}
use constellation_mcp.Prelude.Text.{Text}
use constellation_mcp.Prelude.Table.{get}
use constellation_mcp.Prelude.Strings.{Integer}
use constellation_mcp.Prelude.Tally.{
  tally, tally-append, tally-keep, tally-remove_first, tally-map, find-Mem,
}
use constellation_mcp.Hub.Rpc.{DispatchResult}
use constellation_mcp.Hub.Pool.Removal.{Kept, Kept-remove_worker, Kept-remove_all, Kept-evict}
use constellation_mcp.Hub.Pool.{
  Config, Request, Worker, Pending, QueuedRequest, Waiting, State, new_pool, answer, is_same,
  check_uid_restrictions, check_gid_restrictions, worker_runs_as,
}
use constellation_mcp.Hub.Pool.Workers.{
  is_on, is_of, is_queued, answered, terminated, not_ready, stranded, close_subnode, detach,
  find_worker, remove_worker, remove_all, evict_subnode_workers, reset_idle_timer, send_request,
  workers_of, is_for,
}

abbrev pub call : Request → ℕ
call r = r.id

abbrev pub call_of : Pending → ℕ
call_of p = p.request.id

abbrev pub queued_call : QueuedRequest → ℕ
queued_call q = q.request.id

abbrev pub waiting_call : Waiting → ℕ
waiting_call w = w.request.id

abbrev pub answered_call : Request × DispatchResult → ℕ
answered_call a = a.0.id

-- In how many places the call stands that has the number.
unfoldable pub outstanding : ℕ → State → ℕ
outstanding i s =
    tally call i s.checking
    + (tally waiting_call i s.waiting
        + (tally call_of i s.spawning
            + (tally queued_call i s.queue
                + (tally call_of i s.rechecking
                    + (tally call_of i s.pending + tally call_of i s.replaced)))))

unfoldable pub returned : ℕ → State → ℕ
returned i s = tally answered_call i s.answers

unfoldable pub total : ℕ → State → ℕ
unfolding outstanding returned
total i s = outstanding i s + returned i s

abbrev pub one : ℕ → Request → ℕ
one i r = if r.id == i then 1 else 0

tally-answered :
    {A : Type 0} (f : A → Request) (result : DispatchResult) (i : ℕ) (xs : List A)
    → tally answered_call i (answered f result xs) ≡ tally (λ x. (f x).id) i xs
unfolding answered
tally-answered f result i xs = tally-map (λ x. (f x, result)) answered_call i xs

pub total-answer :
    (i : ℕ) (r : Request) (result : DispatchResult) (s : State)
    → total i (answer r result s) ≡ one i r + total i s
unfolding total tally
total-answer i r result s = omega arith

detach-total : (i : ℕ) (w : Worker) (s : State) → total i (detach w s) ≡ total i s
unfolding total detach
detach-total i w s = omega (
  arith,
  tally-keep call_of i (is_on w.id) s.spawning,
  tally-keep call_of i (is_on w.id) s.pending,
  tally-append answered_call i
      (answered (λ (p : Pending). p.request) terminated (keep (is_on w.id) s.pending))
      (answered (λ (p : Pending). p.request) not_ready (keep (is_on w.id) s.spawning) ++ s.answers),
  tally-append answered_call i
      (answered (λ (p : Pending). p.request) not_ready (keep (is_on w.id) s.spawning)) s.answers,
  tally-answered (λ (p : Pending). p.request) terminated i (keep (is_on w.id) s.pending),
  tally-answered (λ (p : Pending). p.request) not_ready i (keep (is_on w.id) s.spawning),
)

close_subnode-total : (i n : ℕ) (s : State) → total i (close_subnode n s) ≡ total i s
unfolding total close_subnode
close_subnode-total i n s = omega (
  arith,
  tally-keep queued_call i (is_queued n) s.queue,
  tally-append answered_call i
      (answered (λ (q : QueuedRequest). q.request) stranded (keep (is_queued n) s.queue)) s.answers,
  tally-answered (λ (q : QueuedRequest). q.request) stranded i (keep (is_queued n) s.queue),
)

-- What the removal of workers leaves counts as before.
Same : ℕ → State → State → Type 0
Same i s t = total i t ≡ total i s

remove-Same : (i : ℕ) (s : State) → Kept (Same i s)
unfolding Same
remove-Same i s =
    Kept-remove_worker (Same i s) (λ t w e r k h. detach-total i w t ∙ h)
      λ t w e r k h. close_subnode-total i w.subnode (detach w t) ∙ (detach-total i w t ∙ h)

pub remove_worker-total : (i id : ℕ) (s : State) → total i (remove_worker id s) ≡ total i s
unfolding Same
remove_worker-total i id s = remove-Same i s s id refl

pub remove_all-total :
    (i : ℕ) (ws : List Worker) (s : State) → total i (remove_all ws s) ≡ total i s
unfolding Same
remove_all-total i ws s = Kept-remove_all (Same i s) (remove-Same i s) ws s refl

pub evict-total :
    (i : ℕ) (username : Text) (s : State) → total i (evict_subnode_workers username s) ≡ total i s
unfolding Same
evict-total i username s = Kept-evict (Same i s) (remove-Same i s) username s refl

pub reset_idle_timer-total :
    (i : ℕ) (w : Worker) (s : State) → total i (reset_idle_timer w s) ≡ total i s
unfolding reset_idle_timer total
reset_idle_timer-total i w s = refl

-- Entries that move from one list to another.
pub replace-tally :
    (i : ℕ) (here : Pending → Bool) (replaced pending : List Pending)
    → tally call_of i (keep (λ p. not (here p)) pending)
        + tally call_of i (replaced ++ keep here pending)
      ≡ tally call_of i pending + tally call_of i replaced
replace-tally i here replaced pending =
    omega (
      arith,
      tally-append call_of i replaced (keep here pending),
      tally-keep call_of i here pending,
    )

pub send_request-total :
    (i : ℕ) (accepted : Bool) (w : Worker) (r : Request) (s : State)
    → total i (send_request accepted w r s) ≡ one i r + total i s
unfolding send_request total tally
send_request-total i true w r s = omega (
  arith,
  replace-tally i (is_for w.id r.request_id) s.replaced s.pending,
  tally-append call_of i (keep (λ p. not (is_for w.id r.request_id p)) s.pending)
      (record { worker = w.id; subnode = w.subnode; request = r } ∷ []),
)
send_request-total i false w r s =
    omega (arith, replace-tally i (is_for w.id r.request_id) s.replaced s.pending)

pub checking-total :
    (i : ℕ) (r : Request) (s : State)
    → Memᴰ r s.checking
    → total i (record s { checking = remove_first (is_same r) s.checking }) + one i r ≡ total i s
unfolding total is_same
checking-total i r s m = omega (arith, tally-remove_first call i s.checking m)

pub waiting-total :
    (i : ℕ) (r : Waiting) (s : State)
    → Memᴰ r s.waiting
    → total i (record s { waiting = remove_first (λ q. is_same r.request q.request) s.waiting })
        + one i r.request
      ≡ total i s
unfolding total is_same
waiting-total i r s m = omega (arith, tally-remove_first waiting_call i s.waiting m)

pub spawning-total :
    (i : ℕ) (r : Pending) (s : State)
    → Memᴰ r s.spawning
    → total i (record s { spawning = remove_first (λ q. is_same r.request q.request) s.spawning })
        + one i r.request
      ≡ total i s
unfolding total is_same
spawning-total i r s m = omega (arith, tally-remove_first call_of i s.spawning m)

pub queue-total :
    (i : ℕ) (r : QueuedRequest) (s : State)
    → Memᴰ r s.queue
    → total i (record s { queue = remove_first (λ q. is_same r.request q.request) s.queue })
        + one i r.request
      ≡ total i s
unfolding total is_same
queue-total i r s m = omega (arith, tally-remove_first queued_call i s.queue m)

pub rechecking-total :
    (i : ℕ) (r : Pending) (s : State)
    → Memᴰ r s.rechecking
    → total i
          (record s { rechecking = remove_first (λ q. is_same r.request q.request) s.rechecking })
        + one i r.request
      ≡ total i s
unfolding total is_same
rechecking-total i r s m = omega (arith, tally-remove_first call_of i s.rechecking m)

pub pending-total :
    (i : ℕ) (r : Pending) (s : State)
    → Memᴰ r s.pending
    → total i (record s { pending = remove_first (λ q. is_same r.request q.request) s.pending })
        + one i r.request
      ≡ total i s
unfolding total is_same
pending-total i r s m = omega (arith, tally-remove_first call_of i s.pending m)

pub replaced-total :
    (i : ℕ) (r : Pending) (s : State)
    → Memᴰ r s.replaced
    → total i (record s { replaced = remove_first (λ q. is_same r.request q.request) s.replaced })
        + one i r.request
      ≡ total i s
unfolding total is_same
replaced-total i r s m = omega (arith, tally-remove_first call_of i s.replaced m)

pub moved-total :
    (i : ℕ) (here : Pending → Bool) (s : State)
    → total i (record s {
      pending = keep (λ q. not (here q)) s.pending;
      replaced = s.replaced ++ keep here s.pending;
    })
      ≡ total i s
unfolding total
moved-total i here s = omega (arith, replace-tally i here s.replaced s.pending)
