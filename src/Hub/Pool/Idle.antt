-- ===== src/Hub/Pool/Idle.antt =====
-- packages/hub/src/subnode.ts: `sendRequest` leaves the idle timer of the worker running.
use constellation_mcp.Prelude.{
  ◌≡◌, refl, sym, ap, subst, inl, inr, ℕ, true, false, List, Memᴰ, some, arith, Bool-cases, if-case,
  any, find, remove_first, keep-mem, mem-keep, length, ◌==◌, ==_iff,
}
use constellation_mcp.Prelude.Members.{mem-append_left, mem-append_right, mem-last, mem-of_map}
use constellation_mcp.Prelude.Tally.{find-Mem}
use constellation_mcp.Hub.Pool.{Config, Request, Worker, Pending, Waiting, State, is_same}
use constellation_mcp.Hub.Pool.Workers.{
  is_of, workers_of, is_on, answered, terminated, close_subnode, detach, find_worker, remove_found,
  remove_worker, send_request,
}
use constellation_mcp.Hub.Pool.Calls.{is_free, drop_stale, assign, assign_to, run_locked}
use constellation_mcp.Hub.Pool.Steps.{Reach, locks, idles}
use constellation_mcp.Hub.Pool.Credentials.{IsSafe}
use constellation_mcp.Hub.Pool.Credentials.Begun.{drop_stale-IsSafe, begun-IsSafe}
use constellation_mcp.Hub.Pool.Credentials.Sent.{Reach-IsSafe}

detach-rejects :
    (w : Worker) (s : State) (p : Pending)
    → Memᴰ p s.pending
    → p.worker ≡ w.id
    → Memᴰ (p.request, terminated) (detach w s).answers
unfolding detach answered is_on
detach-rejects w s p m e = mem-append_left _ _ (
    mem-of_map (λ (x : Pending). (x.request, terminated)) _
      (mem-keep (is_on w.id) s.pending m ((==_iff p.worker w.id).1 e)))

-- A worker's removal rejects what is pending at it.
pub remove_worker-rejects :
    (w : Worker) (s : State) (p : Pending)
    → find_worker s w.id ≡ some w
    → w.removed ≡ false
    → Memᴰ p s.pending
    → p.worker ≡ w.id
    → Memᴰ (p.request, terminated) (remove_worker w.id s).answers
unfolding remove_worker remove_found close_subnode
remove_worker-rejects w s p e here m on =
    let rejected : Memᴰ (p.request, terminated) (detach w s).answers = detach-rejects w s p m on in
    subst (λ o. Memᴰ (p.request, terminated) (remove_found o s).answers) (sym e)
      (if-case (λ (t : State). Memᴰ (p.request, terminated) t.answers) w.removed s _
        (λ r. cc (r, here))
        λ r.
          if-case (λ (t : State). Memᴰ (p.request, terminated) t.answers)
            (any (is_of w.subnode) (detach w s).workers) _ _ (λ k. rejected)
            λ k. mem-append_right _ _ rejected)

-- The state in which a call that holds the lock chooses a worker.
abbrev pub choosing : Waiting → State → State
choosing v s =
    drop_stale v.subnode v.request
      (record s { waiting = remove_first (λ u. is_same v.request u.request) s.waiting })

abbrev pub pending_at : Worker → Request → Pending
pending_at w r = record { worker = w.id; subnode = w.subnode; request = r }

run_locked-sends :
    (cfg : Config) (now : ℕ) (v : Waiting) (w : Worker) (s : State)
    → find (is_free (choosing v s)) (workers_of (choosing v s) v.subnode) ≡ some w
    → run_locked cfg now true true v s ≡ send_request true w v.request (choosing v s)
unfolding run_locked assign_to assign
run_locked-sends cfg now v w s e =
    ap
      (λ o.
        assign cfg now true true v.subnode v.request (length (workers_of (choosing v s) v.subnode))
          o (choosing v s))
      e

-- If a call gets an idle worker whose idle timer runs, then that timer still runs when the request was
-- sent to the worker, and if it fires next, the call returns that the worker was terminated.
pub idle_timer-rejects :
    {cfg : Config} {cs : List Request} {s : State} (now : ℕ) (v : Waiting) (w : Worker)
    → Reach cfg cs s
    → find (λ (u : Waiting). u.subnode == v.subnode) s.waiting ≡ some v
    → any (λ (p : Pending). p.subnode == v.subnode) s.spawning ≡ false
    → find (is_free (choosing v s)) (workers_of (choosing v s) v.subnode) ≡ some w
    → w.idle_timer ≡ true
    → let given = run_locked cfg now true true v s in
      Reach cfg cs given
      × Memᴰ (pending_at w v.request) given.pending
      × (find_worker given w.id ≡ some w)
      × Reach cfg cs (remove_worker w.id given)
      × Memᴰ (v.request, terminated) (remove_worker w.id given).answers
unfolding send_request find_worker is_of
idle_timer-rejects {cfg} {cs} {s} now v w k first alone e runs =
    let chosen : State = choosing v s in
    let safe : IsSafe cfg chosen =
      drop_stale-IsSafe cfg v.subnode v.request _ (begun-IsSafe cfg v s (Reach-IsSafe k)) in
    let (m, of) =
      keep-mem (is_of v.subnode) chosen.workers (find-Mem _ (workers_of chosen v.subnode) e) in
    let finds : find_worker chosen w.id ≡ some w = safe.tidy.distinct w m in
    let pooled : w.pooled ≡ true = ground arith in
    let here : w.removed ≡ false = elim (Bool-cases w.removed) [
      | inl r ↦ cc (safe.tidy.apart w m r, pooled)
      | inr r ↦ r
    ] in
    let sent : run_locked cfg now true true v s ≡ send_request true w v.request chosen =
      run_locked-sends cfg now v w s e in
    let given : State = send_request true w v.request chosen in
    let reached : Reach cfg cs given =
      subst (Reach cfg cs) sent (locks now true true v k first alone) in
    let waits : Memᴰ (pending_at w v.request) given.pending = mem-last _ _ in
    subst
      (λ (t : State).
        Reach cfg cs t
        × Memᴰ (pending_at w v.request) t.pending
        × (find_worker t w.id ≡ some w)
        × Reach cfg cs (remove_worker w.id t)
        × Memᴰ (v.request, terminated) (remove_worker w.id t).answers)
      (sym sent)
      (
        reached,
        waits,
        finds,
        idles w reached finds runs,
        remove_worker-rejects w given (pending_at w v.request) finds here waits refl,
      )
