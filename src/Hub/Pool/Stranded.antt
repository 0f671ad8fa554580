-- ===== src/Hub/Pool/Stranded.antt =====
-- packages/hub/src/subnode.ts: a request waits in the queue only while its subnode has a worker.
pub mod Assigned
pub mod Completed
pub mod Never
use constellation_mcp.Prelude.{
  ◌≡◌, ◌≢◌, refl, sym, ap, ◌∙◌, subst, ◌⊎◌, inl, inr, ℕ, zero, suc, ◌+◌, ◌<◌, Bool, true, false,
  not, ◌&&◌, ◌||◌, List, [], ◌∷◌, ◌++◌, Memᴰ, Option, none, some, arith, Bool-cases, if◌then◌else◌,
  if-case, any, find, keep, keep-mem, remove_first, length, ltb, ◌==◌, ==_iff, map,
}
use constellation_mcp.Prelude.Text.{Text}
use constellation_mcp.Prelude.Table.{get}
use constellation_mcp.Prelude.Strings.{Integer}
use constellation_mcp.Prelude.Members.{
  mem-append, mem-append_left, mem-of_map, mem-remove_first, every-append,
}
use constellation_mcp.Prelude.Tally.{find-Mem}
use constellation_mcp.Shared.Json.{Value}
use constellation_mcp.Hub.Rpc.{DispatchResult}
use constellation_mcp.Hub.Pool.{
  Config, UidRestriction, Request, Worker, Pending, QueuedRequest, Waiting, State, Tier, new_pool,
  answer, uid_blocked, is_same,
}
use constellation_mcp.Hub.Pool.Workers.{
  is_of, workers_of, is_queued, unpool, update_worker, close_subnode, detach, find_worker,
  remove_worker, remove_all, evict_subnode_workers, reset_idle_timer, send_request,
}
use constellation_mcp.Hub.Pool.Removal.{Kept, Kept-remove_worker, Kept-remove_all, Kept-evict}
use constellation_mcp.Hub.Pool.Tidy.{IsTidy}
use constellation_mcp.Hub.Pool.Shrinks.{Tidy, Kept-Tidy, detach-Tidy, close-Tidy}
use constellation_mcp.Hub.Pool.Credentials.Begun.{is_found}

abbrev pub HasWorker : ℕ → List Worker → Type 0
HasWorker n ws = (w : Worker) × Memᴰ w ws × (is_of n w ≡ true)

-- Each queued request's subnode has a worker.
abbrev pub IsServed : State → Type 0
IsServed s = (q : QueuedRequest) → Memᴰ q s.queue → HasWorker q.subnode s.workers

pub HasWorker-any : (n : ℕ) (ws : List Worker) → any (is_of n) ws ≡ true → HasWorker n ws
HasWorker-any n [] e = cc e
HasWorker-any n (w ∷ ws) e = elim (Bool-cases (is_of n w)) [
  | inl h ↦ (w, Memᴰ.head refl, h)
  | inr h ↦ let (v, m, k) = HasWorker-any n ws (rw h at e) in (v, Memᴰ.tail m, k)
]

-- A change of one worker that leaves it in its subnode.
pub update-HasWorker :
    (f : Worker → Worker) (id n : ℕ) (ws : List Worker)
    → ((w : Worker) → Memᴰ w ws → w.id ≡ id → is_of n w ≡ true → is_of n (f w) ≡ true)
    → HasWorker n ws
    → HasWorker n (update_worker f id ws)
unfolding update_worker
update-HasWorker f id n ws h (w, m, e) = (
  (if w.id == id then f w else w),
  mem-of_map (λ (v : Worker). if v.id == id then f v else v) ws m,
  if-case (λ x. is_of n x ≡ true) (w.id == id) (f w) w (λ k. h w m ((==_iff w.id id).0 k) e) λ k. e,
)

append-HasWorker : (n : ℕ) (ws vs : List Worker) → HasWorker n ws → HasWorker n (ws ++ vs)
append-HasWorker n ws vs (w, m, e) = (w, mem-append_left ws vs m, e)

detach-HasWorker :
    (w : Worker) (s : State) (n : ℕ)
    → find_worker s w.id ≡ some w
    → Tidy s
    → n ≢ w.subnode
    → HasWorker n s.workers
    → HasWorker n (detach w s).workers
unfolding detach is_of
detach-HasWorker w s n e tidy far has =
    update-HasWorker unpool w.id n s.workers
      (λ u m k h.
        let same : u ≡ w = is_found s u w tidy m k e in
        absurd (far (ground (arith, ap (λ (x : Worker). x.subnode) same))))
      has

abbrev Both : State → Type 0
Both s = Tidy s × IsServed s

left-Served :
    (s : State) (w : Worker)
    → find_worker s w.id ≡ some w
    → any (is_of w.subnode) (detach w s).workers ≡ true
    → Both s
    → IsServed (detach w s)
unfolding detach
left-Served s w e k (tidy, v) q m = elim (Bool-cases (q.subnode == w.subnode)) [
  | inl h ↦
      let same : q.subnode ≡ w.subnode = (==_iff q.subnode w.subnode).0 h in
      HasWorker-any q.subnode (detach w s).workers
        (subst (λ n. any (is_of n) (detach w s).workers ≡ true) (sym same) k)
  | inr h ↦ detach-HasWorker w s q.subnode e tidy (λ n. ground arith) (v q m)
]

last-Served :
    (s : State) (w : Worker)
    → find_worker s w.id ≡ some w
    → Both s
    → IsServed (close_subnode w.subnode (detach w s))
unfolding close_subnode detach is_queued
last-Served s w e (tidy, v) q m =
    let (n, h) = keep-mem (λ p. not (is_queued w.subnode p)) s.queue m in
    detach-HasWorker w s q.subnode e tidy (λ k. ground arith) (v q n)

pub Kept-Both : Kept Both
Kept-Both =
    Kept-remove_worker Both (λ t w e r k h. (detach-Tidy w t h.0, left-Served t w e k h))
      λ t w e r k h. (close-Tidy w.subnode (detach w t) (detach-Tidy w t h.0), last-Served t w e h)
