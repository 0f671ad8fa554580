-- ===== src/Hub/Pool/Stale.antt =====
-- packages/hub/src/subnode.ts: after the workers with other credentials were removed, an idle one has
-- those of the request.
use constellation_mcp.Prelude.{
  ◌≡◌, ◌≢◌, refl, sym, ap, ◌∙◌, subst, inl, inr, ℕ, true, false, List, [], ◌∷◌, Memᴰ, some, arith,
  Bool-cases, if-case, any, find, keep, keep-mem, mem-keep, ◌==◌,
}
use constellation_mcp.Prelude.Members.{mem-map}
use constellation_mcp.Prelude.Tally.{find-Mem, find-holds}
use constellation_mcp.Hub.Pool.{Request, Worker, worker_runs_as, State}
use constellation_mcp.Hub.Pool.Workers.{
  is_of, workers_of, is_busy, unpool, update_worker, close_subnode, detach, find_worker,
  remove_found, remove_worker, remove_all,
}
use constellation_mcp.Hub.Pool.Calls.{is_stale, is_free, drop_stale}
use constellation_mcp.Hub.Pool.Shrinks.{remove_worker-Shrinks, remove_all-Shrinks, Tidy, Kept-Tidy}

removed_workers :
    (w : Worker) (s : State)
    → w.removed ≡ false
    → (remove_found (some w) s).workers ≡ update_worker unpool w.id s.workers
unfolding remove_found close_subnode detach
removed_workers w s r =
    if-case (λ (t : State). t.workers ≡ update_worker unpool w.id s.workers) w.removed s _
      (λ e. cc (e, r))
      λ e.
        if-case (λ (t : State). t.workers ≡ update_worker unpool w.id s.workers)
          (any (is_of w.subnode) (detach w s).workers) _ _ (λ k. refl) λ k. refl

-- A worker that was told to go is in no subnode.
remove_worker-gone :
    (id : ℕ) (s : State) (v : Worker)
    → Tidy s
    → Memᴰ v (remove_worker id s).workers
    → v.pooled ≡ true
    → v.id ≢ id
unfolding remove_worker find_worker update_worker unpool
remove_worker-gone id s v tidy m e same =
    let (n, k) = (remove_worker-Shrinks id s).of_pooled v m e in
    let finds : find_worker s id ≡ some v =
      subst (λ i. find_worker s i ≡ some v) same (tidy.distinct v n) in
    let here : v.removed ≡ false = elim (Bool-cases v.removed) [
      | inl r ↦ cc (tidy.apart v n r, e)
      | inr r ↦ r
    ] in
    let all : (remove_worker id s).workers ≡ update_worker unpool v.id s.workers =
      ap (λ o. (remove_found o s).workers) finds ∙ removed_workers v s here in
    let (u, j, f) = mem-map _ s.workers (subst (λ ws. Memᴰ v ws) all m) in
    elim (Bool-cases (u.id == v.id)) [
      | inl h ↦ cc (e, rw h at f)
      | inr h ↦ let kept : v ≡ u = rw h at f in ground (arith, ap (λ (x : Worker). x.id) kept)
    ]

remove_all-gone :
    (ws : List Worker) (s : State) (v w : Worker)
    → Tidy s
    → Memᴰ v (remove_all ws s).workers
    → v.pooled ≡ true
    → Memᴰ w ws
    → v.id ≢ w.id
unfolding remove_all
remove_all-gone [] s v w tidy m e n = elim n [ ]
remove_all-gone (x ∷ ws) s v w tidy m e (Memᴰ.head f) =
    let (k, h) = (remove_all-Shrinks ws (remove_worker x.id s)).of_pooled v m e in
    subst (λ (y : Worker). v.id ≢ y.id) (sym f) (remove_worker-gone x.id s v tidy k e)
remove_all-gone (x ∷ ws) s v w tidy m e (Memᴰ.tail n) =
    remove_all-gone ws (remove_worker x.id s) v w (Kept-Tidy s x.id tidy) m e n

-- What is left of the workers, once the stale ones were removed.
abbrev left : ℕ → Request → State → State
left n r s = remove_all (keep (is_stale s r.identity) (workers_of s n)) s

left-Runs :
    (n : ℕ) (r : Request) (s : State) (w : Worker)
    → Tidy s
    → Memᴰ w (left n r s).workers
    → w.pooled ≡ true
    → (w.subnode == n) ≡ true
    → is_busy (left n r s) w ≡ false
    → worker_runs_as w r.identity ≡ true
unfolding is_stale is_of
left-Runs n r s w tidy m e here free = elim (Bool-cases (worker_runs_as w r.identity)) [
  | inl h ↦ h
  | inr h ↦
      let stale : List Worker = keep (is_stale s r.identity) (workers_of s n) in
      let (k, busy) = (remove_all-Shrinks stale s).of_pooled w m e in
      let idle : is_busy s w ≡ false = sym busy ∙ free in
      let there : Memᴰ w (workers_of s n) = mem-keep (is_of n) s.workers k (ground arith) in
      let among : Memᴰ w stale =
        mem-keep (is_stale s r.identity) (workers_of s n) there (ground arith) in
      absurd (remove_all-gone stale s w w tidy m e among refl)
]

pub free-drop_stale :
    (n : ℕ) (r : Request) (s : State) (w : Worker)
    → Tidy s
    → find (is_free (drop_stale n r s)) (workers_of (drop_stale n r s) n) ≡ some w
    → worker_runs_as w r.identity ≡ true
unfolding drop_stale is_free is_of is_busy
free-drop_stale n r s w tidy e =
    let (m, h) =
      keep-mem (is_of n) (left n r s).workers (find-Mem _ (workers_of (left n r s) n) e) in
    let free = find-holds (is_free (drop_stale n r s)) (workers_of (left n r s) n) e in
    left-Runs n r s w tidy m (ground arith) (ground arith) (ground arith)
