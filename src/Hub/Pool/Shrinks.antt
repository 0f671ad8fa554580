-- ===== src/Hub/Pool/Shrinks.antt =====
-- packages/hub/src/subnode.ts: what the removal of workers leaves alone.
use constellation_mcp.Prelude.{
  ◌≡◌, ◌≢◌, refl, sym, ap, ◌∙◌, subst, inl, inr, ℕ, true, not, List, [], ◌∷◌, Memᴰ, arith,
  Bool-cases, if-case, any, keep, keep-mem, ◌==◌,
}
use constellation_mcp.Prelude.Text.{Text}
use constellation_mcp.Prelude.Members.{mem-map}
use constellation_mcp.Hub.Pool.{Pending, QueuedRequest, Worker, State}
use constellation_mcp.Hub.Pool.Workers.{
  is_on, is_busy, is_queued, unpool, update_worker, close_subnode, detach, remove_worker,
  remove_all, evict_subnode_workers,
}
use constellation_mcp.Hub.Pool.Removal.{Kept, Kept-remove_worker, Kept-remove_all, Kept-evict}
use constellation_mcp.Hub.Pool.Tidy.{IsTidy, update-IsTidy}

-- `t` is `s` with workers removed.
pub record Shrinks (s t : State) : Type 0 where
  pub same_checking : t.checking ≡ s.checking
  pub same_waiting : t.waiting ≡ s.waiting
  pub same_rechecking : t.rechecking ≡ s.rechecking
  pub same_sent : t.sent ≡ s.sent
  pub same_next : t.next ≡ s.next
  pub of_spawning : (p : Pending) → Memᴰ p t.spawning → Memᴰ p s.spawning
  pub of_queue : (q : QueuedRequest) → Memᴰ q t.queue → Memᴰ q s.queue
  pub of_workers :
      (w : Worker)
      → Memᴰ w t.workers
      → (u : Worker) × Memᴰ u s.workers × (w.id ≡ u.id) × (w.uid ≡ u.uid) × (w.gid ≡ u.gid)
  pub of_pooled :
      (w : Worker)
      → Memᴰ w t.workers
      → w.pooled ≡ true
      → Memᴰ w s.workers × (is_busy t w ≡ is_busy s w)

Shrinks-refl : (s : State) → Shrinks s s
Shrinks-refl s = record {
  same_checking = refl;
  same_waiting = refl;
  same_rechecking = refl;
  same_sent = refl;
  same_next = refl;
  of_spawning = λ p m. m;
  of_queue = λ q m. m;
  of_workers = λ w m. (w, m, refl, refl, refl);
  of_pooled = λ w m e. (m, refl);
}

Shrinks-trans : {s t u : State} → Shrinks s t → Shrinks t u → Shrinks s u
Shrinks-trans a b = record {
  same_checking = b.same_checking ∙ a.same_checking;
  same_waiting = b.same_waiting ∙ a.same_waiting;
  same_rechecking = b.same_rechecking ∙ a.same_rechecking;
  same_sent = b.same_sent ∙ a.same_sent;
  same_next = b.same_next ∙ a.same_next;
  of_spawning = λ p m. a.of_spawning p (b.of_spawning p m);
  of_queue = λ q m. a.of_queue q (b.of_queue q m);
  of_workers = λ w m.
      let (v, n, i, x, y) = b.of_workers w m in
      let (u, k, j, z, t) = a.of_workers v n in (u, k, i ∙ j, x ∙ z, y ∙ t);
  of_pooled =
      λ w m e. let (n, f) = b.of_pooled w m e in let (k, g) = a.of_pooled w n e in (k, f ∙ g);
}

any-on :
    (i j : ℕ) (ps : List Pending)
    → i ≢ j
    → any (is_on i) (keep (λ p. not (is_on j p)) ps) ≡ any (is_on i) ps
unfolding is_on
any-on i j [] far = refl
any-on i j (p ∷ ps) far = ground (arith, any-on i j ps far, far)

detach-Shrinks : (w : Worker) (s : State) → Shrinks s (detach w s)
unfolding detach update_worker unpool is_busy
detach-Shrinks w s = record {
  same_checking = refl;
  same_waiting = refl;
  same_rechecking = refl;
  same_sent = refl;
  same_next = refl;
  of_spawning = λ p m. (keep-mem (λ q. not (is_on w.id q)) s.spawning m).0;
  of_queue = λ q m. m;
  of_workers = λ v m.
      let (u, n, e) = mem-map _ s.workers m in
      subst
        (λ (x : Worker).
          (y : Worker) × Memᴰ y s.workers × (x.id ≡ y.id) × (x.uid ≡ y.uid) × (x.gid ≡ y.gid))
        (sym e)
        (if-case
          (λ (x : Worker).
            (y : Worker) × Memᴰ y s.workers × (x.id ≡ y.id) × (x.uid ≡ y.uid) × (x.gid ≡ y.gid))
          (u.id == w.id) _ u (λ h. (u, n, refl, refl, refl)) λ h. (u, n, refl, refl, refl));
  of_pooled = λ v m e.
      let (u, n, f) = mem-map _ s.workers m in
      elim (Bool-cases (u.id == w.id)) [
        | inl h ↦ cc (e, rw h at f)
        | inr h ↦
            let same : v ≡ u = rw h at f in
            let far : v.id ≢ w.id = λ k. ground (arith, ap (λ (x : Worker). x.id) same) in
            (rw same n, any-on v.id w.id s.pending far)
      ];
}

close-Shrinks : (n : ℕ) (s : State) → Shrinks s (close_subnode n s)
unfolding close_subnode is_busy
close-Shrinks n s = record {
  same_checking = refl;
  same_waiting = refl;
  same_rechecking = refl;
  same_sent = refl;
  same_next = refl;
  of_spawning = λ p m. m;
  of_queue = λ q m. (keep-mem (λ p. not (is_queued n p)) s.queue m).0;
  of_workers = λ w m. (w, m, refl, refl, refl);
  of_pooled = λ w m e. (m, refl);
}

Kept-Shrinks : (s : State) → Kept (Shrinks s)
Kept-Shrinks s =
    Kept-remove_worker (Shrinks s) (λ t w e r k h. Shrinks-trans h (detach-Shrinks w t))
      λ t w e r k h.
        Shrinks-trans h (Shrinks-trans (detach-Shrinks w t) (close-Shrinks w.subnode (detach w t)))

pub remove_worker-Shrinks : (id : ℕ) (s : State) → Shrinks s (remove_worker id s)
remove_worker-Shrinks id s = Kept-Shrinks s s id (Shrinks-refl s)

pub remove_all-Shrinks : (ws : List Worker) (s : State) → Shrinks s (remove_all ws s)
remove_all-Shrinks ws s = Kept-remove_all (Shrinks s) (Kept-Shrinks s) ws s (Shrinks-refl s)

pub evict-Shrinks : (username : Text) (s : State) → Shrinks s (evict_subnode_workers username s)
evict-Shrinks username s = Kept-evict (Shrinks s) (Kept-Shrinks s) username s (Shrinks-refl s)

abbrev pub Tidy : State → Type 0
Tidy s = IsTidy s.next s.workers

pub detach-Tidy : (w : Worker) (s : State) → Tidy s → Tidy (detach w s)
unfolding detach unpool
detach-Tidy w s v = update-IsTidy _ w.id s.next s.workers (λ x. refl) (λ x m e r. refl) v

pub close-Tidy : (n : ℕ) (s : State) → Tidy s → Tidy (close_subnode n s)
unfolding close_subnode
close-Tidy n s v = v

pub Kept-Tidy : Kept Tidy
Kept-Tidy =
    Kept-remove_worker Tidy (λ t w e r k h. detach-Tidy w t h)
      λ t w e r k h. close-Tidy w.subnode (detach w t) (detach-Tidy w t h)
