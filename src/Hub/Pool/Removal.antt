-- ===== src/Hub/Pool/Removal.antt =====
-- packages/hub/src/subnode.ts: to show a predicate of what `removeWorker` leaves.
use constellation_mcp.Prelude.{
  ◌≡◌, refl, sym, ap, ◌∙◌, inl, inr, find, if-case, ◌==◌, ==_iff, ℕ, true, false, List, [], ◌∷◌,
  Option, none, some, Bool-cases, any,
}
use mathlib.Core.Option.{some-injective}
use constellation_mcp.Prelude.Text.{Text}
use constellation_mcp.Prelude.Table.{get}
use constellation_mcp.Hub.Pool.{Worker, State}
use constellation_mcp.Hub.Pool.Workers.{
  is_of, close_subnode, detach, find_worker, remove_found, remove_worker, remove_workers_of,
  remove_all, evict_subnode_workers, workers_of,
}

find-has_id :
    (id : ℕ) (ws : List Worker) (w : Worker)
    → find (λ (v : Worker). v.id == id) ws ≡ some w
    → w.id ≡ id
find-has_id id [] w h = cc h
find-has_id id (v ∷ ws) w h = elim (Bool-cases (v.id == id)) [
  | inl hit ↦
      ap (λ (x : Worker). x.id) (sym (some-injective v w (rw hit at h))) ∙ (==_iff v.id id).0 hit
  | inr miss ↦ find-has_id id ws w (rw miss at h)
]

pub find_worker-has_id : (s : State) (id : ℕ) (w : Worker) → find_worker s id ≡ some w → w.id ≡ id
unfolding find_worker
find_worker-has_id s id w e = find-has_id id s.workers w e

pub find_worker-id :
    (s : State) (id : ℕ) (w : Worker) → find_worker s id ≡ some w → find_worker s w.id ≡ some w
find_worker-id s id w e = ap (find_worker s) (find_worker-has_id s id w e) ∙ e

-- A predicate that the removal of one worker keeps.
abbrev pub Kept {ℓ} : (State → Type ℓ) → Type ℓ
Kept P = (s : State) (id : ℕ) → P s → P (remove_worker id s)

pub Kept-remove_worker {ℓ} :
    (P : State → Type ℓ)
    → ((s : State) (w : Worker)
        → find_worker s w.id ≡ some w
        → w.removed ≡ false
        → any (is_of w.subnode) (detach w s).workers ≡ true
        → P s
        → P (detach w s))
    → ((s : State) (w : Worker)
        → find_worker s w.id ≡ some w
        → w.removed ≡ false
        → any (is_of w.subnode) (detach w s).workers ≡ false
        → P s
        → P (close_subnode w.subnode (detach w s)))
    → Kept P
unfolding remove_worker
Kept-remove_worker P left last s id p = go (find_worker s id) refl
  where
    go : (o : Option Worker) → find_worker s id ≡ o → P (remove_found o s)
    go none e = p
    go (some w) e =
        let self = find_worker-id s id w e in
        if-case P w.removed s _ (λ r. p)
          λ r.
            if-case P (any (is_of w.subnode) (detach w s).workers) _ _ (λ k. left s w self r k p)
              λ k. last s w self r k p

pub Kept-remove_all {ℓ} :
    (P : State → Type ℓ) → Kept P → (ws : List Worker) (s : State) → P s → P (remove_all ws s)
unfolding remove_all
Kept-remove_all P keeps [] s p = p
Kept-remove_all P keeps (w ∷ ws) s p =
    Kept-remove_all P keeps ws (remove_worker w.id s) (keeps s w.id p)

pub Kept-evict {ℓ} :
    (P : State → Type ℓ)
    → Kept P
    → (username : Text) (s : State) → P s
    → P (evict_subnode_workers username s)
unfolding evict_subnode_workers
Kept-evict P keeps username s p = go (get s.subnodes username)
  where
    go : (o : Option ℕ) → P (remove_workers_of o s)
    go none = p
    go (some n) = Kept-remove_all P keeps (workers_of s n) s p
