-- ===== src/Hub/Pool/Tidy.antt =====
-- packages/hub/src/subnode.ts: the workers have distinct numbers, and a removed one is in no subnode.
use constellation_mcp.Prelude.{
  ◌≡◌, refl, sym, ap, ◌∙◌, subst, inl, inr, ℕ, ◌+◌, ◌<◌, Bool, true, false, List, [], ◌∷◌, ◌++◌,
  Memᴰ, some, arith, Bool-cases, if◌then◌else◌, find, if-case, ◌==◌, ==_iff, map,
}
use mathlib.Core.Option.{some-injective}
use constellation_mcp.Prelude.Members.{mem-append, mem-map}
use constellation_mcp.Hub.Pool.{Worker}
use constellation_mcp.Hub.Pool.Workers.{update_worker}

abbrev has_id : ℕ → Worker → Bool
has_id id w = w.id == id

-- Each worker is the one that its number finds, and the next number is new.
pub record IsTidy (next : ℕ) (ws : List Worker) : Type 0 where
  pub distinct : (w : Worker) → Memᴰ w ws → find (has_id w.id) ws ≡ some w
  pub below : (w : Worker) → Memᴰ w ws → w.id < next
  pub apart : (w : Worker) → Memᴰ w ws → w.removed ≡ true → w.pooled ≡ false

find-map :
    (g : Worker → Worker) (k : ℕ) (ws : List Worker)
    → ((w : Worker) → (g w).id ≡ w.id)
    → (w : Worker) → find (has_id k) ws ≡ some w
    → find (has_id k) (map g ws) ≡ some (g w)
find-map g k [] same w e = cc e
find-map g k (v ∷ ws) same w e =
    let moved : has_id k (g v) ≡ has_id k v = ap (λ n. n == k) (same v) in
    elim (Bool-cases (has_id k v)) [
      | inl hit ↦
          let found_v : v ≡ w = some-injective v w (rw hit at e) in
          rw (moved ∙ hit) (ap (λ x. some (g x)) found_v)
      | inr miss ↦ rw (moved ∙ miss) (find-map g k ws same w (rw miss at e))
    ]

-- What `update_worker` does to each.
abbrev updated : (Worker → Worker) → ℕ → Worker → Worker
updated f id w = if w.id == id then f w else w

updated-id :
    (f : Worker → Worker) (id : ℕ)
    → ((w : Worker) → (f w).id ≡ w.id)
    → (w : Worker) → (updated f id w).id ≡ w.id
updated-id f id same w =
    if-case (λ (x : Worker). x.id ≡ w.id) (w.id == id) (f w) w (λ e. same w) λ e. refl

pub update-IsTidy :
    (f : Worker → Worker) (id next : ℕ) (ws : List Worker)
    → ((w : Worker) → (f w).id ≡ w.id)
    → ((w : Worker) → Memᴰ w ws → w.id ≡ id → (f w).removed ≡ true → (f w).pooled ≡ false)
    → IsTidy next ws
    → IsTidy next (update_worker f id ws)
unfolding update_worker
update-IsTidy f id next ws same ok v = record {
  distinct = λ w m.
      let (u, n, e) = mem-map (updated f id) ws m in
      subst (λ (x : Worker). find (has_id x.id) (map (updated f id) ws) ≡ some x) (sym e)
        (subst (λ k. find (has_id k) (map (updated f id) ws) ≡ some (updated f id u))
          (sym (updated-id f id same u))
          (find-map (updated f id) u.id ws (updated-id f id same) u (v.distinct u n)));
  below = λ w m.
      let (u, n, e) = mem-map (updated f id) ws m in
      omega (arith, v.below u n, ap (λ (x : Worker). x.id) e, updated-id f id same u);
  apart = λ w m.
      let (u, n, e) = mem-map (updated f id) ws m in
      subst (λ (x : Worker). x.removed ≡ true → x.pooled ≡ false) (sym e)
        (if-case (λ (x : Worker). x.removed ≡ true → x.pooled ≡ false) (u.id == id) (f u) u
          (λ h. ok u n ((==_iff u.id id).0 h)) λ h. v.apart u n);
}

find-append :
    (p : Worker → Bool) (ws vs : List Worker) (w : Worker)
    → find p ws ≡ some w
    → find p (ws ++ vs) ≡ some w
find-append p [] vs w e = cc e
find-append p (v ∷ ws) vs w e = ground (arith, find-append p ws vs w)

find-new :
    (next : ℕ) (ws : List Worker) (w : Worker)
    → ((v : Worker) → Memᴰ v ws → v.id < next)
    → w.id ≡ next
    → find (has_id next) (ws ++ w ∷ []) ≡ some w
find-new next [] w far e = rw ((==_iff w.id next).1 e) refl
find-new next (v ∷ ws) w far e =
    let miss : (v.id == next) ≡ false = ground (arith, far v (Memᴰ.head refl)) in
    rw miss (find-new next ws w (λ x m. far x (Memᴰ.tail m)) e)

pub new-IsTidy :
    (next : ℕ) (ws : List Worker) (w : Worker)
    → w.id ≡ next
    → w.removed ≡ false
    → IsTidy next ws
    → IsTidy (next + 1) (ws ++ w ∷ [])
new-IsTidy next ws w e here v = record {
  distinct = λ x m. elim (mem-append ws (w ∷ []) m) [
    | inl n ↦ find-append (has_id x.id) ws (w ∷ []) x (v.distinct x n)
    | inr (Memᴰ.head f) ↦
        subst (λ (y : Worker). find (has_id y.id) (ws ++ w ∷ []) ≡ some y) (sym f)
          (subst (λ k. find (has_id k) (ws ++ w ∷ []) ≡ some w) (sym e)
            (find-new next ws w v.below e))
    | inr (Memᴰ.tail n) ↦ elim n [ ]
  ];
  below = λ x m. elim (mem-append ws (w ∷ []) m) [
    | inl n ↦ let h = v.below x n in omega arith
    | inr (Memᴰ.head f) ↦ omega (arith, ap (λ (y : Worker). y.id) f)
    | inr (Memᴰ.tail n) ↦ elim n [ ]
  ];
  apart = λ x m r. elim (mem-append ws (w ∷ []) m) [
    | inl n ↦ v.apart x n r
    | inr (Memᴰ.head f) ↦ cc (r, here, ap (λ (y : Worker). y.removed) f)
    | inr (Memᴰ.tail n) ↦ elim n [ ]
  ];
}

pub later-IsTidy : (next : ℕ) (ws : List Worker) → IsTidy next ws → IsTidy (next + 1) ws
later-IsTidy next ws v = record {
  distinct = v.distinct;
  below = λ w m. let h = v.below w m in omega arith;
  apart = v.apart;
}
