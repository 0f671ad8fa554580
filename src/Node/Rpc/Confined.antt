-- ===== src/Node/Rpc/Confined.antt =====
-- packages/node/src/rpc.ts: the executor is given the path that the relay named, and no other.
use constellation_mcp.Prelude.{
  ◌≡◌, ◌≢◌, refl, sym, ap, ◌∙◌, inl, inr, false, List, [], ◌∷◌, Memᴰ, none, some, arith, Bool-cases,
  Option-cases, if◌then◌else◌, find, subst, All, All-mem,
}
use mathlib.Core.Option.{some-injective}
use constellation_mcp.Prelude.Text.{Text, eq_text, eq_text→eq, eq_text_refl, eq_text_iff}
use constellation_mcp.Prelude.Table.{put}
use constellation_mcp.Shared.Json.{arr, texts, own}
use constellation_mcp.Shared.Executor.Filters.{parse_path_filters, parse_path_filters_iff}
use constellation_mcp.Shared.Executor.Execute.{Registry, root_of}
use constellation_mcp.Node.Rpc.{
  PathEntry, Realpath, add_paths, ShareRegistryCache, build, RpcEnvelope, runs, handle_rpc,
}
use constellation_mcp.Node.Rpc.Fresh.{Call, Reach, build-Reach}

-- No two paths have the same share.
abbrev pub DistinctShares : List PathEntry → Type 0
DistinctShares [] = Unit
DistinctShares (p ∷ ps) = All (λ q. q.share ≢ p.share) ps × DistinctShares ps

own-put :
    (t : Registry) (key k v : Text)
    → own (put t key v) k ≡ (if eq_text key k then some v else own t k)
unfolding own put
own-put [] key k v = refl
own-put ((j, w) ∷ t) key k v =
    ground (arith, eq_text_iff j key, eq_text_iff key k, eq_text_iff j k, own-put t key k v)

add_paths_other :
    (realpath : Realpath) (ps : List PathEntry) (t : Registry) (share : Text)
    → All (λ q. q.share ≢ share) ps
    → own (add_paths realpath ps t) share ≡ own t share
unfolding add_paths
add_paths_other realpath [] t share h = refl
add_paths_other realpath (p ∷ ps) t share h = elim (Option-cases (realpath p.path)) [
  | inl f ↦ rw (add_paths, f) (add_paths_other realpath ps t share h.1)
  | inr (r, f) ↦
      let far : eq_text p.share share ≡ false = ground (arith, eq_text_iff p.share share, h.0) in
      rw (add_paths, f)
        (add_paths_other realpath ps (put t p.share r) share h.1
          ∙ (own-put t p.share share r ∙ rw (far) refl))
]

-- The first of the paths, which no later one replaces.
add_paths-head :
    (realpath : Realpath) (q : PathEntry) (ps : List PathEntry) (t : Registry)
    → All (λ x. x.share ≢ q.share) ps
    → own t q.share ≡ none
    → own (add_paths realpath (q ∷ ps) t) q.share ≡ realpath q.path
unfolding add_paths
add_paths-head realpath q ps t other n = elim (Option-cases (realpath q.path)) [
  | inl f ↦ rw (add_paths, f) (add_paths_other realpath ps t q.share other ∙ n)
  | inr (r, f) ↦
      rw (add_paths, f)
        (add_paths_other realpath ps (put t q.share r) q.share other
          ∙ (own-put t q.share q.share r ∙ rw (eq_text_refl q.share) refl))
]

-- The registry has the real path of each path, under its share, if there is one.
add_paths-own :
    (realpath : Realpath) (ps : List PathEntry) (t : Registry) (p : PathEntry)
    → DistinctShares ps
    → Memᴰ p ps
    → own t p.share ≡ none
    → own (add_paths realpath ps t) p.share ≡ realpath p.path
unfolding add_paths
add_paths-own realpath [] t p d m n = elim m [ ]
add_paths-own realpath (q ∷ ps) t p (other, d) (Memᴰ.head e) n =
    subst (λ (x : PathEntry). own (add_paths realpath (q ∷ ps) t) x.share ≡ realpath x.path) (sym e)
      (add_paths-head realpath q ps t other (subst (λ (x : PathEntry). own t x.share ≡ none) e n))
add_paths-own realpath (q ∷ ps) t p (other, d) (Memᴰ.tail m) n =
    let far : p.share ≢ q.share = All-mem (λ (x : PathEntry). x.share ≢ q.share) ps other m in
    let miss : eq_text q.share p.share ≡ false = ground (arith, eq_text_iff q.share p.share, far) in
    elim (Option-cases (realpath q.path)) [
      | inl f ↦ rw (add_paths, f) (add_paths-own realpath ps t p d m n)
      | inr (r, f) ↦
          rw (add_paths, f)
            (add_paths-own realpath ps (put t q.share r) p d m
              (own-put t q.share p.share r ∙ rw (miss) n))
    ]

find-mem :
    (root : Text) (ps : List PathEntry) (p : PathEntry)
    → find (λ (x : PathEntry). eq_text x.path root) ps ≡ some p
    → Memᴰ p ps × (p.path ≡ root)
find-mem root [] p e = cc e
find-mem root (q ∷ ps) p e = elim (Bool-cases (eq_text q.path root)) [
  | inl hit ↦
      let same : q ≡ p = some-injective q p (rw (hit) at e) in
      (Memᴰ.head (sym same), sym (ap (λ (x : PathEntry). x.path) same) ∙ eq_text→eq q.path root hit)
  | inr miss ↦ let (m, f) = find-mem root ps p (rw (miss) at e) in (Memᴰ.tail m, f)
]

-- A request runs on the share of a path of the node's own list, the path that the relay named, with
-- all of its filters; the registry has for that share what `realpath` answered for the path, in this
-- call or in an earlier one for the same list. No share may stand in the list twice.
pub handle_rpc_lem :
    (calls : List Call) (c : ShareRegistryCache) (realpath : Realpath) (paths : List PathEntry)
    (e : RpcEnvelope) (registry : Registry) (share : Text) (filters : List Text)
    → Reach calls c
    → DistinctShares paths
    → (handle_rpc c realpath paths e).1 ≡ runs registry share filters
    → (p : PathEntry) × Memᴰ p paths
      × (p.path ≡ e.absolute_root)
      × (p.share ≡ share)
      × (e.path_filters ≡ arr (texts filters))
      × (answers : Realpath) × Memᴰ (answers, paths) ((realpath, paths) ∷ calls)
      × (own registry share ≡ answers p.path)
unfolding handle_rpc own
handle_rpc_lem calls c realpath paths e registry share filters reach distinct h =
    elim (Option-cases (parse_path_filters e.path_filters)) [
      | inl f ↦ cc (rw (f, handle_rpc) at h)
      | inr (fs, f) ↦
          elim (Option-cases (find (λ (x : PathEntry). eq_text x.path e.absolute_root) paths)) [
            | inl g ↦ cc (rw (f, g, handle_rpc) at h)
            | inr (p, g) ↦ elim (Option-cases (root_of (build c realpath paths).cache p.share)) [
              | inl k ↦ cc (rw (f, g, k, handle_rpc) at h)
              | inr (root, k) ↦
                  let same : runs (build c realpath paths).cache p.share fs
                      ≡ runs registry share filters =
                    rw (f, g, k, handle_rpc) at h in
                  let same_filters : fs ≡ filters = cc same in
                  let same_share : p.share ≡ share = cc same in
                  let same_registry : (build c realpath paths).cache ≡ registry = cc same in
                  let (m, at_root) = find-mem e.absolute_root paths p g in
                  let (answers, known, built) = build-Reach calls c realpath paths reach in
                  (
                    p,
                    m,
                    at_root,
                    same_share,
                    ((parse_path_filters_iff e.path_filters filters).0
                        (f ∙ ap some same_filters)).0,
                    answers,
                    known,
                    rw (← same_registry, built, ← same_share)
                        (add_paths-own answers paths [] p distinct m refl),
                  )
            ]
          ]
    ]
