-- ===== src/Node/Rpc/Fresh.antt =====
-- packages/node/src/rpc.ts: the registry that is used is that of the paths of the request.
use constellation_mcp.Prelude.{
  ◌≡◌, refl, sym, ap, ◌∙◌, inl, inr, true, List, [], ◌∷◌, Memᴰ, Option, none, some, arith,
  Bool-cases,
}
use mathlib.Core.Option.{some-injective}
use constellation_mcp.Prelude.Text.{Text, eq_text→eq}
use constellation_mcp.Node.Rpc.{
  PathEntry, Realpath, add_paths, same_option, same_entry, same_paths, ShareRegistryCache,
  empty_cache, has_key, build,
}

same_option→eq : (s t : Option Text) → same_option s t ≡ true → s ≡ t
unfolding same_option
same_option→eq none none e = refl
same_option→eq none (some t) e = cc e
same_option→eq (some s) none e = cc e
same_option→eq (some s) (some t) e = ap some (eq_text→eq s t e)

same_entry→eq : (p q : PathEntry) → same_entry p q ≡ true → p ≡ q
unfolding same_entry
same_entry→eq p q e =
    let share : p.share ≡ q.share = eq_text→eq p.share q.share (ground arith) in
    let path : p.path ≡ q.path = eq_text→eq p.path q.path (ground arith) in
    let file : p.context_file ≡ q.context_file =
      same_option→eq p.context_file q.context_file (ground arith) in
    let notes : p.instructions ≡ q.instructions =
      same_option→eq p.instructions q.instructions (ground arith) in
    entry_eq p q share path file notes
  where
    entry_eq :
        (p q : PathEntry)
        → p.share ≡ q.share
        → p.path ≡ q.path
        → p.context_file ≡ q.context_file
        → p.instructions ≡ q.instructions
        → p ≡ q
    entry_eq p q a b c d =
        λ i. record { share = a i; path = b i; context_file = c i; instructions = d i }

same_paths→eq : (ps qs : List PathEntry) → same_paths ps qs ≡ true → ps ≡ qs
unfolding same_paths
same_paths→eq [] [] e = refl
same_paths→eq [] (q ∷ qs) e = cc e
same_paths→eq (p ∷ ps) [] e = cc e
same_paths→eq (p ∷ ps) (q ∷ qs) e =
    let head : p ≡ q = same_entry→eq p q (ground arith) in
    let tail : ps ≡ qs = same_paths→eq ps qs (ground arith) in rw (head, tail) refl

-- A call: the answers that it had, and its paths.
abbrev pub Call : Type 0
Call = Realpath × List PathEntry

-- Any number of calls on a new cache, the latest first.
pub data Reach : List Call → ShareRegistryCache → Type 0 where
  start : Reach [] empty_cache
  builds :
      {calls : List Call} {c : ShareRegistryCache} (realpath : Realpath) (paths : List PathEntry)
      → Reach calls c
      → Reach ((realpath, paths) ∷ calls) (build c realpath paths)

-- What a cache holds is what one of the calls, which was for these paths, made of them.
abbrev pub IsBuilt : List Call → ShareRegistryCache → List PathEntry → Type 0
IsBuilt calls c paths =
    (realpath : Realpath) × Memᴰ (realpath, paths) calls × (c.cache ≡ add_paths realpath paths [])

KeyIsBuilt : List Call → ShareRegistryCache → Type 0
KeyIsBuilt calls c = (paths : List PathEntry) → c.key ≡ some paths → IsBuilt calls c paths

build-IsBuilt :
    (calls : List Call) (c : ShareRegistryCache) (realpath : Realpath) (paths : List PathEntry)
    → KeyIsBuilt calls c
    → IsBuilt ((realpath, paths) ∷ calls) (build c realpath paths) paths
unfolding build KeyIsBuilt
build-IsBuilt calls c realpath paths v = elim (Bool-cases (has_key c.key paths)) [
  | inr miss ↦ rw (build, miss) (realpath, Memᴰ.head refl, refl)
  | inl hit ↦ let (known, m, e) = go c.key refl hit in rw (build, hit) (known, Memᴰ.tail m, e)
]
  where
    go : (k : Option (List PathEntry)) → c.key ≡ k → has_key k paths ≡ true → IsBuilt calls c paths
    go none f e = cc e
    go (some known) f e = v paths (f ∙ ap some (same_paths→eq known paths e))

build-KeyIsBuilt :
    (calls : List Call) (c : ShareRegistryCache) (realpath : Realpath) (paths : List PathEntry)
    → KeyIsBuilt calls c
    → KeyIsBuilt ((realpath, paths) ∷ calls) (build c realpath paths)
unfolding build KeyIsBuilt
build-KeyIsBuilt calls c realpath paths v = elim (Bool-cases (has_key c.key paths)) [
  | inl hit ↦ rw (build, hit) λ qs e. let (known, m, f) = v qs e in (known, Memᴰ.tail m, f)
  | inr miss ↦
      rw (build, miss)
        λ qs e.
          let same : paths ≡ qs = some-injective paths qs e in
          (
            realpath,
            Memᴰ.head (ap (λ (ps : List PathEntry). (realpath, ps)) (sym same)),
            ap (λ ps. add_paths realpath ps []) same,
          )
]

Reach-KeyIsBuilt : {calls : List Call} {c : ShareRegistryCache} → Reach calls c → KeyIsBuilt calls c
unfolding KeyIsBuilt empty_cache
Reach-KeyIsBuilt start = λ paths e. cc e
Reach-KeyIsBuilt (builds {calls} {c} realpath paths r) =
    build-KeyIsBuilt calls c realpath paths (Reach-KeyIsBuilt r)

-- Whatever was asked of the cache before, it returns what it makes of the paths it is asked for with
-- the answers of this call, or what it made of them with those of an earlier call for the same paths.
pub build-Reach :
    (calls : List Call) (c : ShareRegistryCache) (realpath : Realpath) (paths : List PathEntry)
    → Reach calls c
    → IsBuilt ((realpath, paths) ∷ calls) (build c realpath paths) paths
build-Reach calls c realpath paths r = build-IsBuilt calls c realpath paths (Reach-KeyIsBuilt r)
