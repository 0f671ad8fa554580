-- ===== src/Hub/Rpc/Destination.antt =====
-- packages/hub/src/index.ts and packages/shared/src/executor/index.ts: the share that the hub checks
-- for a copy or a move is the one that the executor writes to.
use constellation_mcp.Prelude.{
  ℕ, ◌≡◌, ◌≢◌, refl, sym, ap, ◌∙◌, ◌⊎◌, inl, inr, true, List, [], ◌∷◌, Memᴰ, Option, none, some,
  Bool-cases, Option-cases, any,
}
use mathlib.Core.Option.{some-injective}
use constellation_mcp.Prelude.Text.{Text, text, eq_text, eq_text→eq}
use constellation_mcp.Shared.Json.{as_text, Object, own}
use constellation_mcp.Shared.NodePath.{resolve_path}
use constellation_mcp.Shared.PathFilter.{Engine}
use constellation_mcp.Shared.Permissions.{PermissionSubject}
use constellation_mcp.Shared.Executor.SafePath.{Realpath, safe_realpath}
use constellation_mcp.Shared.Executor.Dispatch.{Root, at, Operation, copy, move, string_at}
use constellation_mcp.Shared.Executor.Execute.{
  Disk, root_of, resolve_dst, execute, performs, or_else,
}
use constellation_mcp.Shared.Executor.Execute.Operations.{MayPerform}
use constellation_mcp.Shared.Executor.Execute.Safe.{root_of-IsRootOf, Steps, execute-Steps}
use constellation_mcp.Hub.Permissions.{ShareConfig}
use constellation_mcp.Hub.Permissions.Laws.{FirstNamed, here, there, May, MayRpc}
use constellation_mcp.Hub.Identity.{Getent, IdentityConfig}
use constellation_mcp.Hub.Rpc.{
  RpcEnvelope, Registry, guess_share, or_text, is_transfer, resolve_dst_share, passes, Job, decide,
}
use constellation_mcp.Hub.Rpc.Permitted.{decide-MayRun}

-- No share of the configuration has a name that starts like an absolute path.
abbrev pub PlainNames : List ShareConfig → Type 0
PlainNames shares = (c : ShareConfig) (rest : Text) → Memᴰ c shares → c.name ≢ b'/' ∷ rest

-- If the parameters name no destination share, a destination root that they name and that is found
-- leads through no link: its real path is the one that the hub resolves its name to.
abbrev pub DstRootIsReal : Text → Realpath → Object → Type 0
DstRootIsReal cwd realpath p =
    (raw r : Text)
    → as_text (own p (text "dst_share")) ≡ none
    → as_text (own p (text "dst_root")) ≡ some raw
    → safe_realpath realpath raw raw ≡ some r
    → r ≡ resolve_path cwd raw

guess_share-mem :
    (root : Text) (registry : Registry) (name : Text)
    → guess_share root registry ≡ name
    → name ≢ []
    → Memᴰ (name, root) registry
unfolding guess_share
guess_share-mem root [] name e n = absurd (n (sym e))
guess_share-mem root ((k, path) ∷ rest) name e n = elim (Bool-cases (eq_text path root)) [
  | inl hit ↦
      let same : k ≡ name = rw (hit, guess_share) at e in
      Memᴰ.head (rw (← same, ← eq_text→eq path root hit) refl)
  | inr miss ↦ Memᴰ.tail (guess_share-mem root rest name (rw (miss, guess_share) at e) n)
]

FirstNamed-name :
    {name : Text} {c : ShareConfig} {shares : List ShareConfig}
    → FirstNamed name c shares
    → Memᴰ c shares × (c.name ≡ name)
FirstNamed-name (here e f) = (Memᴰ.head (sym e), f)
FirstNamed-name (there n f) = let (m, g) = FirstNamed-name f in (Memᴰ.tail m, g)

string_at-as_text : (p : Object) (key : Text) → string_at p key ≡ as_text (own p key)
unfolding string_at
string_at-as_text p key = refl

module _ (cwd : Text) (p : Object) (tool : Text) (registry : Registry) where
  resolve_dst_share_by_name :
      (name : Text)
      → is_transfer tool ≡ true
      → as_text (own p (text "dst_share")) ≡ some name
      → resolve_dst_share cwd p tool registry ≡ some name
  unfolding resolve_dst_share
  resolve_dst_share_by_name name t f = rw (resolve_dst_share, t, f) refl

  resolve_dst_share_by_root :
      (raw : Text)
      → is_transfer tool ≡ true
      → as_text (own p (text "dst_share")) ≡ none
      → as_text (own p (text "dst_root")) ≡ some raw
      → resolve_dst_share cwd p tool registry
        ≡ some (or_text (guess_share (resolve_path cwd raw) registry) (resolve_path cwd raw))
  unfolding resolve_dst_share
  resolve_dst_share_by_root raw t f g = rw (resolve_dst_share, t, f, g) refl

-- A resolved path starts with a slash.
resolve_path_slash : (cwd raw : Text) → (rest : Text) × (resolve_path cwd raw ≡ b'/' ∷ rest)
unfolding resolve_path
resolve_path_slash cwd raw = (_, refl)

-- The destination of a copy or a move, and the share that it is checked as.
abbrev pub MayWrite : PermissionSubject → Text → List ShareConfig → Registry → Root → Type 0
MayWrite subject tool shares registry dst =
    (name path : Text) × Memᴰ (name, path) registry × (dst ≡ at path) × May subject tool shares name

module _ (engine : Engine) (disk : Disk) (filters : List Text) (max : ℕ) where
  module _ (shares : List ShareConfig) (cwd : Text) (registry : Registry)
      (subject : PermissionSubject) (tool share : Text) (p : Object) (root : Root) where
    by_root :
        (raw path : Text) (dst : Root)
        → PlainNames shares
        → path ≡ resolve_path cwd raw
        → May subject tool shares
            (or_text (guess_share (resolve_path cwd raw) registry) (resolve_path cwd raw))
        → dst ≡ at path
        → MayWrite subject tool shares registry dst
    by_root raw path dst plain same may f = go (guess_share (resolve_path cwd raw) registry) refl
      where
        go :
            (guess : Text)
            → guess_share (resolve_path cwd raw) registry ≡ guess
            → MayWrite subject tool shares registry dst
        go [] g =
            let (c, first, s) = may in
            let (m, named) = FirstNamed-name first in
            let (rest, slash) = resolve_path_slash cwd raw in
            absurd (plain c rest m (named ∙ (rw (g) slash)))
        go (k ∷ ks) g =
            let m = guess_share-mem (resolve_path cwd raw) registry (k ∷ ks) g (λ n. cc n) in
            (k ∷ ks, resolve_path cwd raw, m, f ∙ ap at same, rw (g) at may)

    by_share :
        (name : Text) (dst : Root) (x : Text)
        → May subject tool shares name
        → root_of registry name ≡ some dst
        → dst ≡ at x
        → MayWrite subject tool shares registry dst
    by_share name dst x may e f = elim (root_of-IsRootOf registry name dst e) [
      | inl (path, m, g) ↦ (name, path, m, g, may)
      | inr (g, _) ↦ cc (f, g)
    ]

    dst-MayWrite :
        (d : Option Root) (x : Text)
        → PlainNames shares
        → DstRootIsReal cwd disk.resolve_dst_root p
        → is_transfer tool ≡ true
        → MayRpc subject tool shares share (resolve_dst_share cwd p tool registry)
        → root_of registry share ≡ some root
        → resolve_dst disk registry p ≡ some d
        → or_else d root ≡ at x
        → MayWrite subject tool shares registry (or_else d root)
    unfolding resolve_dst
    dst-MayWrite d x plain real transfer may found_root found_dst at_x =
        elim (Option-cases (as_text (own p (text "dst_share")))) [
          | inr (name, f) ↦ elim (Option-cases (root_of registry name)) [
            | inl g ↦
                cc (rw (resolve_dst, string_at-as_text p (text "dst_share"), f, g) at found_dst)
            | inr (r, g) ↦
                let same : some r ≡ d =
                  cc
                    (rw (resolve_dst, string_at-as_text p (text "dst_share"), f, g) at found_dst) in
                rw (← same) (
                  by_share name r x
                    (may.1 name (resolve_dst_share_by_name cwd p tool registry name transfer f)) g
                    (rw (← same) at at_x))
          ]
          | inl f ↦ elim (Option-cases (as_text (own p (text "dst_root")))) [
            | inl g ↦
                let same : none ≡ d = cc (
                  rw
                    (
                      resolve_dst,
                      string_at-as_text p (text "dst_share"),
                      f,
                      string_at-as_text p (text "dst_root"),
                      g,
                    )
                    at found_dst) in
                rw (← same) (by_share share root x may.0 found_root (rw (← same) at at_x))
            | inr (raw, g) ↦ elim (Option-cases (safe_realpath disk.resolve_dst_root raw raw)) [
              | inl h ↦ cc (
                  rw
                    (
                      resolve_dst,
                      string_at-as_text p (text "dst_share"),
                      f,
                      string_at-as_text p (text "dst_root"),
                      g,
                      h,
                    )
                    at found_dst)
              | inr (path, h) ↦ elim (Bool-cases (any (λ e. eq_text e.1 path) registry)) [
                | inr k ↦ cc (
                    rw
                      (
                        resolve_dst,
                        string_at-as_text p (text "dst_share"),
                        f,
                        string_at-as_text p (text "dst_root"),
                        g,
                        h,
                        k,
                      )
                      at found_dst)
                | inl k ↦
                    let same : some (at path) ≡ d = cc (
                      rw
                        (
                          resolve_dst,
                          string_at-as_text p (text "dst_share"),
                          f,
                          string_at-as_text p (text "dst_root"),
                          g,
                          h,
                          k,
                        )
                        at found_dst) in
                    rw (← same) (
                      by_root raw path (at path) plain (real raw path f g h)
                        (may.1 _ (resolve_dst_share_by_root cwd p tool registry raw transfer f g))
                        refl)
              ]
            ]
          ]
        ]

  -- If the hub lets a copy or a move pass and the executor goes on to perform it, the destination is
  -- the root of a share that the user may write to; this holds while no share is named like a path
  -- and, if the request names a destination root instead of a share, that one leads through no link.
  pub decide-copy :
      (getent : Getent) (config : IdentityConfig) (shares : List ShareConfig) (cwd : Text)
      (registry : Registry) (e : RpcEnvelope) (job : Job) (src dst : Text) (root dst_root : Root)
      (label : Text)
      → PlainNames shares
      → DstRootIsReal cwd disk.resolve_dst_root job.params
      → is_transfer e.tool ≡ true
      → decide getent config shares cwd registry e ≡ passes job
      → (execute engine disk filters max registry e.tool job.share e.params
          ≡ performs (copy src dst root dst_root label))
        ⊎ (execute engine disk filters max registry e.tool job.share e.params
            ≡ performs (move src dst root dst_root label))
      → MayWrite
          (record { sub = some job.sub; groups = job.groups })
          e.tool
          shares
          registry
          dst_root
  unfolding MayPerform
  decide-copy getent config shares cwd registry e job src dst root dst_root label plain real
        transfer d run =
      elim run [
        | inl c ↦
            let s =
              execute-Steps engine disk filters max registry e.tool job.share e.params
                (copy src dst root dst_root label) c in
            let (_, same, _, changed, _) = s.may in finish s same changed.0.0 changed.0.1
        | inr m ↦
            let s =
              execute-Steps engine disk filters max registry e.tool job.share e.params
                (move src dst root dst_root label) m in
            let (_, same, _, changed, _) = s.may in finish s same changed.0.0 changed.0.1
      ]
    where
      finish :
          {op : Operation} (s : Steps engine disk filters max registry job.share e.params op)
          → dst_root ≡ or_else s.dst s.root
          → (x : Text) → or_else s.dst s.root ≡ at x
          → MayWrite
              (record { sub = some job.sub; groups = job.groups })
              e.tool
              shares
              registry
              dst_root
      finish s same x at_x =
          let run_ok = decide-MayRun getent config shares cwd registry e job d in
          let read : job.params ≡ s.properties_of =
            some-injective job.params s.properties_of (sym run_ok.params ∙ s.read) in
          rw (same) (
            dst-MayWrite shares cwd registry (record { sub = some job.sub; groups = job.groups })
              e.tool job.share s.properties_of s.root s.dst x plain (rw (← read) real) transfer
              (rw (← read) run_ok.may) s.found_root s.found_dst at_x)
