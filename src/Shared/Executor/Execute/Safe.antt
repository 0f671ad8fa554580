-- ===== src/Shared/Executor/Execute/Safe.antt =====
-- packages/shared/src/executor/index.ts: what `execute` goes on to perform is what the request may do.
use constellation_mcp.Prelude.{
  ℕ, ◌≡◌, refl, sym, ap, ◌∙◌, ◌⊎◌, inl, inr, true, List, [], ◌∷◌, Option, none, some, Option-cases,
  Bool-cases, Memᴰ, any,
}
use mathlib.Core.Option.{some-injective}
use constellation_mcp.Prelude.Text.{Text, text, eq_text, eq_text→eq}
use constellation_mcp.Shared.Json.{Value, Object, own, is_inherited}
use constellation_mcp.Shared.PathFilter.{Engine}
use constellation_mcp.Shared.Executor.SafePath.{safe_realpath}
use constellation_mcp.Shared.Executor.Tool.{
  Tool, tool_named, Field, Entry, absent, not_iterable, fields, mutation_root_fields,
  required_resolved_fields,
}
use constellation_mcp.Shared.Executor.Errors.{Thrown}
use constellation_mcp.Shared.Executor.Dispatch.{
  Root, at, inherited, Operation, Result, ok, threw, Resolved, path_at, string_at, dispatch,
}
use constellation_mcp.Shared.Executor.Execute.{
  Registry, performs, root_of, Disk, resolve_dst, properties, paths_to_validate, validate, or_else,
  root_for, is_root?, is_absent, run_tool, check_required, check_mutation, execute,
}
use constellation_mcp.Shared.Executor.Execute.Validate.{
  validated-cases, validate-stops, AllAllowed, validate_lem,
}
use constellation_mcp.Shared.Executor.Execute.Operations.{MayPerform, NoRoots, dispatch-MayPerform}

-- The root of the share: its registered path, or what the registry inherits under its name.
abbrev pub IsRootOf : Registry → Text → Root → Type 0
IsRootOf registry share root =
    ((path : Text) × Memᴰ (share, path) registry × (root ≡ at path))
    ⊎ ((root ≡ inherited) × (is_inherited share ≡ true))

-- Where copies and moves go: the share itself, or another one.
abbrev pub IsDestination : Registry → Root → Root → Type 0
IsDestination registry root dst = (dst ≡ root) ⊎ ((share : Text) × IsRootOf registry share dst)

own-mem :
    (registry : Registry) (share path : Text)
    → own registry share ≡ some path
    → Memᴰ (share, path) registry
unfolding own
own-mem [] share path e = cc e
own-mem ((k, v) ∷ rest) share path e = elim (Bool-cases (eq_text k share)) [
  | inl here ↦
      let same : v ≡ path = some-injective v path (rw (here, own) at e) in
      Memᴰ.head (rw (← same, ← eq_text→eq k share here) refl)
  | inr later ↦ Memᴰ.tail (own-mem rest share path (rw (later, own) at e))
]

pub root_of-IsRootOf :
    (registry : Registry) (share : Text) (root : Root)
    → root_of registry share ≡ some root
    → IsRootOf registry share root
unfolding root_of
root_of-IsRootOf registry share root e = elim (Option-cases (own registry share)) [
  | inr (path, f) ↦ inl (
    path,
    own-mem registry share path f,
    sym (some-injective (at path) root (rw (f, root_of) at e)),
  )
  | inl f ↦ elim (Bool-cases (is_inherited share)) [
    | inl g ↦ inr (sym (some-injective inherited root (rw (f, g, root_of) at e)), g)
    | inr g ↦ cc (rw (f, g, root_of) at e)
  ]
]

pub any-mem :
    (registry : Registry) (path : Text)
    → any (λ e. eq_text e.1 path) registry ≡ true
    → (share : Text) × Memᴰ (share, path) registry
any-mem [] path e = cc e
any-mem ((k, v) ∷ rest) path e = elim (Bool-cases (eq_text v path)) [
  | inl here ↦ (k, Memᴰ.head (rw (eq_text→eq v path here) refl))
  | inr later ↦ let (share, m) = any-mem rest path (rw (later) at e) in (share, Memᴰ.tail m)
]

abbrev Destined : Registry → Option Root → Type 0
Destined registry none = Unit
Destined registry (some dst) = (share : Text) × IsRootOf registry share dst

resolve_dst-Destined :
    (disk : Disk) (registry : Registry) (p : Object) (dst : Option Root)
    → resolve_dst disk registry p ≡ some dst
    → Destined registry dst
unfolding resolve_dst
resolve_dst-Destined disk registry p none e = tt
resolve_dst-Destined disk registry p (some dst) e =
    elim (Option-cases (string_at p (text "dst_share"))) [
      | inr (share, f) ↦ elim (Option-cases (root_of registry share)) [
        | inl g ↦ cc (rw (f, g, resolve_dst) at e)
        | inr (r, g) ↦
            let same : r ≡ dst = cc (rw (f, g, resolve_dst) at e) in
            (share, root_of-IsRootOf registry share dst (g ∙ ap some same))
      ]
      | inl f ↦ elim (Option-cases (string_at p (text "dst_root"))) [
        | inl g ↦ cc (rw (f, g, resolve_dst) at e)
        | inr (raw, g) ↦ elim (Option-cases (safe_realpath disk.resolve_dst_root raw raw)) [
          | inl h ↦ cc (rw (f, g, h, resolve_dst) at e)
          | inr (r, h) ↦ elim (Bool-cases (any (λ e. eq_text e.1 r) registry)) [
            | inr k ↦ cc (rw (f, g, h, k, resolve_dst) at e)
            | inl k ↦
                let same : at r ≡ dst = cc (rw (f, g, h, k, resolve_dst) at e) in
                let (share, m) = any-mem registry r k in (share, inl (r, m, sym same))
          ]
        ]
      ]
    ]

or_else-IsDestination :
    (registry : Registry) (root : Root) (dst : Option Root)
    → Destined registry dst
    → IsDestination registry root (or_else dst root)
or_else-IsDestination registry root none h = inl refl
or_else-IsDestination registry root (some dst) h = inr h

entry-cases :
    (t : Entry) → (t ≡ absent) ⊎ (t ≡ not_iterable) ⊎ ((fs : List Field) × (t ≡ fields fs))
entry-cases absent = inl refl
entry-cases not_iterable = inr (inl refl)
entry-cases (fields fs) = inr (inr (fs, refl))

result-cases : {A : Type 0} (r : Result A) → ((a : A) × (r ≡ ok a)) ⊎ ((t : Thrown) × (r ≡ threw t))
result-cases (ok a) = inl (a, refl)
result-cases (threw t) = inr (t, refl)

module _ (engine : Engine) (disk : Disk) (filters : List Text) (max : ℕ) where
  module _ (root dst : Root) (p : Object) (resolved : Resolved) where
    run_tool-dispatch :
        (tool : Tool) (name : Text) (op : Operation)
        → run_tool engine disk filters max root dst p resolved tool name ≡ performs op
        → dispatch max root dst p resolved filters disk.is_directory tool name ≡ ok op
    unfolding run_tool
    run_tool-dispatch tool name op e =
        elim (result-cases (dispatch max root dst p resolved filters disk.is_directory tool name)) [
          | inl (a, f) ↦ f ∙ ap ok (cc (rw (f, run_tool) at e))
          | inr (t, f) ↦ cc (rw (f, run_tool) at e)
        ]

    check_required-run_tool :
        (tool : Tool) (name : Text) (op : Operation)
        → check_required engine disk filters max root dst p resolved tool name ≡ performs op
        → run_tool engine disk filters max root dst p resolved tool name ≡ performs op
    unfolding check_required
    check_required-run_tool tool name op e = elim (entry-cases (required_resolved_fields tool)) [
      | inl f ↦ rw (f, check_required) at e
      | inr (inl f) ↦ cc (rw (f, check_required) at e)
      | inr (inr (fs, f)) ↦ elim (Bool-cases (any (λ g. is_absent (path_at resolved g)) fs)) [
        | inl g ↦ cc (rw (f, g, check_required) at e)
        | inr g ↦ rw (f, g, check_required) at e
      ]
    ]

    check_mutation-check_required :
        (tool : Tool) (name : Text) (op : Operation)
        → check_mutation engine disk filters max root dst p resolved tool name ≡ performs op
        → NoRoots engine filters disk.is_directory max root dst p resolved tool
          × (check_required engine disk filters max root dst p resolved tool name ≡ performs op)
    unfolding check_mutation
    check_mutation-check_required tool name op e = elim (entry-cases (mutation_root_fields tool)) [
      | inl f ↦ (λ fs g. cc (f, g), rw (f, check_mutation) at e)
      | inr (inl f) ↦ cc (rw (f, check_mutation) at e)
      | inr (inr (fs, f)) ↦
          elim (Bool-cases (any (λ g. is_root? (root_for root dst g) (path_at resolved g)) fs)) [
            | inl g ↦ cc (rw (f, g, check_mutation) at e)
            | inr g ↦ (
              λ gs h. let same : fs ≡ gs = cc (f, h) in rw (← same) g,
              rw (f, g, check_mutation) at e,
            )
          ]
    ]

    check_mutation-MayPerform :
        (tool : Tool) (name : Text) (op : Operation)
        → AllAllowed engine filters (root_for root dst) resolved
        → check_mutation engine disk filters max root dst p resolved tool name ≡ performs op
        → MayPerform engine filters disk.is_directory root dst op
    check_mutation-MayPerform tool name op allowed e =
        let (no_roots, f) = check_mutation-check_required tool name op e in
        dispatch-MayPerform engine filters disk.is_directory max root dst p resolved tool name op
          allowed no_roots (run_tool-dispatch tool name op (check_required-run_tool tool name op f))

  -- The values on the way to an operation.
  pub record Steps (registry : Registry) (share : Text) (params : Value) (op : Operation)
      : Type 0 where
    pub root : Root
    pub properties_of : Object
    pub dst : Option Root
    pub found_root : root_of registry share ≡ some root
    pub read : properties params ≡ some properties_of
    pub found_dst : resolve_dst disk registry properties_of ≡ some dst
    pub may : MayPerform engine filters disk.is_directory root (or_else dst root) op

  pub execute-Steps :
      (registry : Registry) (tool share : Text) (params : Value) (op : Operation)
      → execute engine disk filters max registry tool share params ≡ performs op
      → Steps registry share params op
  unfolding execute
  execute-Steps registry tool share params op e = elim (Option-cases (root_of registry share)) [
    | inl f ↦ cc (rw (f, execute) at e)
    | inr (root, f) ↦ elim (Option-cases (properties params)) [
      | inl g ↦ cc (rw (f, g, execute) at e)
      | inr (p, g) ↦ elim (Option-cases (resolve_dst disk registry p)) [
        | inl h ↦ cc (rw (f, g, h, execute) at e)
        | inr (dst, h) ↦
            elim (validated-cases
              (validate engine disk filters (paths_to_validate p root (or_else dst root)))) [
                | inr (o, k) ↦
                    elim (validate-stops engine disk filters _ o op k
                      (rw (f, g, h, k, execute) at e)) [ ]
                | inl (resolved, k) ↦ record {
                  root = root;
                  properties_of = p;
                  dst = dst;
                  found_root = f;
                  read = g;
                  found_dst = h;
                  may =
                      check_mutation-MayPerform root (or_else dst root) p resolved (tool_named tool)
                        tool op
                        (validate_lem engine disk filters p root (or_else dst root) resolved k)
                        (rw (f, g, h, k, execute) at e);
                }
              ]
      ]
    ]
  ]

  -- What a request performs is on the root of its share, with a destination among the registered
  -- shares, and it may be performed there: every path lies in its root and no filter blocks it, except
  -- that a root itself may be listed or searched without that check; listings and searches are given
  -- all of the filters; no change is to a root, and no directory is copied, moved or deleted while a
  -- filter is active.
  pub execute_lem :
      (registry : Registry) (tool share : Text) (params : Value) (op : Operation)
      → execute engine disk filters max registry tool share params ≡ performs op
      → (root dst : Root) × IsRootOf registry share root
        × IsDestination registry root dst
        × MayPerform engine filters disk.is_directory root dst op
  execute_lem registry tool share params op e =
      let s = execute-Steps registry tool share params op e in
      (
        s.root,
        or_else s.dst s.root,
        root_of-IsRootOf registry share s.root s.found_root,
        or_else-IsDestination registry s.root s.dst
            (resolve_dst-Destined disk registry s.properties_of s.dst s.found_dst),
        s.may,
      )
