-- ===== src/Shared/Executor/Execute/Operations.antt =====
-- packages/shared/src/executor/index.ts: what an operation may do, and that `dispatch` performs no other.
use constellation_mcp.Prelude.{
  ℕ, ◌≡◌, ◌≢◌, refl, sym, subst, ap, ◌∙◌, ◌⊎◌, inl, inr, Bool, true, false, ◌&&◌, List, [], ◌∷◌,
  Option, none, some, Option-cases, Bool-cases, arith, Memᴰ, any,
}
use mathlib.Core.Option.{some-injective}
use constellation_mcp.Prelude.Text.{Text, text, eq_text_refl}
use constellation_mcp.Shared.Json.{Object, own}
use constellation_mcp.Shared.PathFilter.{Engine, active}
use constellation_mcp.Shared.Executor.Tool.{
  Tool, Field, relative_path, src_relative_path, dst_relative_path, fields, mutation_root_fields,
}
use constellation_mcp.Shared.Executor.Dispatch.{
  Root, at, Operation, Result, ok, threw, ◌>>=◌, Resolved, path_at, asserted, or_root, dir_op_path,
  switch, dispatch, string_at, number_at, required_at, boolean_at, list_directory, file_info,
  find_files, read_file, grep_files, write_file, edit_file, copy, move, create_directory, delete,
}
use constellation_mcp.Shared.Executor.Execute.{Registry, root_for, is_root?}
use constellation_mcp.Shared.Executor.Execute.Validate.{Allowed, AllAllowed}

-- The path of a registered share.
abbrev pub IsShareRoot : Registry → Root → Type 0
IsShareRoot registry r = (name path : Text) × Memᴰ (name, path) registry × (r ≡ at path)

module _ (engine : Engine) (filters : List Text) where
  -- The root itself, or an allowed path in it.
  abbrev pub CanRead : Root → Root → Type 0
  CanRead root path = (path ≡ root) ⊎ ((p : Text) × (path ≡ at p) × Allowed engine filters root p)

  -- An allowed path other than the root.
  abbrev pub CanChange : Root → Text → Type 0
  CanChange root path = Allowed engine filters root path × (root ≢ at path)

module _ (engine : Engine) (filters : List Text) (is_directory : Text → Bool) where
  -- While a filter is active, an operation on all that a path holds is for files only.
  abbrev pub IsWhole : Text → Type 0
  IsWhole path = active filters ≡ true → is_directory path ≡ false

  -- What an operation of a request on the share with this root, and this root of the destination,
  -- may do.
  unfoldable pub MayPerform : (root dst_root : Root) → Operation → Type 0
  MayPerform root dst_root (list_directory r path _ _ _ _ fs) =
      (r ≡ root) × CanRead engine filters root path × (fs ≡ filters)
  MayPerform root dst_root (file_info path r) = (r ≡ root) × Allowed engine filters root path
  MayPerform root dst_root (find_files r path _ _ fs) =
      (r ≡ root) × CanRead engine filters root path × (fs ≡ filters)
  MayPerform root dst_root (read_file path r _ _ _) = (r ≡ root) × Allowed engine filters root path
  MayPerform root dst_root (grep_files r path _ _ _ fs) =
      (r ≡ root) × CanRead engine filters root path × (fs ≡ filters)
  MayPerform root dst_root (write_file path r _ _ _) =
      (r ≡ root) × CanChange engine filters root path
  MayPerform root dst_root (edit_file path r _ _ _ _) =
      (r ≡ root) × CanChange engine filters root path
  MayPerform root dst_root (copy src dst r d _) =
      (r ≡ root)
      × (d ≡ dst_root)
      × CanChange engine filters root src
      × CanChange engine filters dst_root dst
      × IsWhole src
  MayPerform root dst_root (move src dst r d _) =
      (r ≡ root)
      × (d ≡ dst_root)
      × CanChange engine filters root src
      × CanChange engine filters dst_root dst
      × IsWhole src
  MayPerform root dst_root (create_directory path r) =
      (r ≡ root) × CanChange engine filters root path
  MayPerform root dst_root (delete path r _ _) =
      (r ≡ root) × CanChange engine filters root path × IsWhole path

ok-injective : {A : Type 0} (a b : A) → ok a ≡ ok b → a ≡ b
ok-injective a b e = cc e

asserted-ok : (o : Option Text) (p : Text) → asserted o ≡ ok p → o ≡ some p
asserted-ok none p e = cc e
asserted-ok (some q) p e = ap some (ok-injective q p e)

not_root :
    (root : Root) (o : Option Text) (p : Text) → o ≡ some p → is_root? root o ≡ false → root ≢ at p
not_root root o p h f e =
    let here : is_root? (at p) (some p) ≡ false = rw (h, e) at f in cc (rw (eq_text_refl p) at here)

module _ (engine : Engine) (filters : List Text) (is_directory : Text → Bool) (max : ℕ)
    (root dst_root : Root) (p : Object) (resolved : Resolved) where
  dispatch-switch :
      (tool : Tool) (name : Text) (op : Operation)
      → dispatch max root dst_root p resolved filters is_directory tool name ≡ ok op
      → (switch max root dst_root p resolved filters tool name ≡ ok op)
        × ((q : Text)
            → dir_op_path tool resolved ≡ some q
            → active filters ≡ true
            → is_directory q ≡ false)
  unfolding dispatch
  dispatch-switch tool name op e = elim (Option-cases (dir_op_path tool resolved)) [
    | inl f ↦ (rw (f, dispatch) at e, λ q g h. cc)
    | inr (path, f) ↦ elim (Bool-cases (active filters && is_directory path)) [
      | inl refuse ↦ cc (rw (f, refuse, dispatch) at e)
      | inr go ↦ (
        rw (f, go, dispatch) at e,
        λ q g h.
            let same : path ≡ q = some-injective path q (sym f ∙ g) in
            rw (← same) (let both : true && is_directory path ≡ false = rw (h) at go in both),
      )
    ]
  ]

  -- No field of the tool's mutations was resolved to its root.
  abbrev pub NoRoots : Tool → Type 0
  NoRoots tool =
      (fs : List Field)
      → mutation_root_fields tool ≡ fields fs
      → any (λ f. is_root? (root_for root dst_root f) (path_at resolved f)) fs ≡ false

  can_read :
      AllAllowed engine filters (root_for root dst_root) resolved
      → CanRead engine filters root (or_root (path_at resolved relative_path) root)
  can_read allowed = elim (Option-cases (path_at resolved relative_path)) [
    | inl f ↦ rw (f) (inl refl)
    | inr (q, f) ↦ rw (f) (inr (q, refl, allowed relative_path q f))
  ]

  can_change :
      (f : Field) (q : Text)
      → AllAllowed engine filters (root_for root dst_root) resolved
      → asserted (path_at resolved f) ≡ ok q
      → is_root? (root_for root dst_root f) (path_at resolved f) ≡ false
      → CanChange engine filters (root_for root dst_root f) q
  can_change f q allowed e h =
      let g = asserted-ok (path_at resolved f) q e in
      (allowed f q g, not_root (root_for root dst_root f) (path_at resolved f) q g h)

  one_field :
      (q : Text)
      → AllAllowed engine filters (root_for root dst_root) resolved
      → asserted (path_at resolved relative_path) ≡ ok q
      → any (λ f. is_root? (root_for root dst_root f) (path_at resolved f)) (relative_path ∷ [])
        ≡ false
      → CanChange engine filters root q
  one_field q allowed e h = can_change relative_path q allowed e (ground arith)

  two_fields :
      (src dst : Text)
      → AllAllowed engine filters (root_for root dst_root) resolved
      → asserted (path_at resolved src_relative_path) ≡ ok src
      → asserted (path_at resolved dst_relative_path) ≡ ok dst
      → any
          (λ f. is_root? (root_for root dst_root f) (path_at resolved f))
          (src_relative_path ∷ dst_relative_path ∷ [])
        ≡ false
      → ((q : Text)
          → path_at resolved src_relative_path ≡ some q
          → IsWhole engine filters is_directory q)
      → (root ≡ root)
        × (dst_root ≡ dst_root)
        × CanChange engine filters root src
        × CanChange engine filters dst_root dst
        × IsWhole engine filters is_directory src
  two_fields src dst allowed h k n whole = (
    refl,
    refl,
    can_change src_relative_path src allowed h (ground arith),
    can_change dst_relative_path dst allowed k (ground arith),
    whole src (asserted-ok _ src h),
  )

  abbrev May : Operation → Type 0
  May op = MayPerform engine filters is_directory root dst_root op

  required_then :
      (r : Result Text) (f : Text → Result Operation) {op : Operation}
      → r >>= f ≡ ok op
      → ((v : Text) → f v ≡ ok op → May op)
      → May op
  required_then (ok v) f e k = k v e
  required_then (threw t) f e k = cc e

  path_then :
      (o : Option Text) (f : Text → Operation) {op : Operation}
      → asserted o >>= (λ q. ok (f q)) ≡ ok op
      → ((q : Text) → asserted o ≡ ok q → May (f q))
      → May op
  path_then none f e k = cc e
  path_then (some q) f {op} e k = subst May (ok-injective (f q) op e) (k q refl)

  pair_then :
      (f : Text → Text → Operation) {op : Operation}
      → asserted (path_at resolved src_relative_path)
          >>= (λ src. asserted (path_at resolved dst_relative_path) >>= (λ dst. ok (f src dst)))
        ≡ ok op
      → ((src dst : Text)
          → asserted (path_at resolved src_relative_path) ≡ ok src
          → asserted (path_at resolved dst_relative_path) ≡ ok dst
          → May (f src dst))
      → May op
  pair_then f {op} e k = elim (Option-cases (path_at resolved src_relative_path)) [
    | inl g ↦ cc (rw (g) at e)
    | inr (src, g) ↦
        path_then (path_at resolved dst_relative_path) (f src) (rw (g) at e)
          λ dst h. k src dst (rw (g) refl) h
  ]

  -- The `switch` of an allowed request.
  switch-MayPerform :
      (tool : Tool) (name : Text) (op : Operation)
      → AllAllowed engine filters (root_for root dst_root) resolved
      → NoRoots tool
      → ((q : Text) → dir_op_path tool resolved ≡ some q → IsWhole engine filters is_directory q)
      → switch max root dst_root p resolved filters tool name ≡ ok op
      → May op
  unfolding switch MayPerform dir_op_path mutation_root_fields
  switch-MayPerform Tool.list_directory name op allowed no_roots whole e =
      subst May (ok-injective _ op e) (refl, can_read allowed, refl)
  switch-MayPerform Tool.file_info name op allowed no_roots whole e =
      path_then (path_at resolved relative_path) (λ q. file_info q root) e
        λ q h. (refl, allowed relative_path q (asserted-ok _ q h))
  switch-MayPerform Tool.find_files name op allowed no_roots whole e =
      required_then (required_at p (text "pattern"))
        (λ t. ok (
          find_files root (or_root (path_at resolved relative_path) root) t (own p (text "type"))
            filters))
        e λ t g. subst May (ok-injective _ op g) (refl, can_read allowed, refl)
  switch-MayPerform Tool.read_file name op allowed no_roots whole e =
      path_then (path_at resolved relative_path)
        (λ q.
          read_file q root (number_at p (text "start_line")) (number_at p (text "end_line")) max)
        e λ q h. (refl, allowed relative_path q (asserted-ok _ q h))
  switch-MayPerform Tool.grep_files name op allowed no_roots whole e =
      required_then (required_at p (text "pattern"))
        (λ t. ok (
          grep_files root (or_root (path_at resolved relative_path) root) t
            (string_at p (text "file_glob")) (own p (text "type")) filters))
        e λ t g. subst May (ok-injective _ op g) (refl, can_read allowed, refl)
  switch-MayPerform Tool.write_file name op allowed no_roots whole e =
      required_then (required_at p (text "content"))
        (λ t.
          asserted (path_at resolved relative_path)
          >>= (λ q. ok (write_file q root t (own p (text "mode")) max)))
        e
        λ t g.
          path_then (path_at resolved relative_path)
            (λ q. write_file q root t (own p (text "mode")) max) g
            λ q h. (refl, one_field q allowed h (no_roots (relative_path ∷ []) refl))
  switch-MayPerform Tool.edit_file name op allowed no_roots whole e =
      required_then (required_at p (text "relative_path"))
        (λ t. asserted (path_at resolved relative_path) >>= (λ q.
          ok (edit_file q root t (own p (text "edits")) (boolean_at p (text "dry_run")) max)))
        e
        λ t g.
          path_then (path_at resolved relative_path)
            (λ q. edit_file q root t (own p (text "edits")) (boolean_at p (text "dry_run")) max) g
            λ q h. (refl, one_field q allowed h (no_roots (relative_path ∷ []) refl))
  switch-MayPerform Tool.create_directory name op allowed no_roots whole e =
      path_then (path_at resolved relative_path) (λ q. create_directory q root) e
        λ q h. (refl, one_field q allowed h (no_roots (relative_path ∷ []) refl))
  switch-MayPerform Tool.delete name op allowed no_roots whole e =
      required_then (required_at p (text "relative_path"))
        (λ t.
          asserted (path_at resolved relative_path)
          >>= (λ q. ok (delete q root t (boolean_at p (text "recursive")))))
        e
        λ t g.
          path_then (path_at resolved relative_path)
            (λ q. delete q root t (boolean_at p (text "recursive"))) g
            λ q h. (
              refl,
              one_field q allowed h (no_roots (relative_path ∷ []) refl),
              whole q (asserted-ok _ q h),
            )
  switch-MayPerform Tool.copy name op allowed no_roots whole e =
      required_then (required_at p (text "dst_relative_path"))
        (λ t. asserted (path_at resolved src_relative_path) >>= (λ src.
          asserted (path_at resolved dst_relative_path)
          >>= (λ dst. ok (copy src dst root dst_root t))))
        e
        λ t g.
          pair_then (λ src dst. copy src dst root dst_root t) g
            λ src dst h k.
              two_fields src dst allowed h k
                (no_roots (src_relative_path ∷ dst_relative_path ∷ []) refl) whole
  switch-MayPerform Tool.move name op allowed no_roots whole e =
      required_then (required_at p (text "dst_relative_path"))
        (λ t. asserted (path_at resolved src_relative_path) >>= (λ src.
          asserted (path_at resolved dst_relative_path)
          >>= (λ dst. ok (move src dst root dst_root t))))
        e
        λ t g.
          pair_then (λ src dst. move src dst root dst_root t) g
            λ src dst h k.
              two_fields src dst allowed h k
                (no_roots (src_relative_path ∷ dst_relative_path ∷ []) refl) whole
  switch-MayPerform Tool.inherited_name name op allowed no_roots whole e = cc e
  switch-MayPerform Tool.other_name name op allowed no_roots whole e = cc e

  -- So it is with `dispatch`.
  pub dispatch-MayPerform :
      (tool : Tool) (name : Text) (op : Operation)
      → AllAllowed engine filters (root_for root dst_root) resolved
      → NoRoots tool
      → dispatch max root dst_root p resolved filters is_directory tool name ≡ ok op
      → May op
  dispatch-MayPerform tool name op allowed no_roots e =
      let (same, whole) = dispatch-switch tool name op e in
      switch-MayPerform tool name op allowed no_roots whole same
