-- ===== src/Shared/Executor/Execute/Validate.antt =====
-- What is known of the paths that pass the validation.
use constellation_mcp.Prelude.{
  ◌≡◌, refl, sym, ap, ◌∙◌, ◌⊎◌, ◌≢◌, inl, inr, true, false, List, [], ◌∷◌, arith, Bool-cases, some,
  Option-cases, All, subst,
}
use mathlib.Core.Option.{some-injective}
use constellation_mcp.Prelude.Text.{Text}
use constellation_mcp.Shared.Json.{Object}
use constellation_mcp.Shared.NodePath.{join}
use constellation_mcp.Shared.PathFilter.{Engine, blocks}
use constellation_mcp.Shared.Executor.SafePath.{is_inside, safe_realpath}
use constellation_mcp.Shared.Executor.SafePath.Confined.{IsInside, is_inside-IsInside}
use constellation_mcp.Shared.Executor.Tool.{Field, relative_path, same_field}
use constellation_mcp.Shared.Executor.Dispatch.{Root, at, Operation, inherited, Resolved, path_at}
use constellation_mcp.Shared.Executor.Execute.{
  Outcome, performs, Disk, Check, paths_to_validate, Checked, passes, Validated, all_pass, root_for,
  check_path, validate,
}

-- Inside the root, and not blocked by a filter.
abbrev pub Allowed : Engine → List Text → Root → Text → Type 0
Allowed engine filters root path =
    (r : Text) × (root ≡ at r) × IsInside r path × (blocks engine filters path ≡ false)

-- Every path that a field was resolved to is allowed in the field's root.
abbrev pub AllAllowed : Engine → List Text → (Field → Root) → Resolved → Type 0
AllAllowed engine filters roots resolved =
    (f : Field) (p : Text) → path_at resolved f ≡ some p → Allowed engine filters (roots f) p

checked-cases :
    (c : Checked) → ((p : Text) × (c ≡ passes p)) ⊎ ((o : Outcome) × (c ≡ Checked.stops o))
checked-cases (passes p) = inl (p, refl)
checked-cases (Checked.stops o) = inr (o, refl)

pub validated-cases :
    (v : Validated)
    → ((r : Resolved) × (v ≡ all_pass r)) ⊎ ((o : Outcome) × (v ≡ Validated.stops o))
validated-cases (all_pass r) = inl (r, refl)
validated-cases (Validated.stops o) = inr (o, refl)

root-cases : (r : Root) → (r ≡ inherited) ⊎ ((p : Text) × (r ≡ at p))
root-cases inherited = inl refl
root-cases (at p) = inr (p, refl)

same_field→eq : (f g : Field) → same_field f g ≡ true → f ≡ g
unfolding same_field
same_field→eq relative_path g h = ground arith
same_field→eq f g h = ground arith

module _ (engine : Engine) (disk : Disk) (filters : List Text) where
  check_path-Allowed :
      (c : Check) (p : Text)
      → check_path engine disk filters c ≡ passes p
      → Allowed engine filters c.boundary_root p
  unfolding check_path
  check_path-Allowed c p e = elim (root-cases c.boundary_root) [
    | inl f ↦ cc (rw (f, check_path) at e)
    | inr (root, f) ↦
        elim (Option-cases
          (safe_realpath (disk.resolve_field c.field) (join root c.rel_path) root)) [
            | inl g ↦ cc (rw (f, g, check_path) at e)
            | inr (q, g) ↦ elim (Bool-cases (is_inside root q)) [
              | inr out ↦ cc (rw (f, g, out, check_path) at e)
              | inl inside ↦ elim (Bool-cases (blocks engine filters q)) [
                | inl blocked ↦ cc (rw (f, g, inside, blocked, check_path) at e)
                | inr free ↦
                    let same : q ≡ p = cc (rw (f, g, inside, free, check_path) at e) in
                    rw (← same) (root, f, is_inside-IsInside root q inside, free)
              ]
            ]
          ]
  ]

  -- A path that is turned down ends the request.
  check_path-stops :
      (c : Check) (o : Outcome) (op : Operation)
      → check_path engine disk filters c ≡ Checked.stops o
      → o ≢ performs op
  unfolding check_path
  check_path-stops c o op e h = elim (root-cases c.boundary_root) [
    | inl f ↦ cc (rw (f, check_path) at e, h)
    | inr (root, f) ↦
        elim (Option-cases
          (safe_realpath (disk.resolve_field c.field) (join root c.rel_path) root)) [
            | inl g ↦ cc (rw (f, g, check_path) at e, h)
            | inr (q, g) ↦ elim (Bool-cases (is_inside root q)) [
              | inr out ↦ cc (rw (f, g, out, check_path) at e, h)
              | inl inside ↦ elim (Bool-cases (blocks engine filters q)) [
                | inl blocked ↦ cc (rw (f, g, inside, blocked, check_path) at e, h)
                | inr free ↦ cc (rw (f, g, inside, free, check_path) at e)
              ]
            ]
          ]
  ]

  pub validate-stops :
      (cs : List Check) (o : Outcome) (op : Operation)
      → validate engine disk filters cs ≡ Validated.stops o
      → o ≢ performs op
  unfolding validate
  validate-stops [] o op e h = cc e
  validate-stops (c ∷ cs) o op e h = elim (checked-cases (check_path engine disk filters c)) [
    | inr (o', g) ↦
        let same : o' ≡ o = cc (rw (g, validate) at e) in check_path-stops c o op (rw (← same) g) h
    | inl (x, g) ↦ elim (validated-cases (validate engine disk filters cs)) [
      | inl (rest, k) ↦ cc (rw (g, k, validate) at e)
      | inr (o', k) ↦
          let same : o' ≡ o = cc (rw (g, k, validate) at e) in
          validate-stops cs o op (rw (← same) k) h
    ]
  ]

  validate-AllAllowed :
      (roots : Field → Root) (cs : List Check) (resolved : Resolved)
      → All (λ c. c.boundary_root ≡ roots c.field) cs
      → validate engine disk filters cs ≡ all_pass resolved
      → AllAllowed engine filters roots resolved
  unfolding validate path_at
  validate-AllAllowed roots [] resolved h e f p q = ground arith
  validate-AllAllowed roots (c ∷ cs) resolved h e f p q =
      elim (checked-cases (check_path engine disk filters c)) [
        | inr (o, g) ↦ cc (rw (g, validate) at e)
        | inl (x, g) ↦ elim (validated-cases (validate engine disk filters cs)) [
          | inr (o, k) ↦ cc (rw (g, k, validate) at e)
          | inl (rest, k) ↦
              let whole : (c.field, x) ∷ rest ≡ resolved = cc (rw (g, k, validate) at e) in
              let found = subst (λ l. path_at l f ≡ some p) (sym whole) q in
              elim (Bool-cases (same_field c.field f)) [
                | inl here ↦
                    let same : x ≡ p = some-injective x p (rw (here, path_at) at found) in
                    let at_f : c.boundary_root ≡ roots f =
                      h.0 ∙ ap roots (same_field→eq c.field f here) in
                    rw (← same, ← at_f) (check_path-Allowed c x g)
                | inr later ↦
                    validate-AllAllowed roots cs rest h.1 k f p (rw (later, path_at) at found)
              ]
        ]
      ]

  checks_roots :
      (p : Object) (root dst_root : Root)
      → All
          (λ c. c.boundary_root ≡ root_for root dst_root c.field)
          (paths_to_validate p root dst_root)
  unfolding paths_to_validate
  checks_roots p root dst_root = ground arith

  -- So it is after the loop of `execute`.
  pub validate_lem :
      (p : Object) (root dst_root : Root) (resolved : Resolved)
      → validate engine disk filters (paths_to_validate p root dst_root) ≡ all_pass resolved
      → AllAllowed engine filters (root_for root dst_root) resolved
  validate_lem p root dst_root resolved e =
      validate-AllAllowed (root_for root dst_root) _ resolved (checks_roots p root dst_root) e
