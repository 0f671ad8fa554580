-- ===== src/Shared/Executor/Execute.antt =====
-- packages/shared/src/executor/index.ts: `execute`, from the request to the operation that it performs.
pub mod Validate
pub mod Operations
pub mod Safe
pub mod Tests
use constellation_mcp.Prelude.{
  ℕ, Bool, true, false, not, ◌&&◌, List, [], ◌∷◌, ◌++◌, Option, none, some, if◌then◌else◌, any,
}
use constellation_mcp.Prelude.Text.{Text, text, eq_text}
use constellation_mcp.Shared.Json.{Value, undefined, null, obj, entries, Object, own, is_inherited}
use constellation_mcp.Shared.NodePath.{join}
use constellation_mcp.Shared.PathFilter.{Engine, blocks, active}
use constellation_mcp.Shared.Executor.SafePath.{Realpath, is_inside, safe_realpath}
use constellation_mcp.Shared.Executor.Tool.{
  Tool, tool_named, Field, relative_path, src_relative_path, dst_relative_path, Entry, absent,
  not_iterable, fields, mutation_root_fields, required_resolved_fields,
}
use constellation_mcp.Shared.Executor.Errors.{Thrown, build_error}
use constellation_mcp.Shared.Executor.Dispatch.{
  Root, at, inherited, Operation, Result, ok, threw, plain_error, string_at, Resolved, path_at,
  dispatch,
}

-- The share registry's own properties.
abbrev pub Registry : Type 0
Registry = List (Text × Text)

-- How a request ends: an answer with an error, an exception out of `execute`, or the operation that
-- it goes on to perform, whose own result or error is the answer.
pub data Outcome : Type 0 where
  answered : Thrown → Outcome
  escaped : Outcome
  performs : Operation → Outcome

abbrev pub path_rejected : Outcome
path_rejected = answered (plain_error (text "Path rejected") none)

-- `this.shareRegistry[share]`.
unfoldable pub root_of : Registry → Text → Option Root
root_of registry share = elim (own registry share) [
  | some path ↦ some (at path)
  | none ↦ if is_inherited share then some inherited else none
]

-- The answers of the file system during one request.
pub record Disk : Type 0 where
  pub resolve_dst_root : Realpath
  pub resolve_field : Field → Realpath
  pub is_directory : Text → Bool

-- `none` if the request is rejected; otherwise `resolvedDstRoot`.
unfoldable pub resolve_dst : Disk → Registry → Object → Option (Option Root)
unfolding root_of
resolve_dst disk registry p = elim (string_at p (text "dst_share")) [
  | some share ↦ elim (root_of registry share) [ none ↦ none | some root ↦ some (some root) ]
  | none ↦ elim (string_at p (text "dst_root")) [
    | none ↦ some none
    | some raw ↦ elim (safe_realpath disk.resolve_dst_root raw raw) [
      | none ↦ none
      | some r ↦ if any (λ e. eq_text e.1 r) registry then some (some (at r)) else none
    ]
  ]
]

-- The properties of `params`; `none` if reading one throws. A value that is no object has none.
unfoldable pub properties : Value → Option Object
unfolding entries
properties undefined = none
properties null = none
properties (obj fs) = some (entries fs)
properties _ = some []

-- An element of `pathsToValidate`.
pub record Check : Type 0 where
  pub field : Field
  pub rel_path : Text
  pub boundary_root : Root

abbrev check_of : Field → Option Text → Root → List Check → List Check
check_of f none root rest = rest
check_of f (some rel) root rest = record { field = f; rel_path = rel; boundary_root = root } ∷ rest

unfoldable pub paths_to_validate : Object → Root → Root → List Check
paths_to_validate p root dst_root =
    check_of relative_path (string_at p (text "relative_path")) root (
      check_of src_relative_path (string_at p (text "src_relative_path")) root
        (check_of dst_relative_path (string_at p (text "dst_relative_path")) dst_root []))

abbrev path_filtered : Text → Outcome
path_filtered rel =
    answered
      (record (plain_error (text "Path is blocked by a path filter: " ++ rel)
        (some (text "PATH_FILTERED"))) { path = some rel })

pub data Checked : Type 0 where
  passes : Text → Checked
  stops : Outcome → Checked

pub data Validated : Type 0 where
  all_pass : Resolved → Validated
  stops : Outcome → Validated

-- `resolvedDstRoot ?? root`.
abbrev pub or_else : Option Root → Root → Root
or_else none root = root
or_else (some r) root = r

-- The root that a field's path must lie in.
abbrev pub root_for : Root → Root → Field → Root
root_for root dst_root relative_path = root
root_for root dst_root src_relative_path = root
root_for root dst_root dst_relative_path = dst_root

abbrev pub is_root : Root → Text → Bool
is_root inherited path = false
is_root (at r) path = eq_text path r

abbrev pub is_root? : Root → Option Text → Bool
is_root? root none = false
is_root? root (some path) = is_root root path

abbrev pub is_absent : Option Text → Bool
is_absent none = true
is_absent (some path) = false

module _ (engine : Engine) (disk : Disk) (filters : List Text) where
  -- One round of the loop over the paths. `join` throws on a root that is no path.
  unfoldable pub check_path : Check → Checked
  check_path c = elim c.boundary_root [
    | inherited ↦ stops escaped
    | at root ↦ elim (safe_realpath (disk.resolve_field c.field) (join root c.rel_path) root) [
      | none ↦ stops path_rejected
      | some resolved ↦
          if not (is_inside root resolved)
          then stops path_rejected
          else if blocks engine filters resolved
          then stops (path_filtered c.rel_path)
          else passes resolved
    ]
  ]

  unfoldable pub validate : List Check → Validated
  validate [] = all_pass []
  validate (c ∷ cs) = elim (check_path c) [
    | stops o ↦ Validated.stops o
    | passes resolved ↦ elim (validate cs) [
      | stops o ↦ Validated.stops o
      | all_pass rest ↦ all_pass ((c.field, resolved) ∷ rest)
    ]
  ]

  module _ (max_file_size_kb : ℕ) (root dst_root : Root) (p : Object) (resolved : Resolved) where
    unfoldable pub run_tool : Tool → Text → Outcome
    run_tool tool name =
        elim (dispatch max_file_size_kb root dst_root p resolved filters disk.is_directory tool
          name) [ ok op ↦ performs op | threw e ↦ answered (build_error e) ]

    -- The check that the fields which the tool needs are there.
    unfoldable pub check_required : Tool → Text → Outcome
    check_required tool name = elim (required_resolved_fields tool) [
      | not_iterable ↦ escaped
      | absent ↦ run_tool tool name
      | fields fs ↦
          if any (λ f. is_absent (path_at resolved f)) fs then path_rejected else run_tool tool name
    ]

    -- The check that no mutation targets the root of a share, and what follows.
    unfoldable pub check_mutation : Tool → Text → Outcome
    check_mutation tool name = elim (mutation_root_fields tool) [
      | not_iterable ↦ escaped
      | absent ↦ check_required tool name
      | fields fs ↦
          if any (λ f. is_root? (root_for root dst_root f) (path_at resolved f)) fs
          then path_rejected
          else check_required tool name
    ]

  unfoldable pub execute : (max_file_size_kb : ℕ) → Registry → (tool share : Text) → Value → Outcome
  execute max registry tool share params = elim (root_of registry share) [
    | none ↦ path_rejected
    | some root ↦ elim (properties params) [
      | none ↦ escaped
      | some p ↦ elim (resolve_dst disk registry p) [
        | none ↦ path_rejected
        | some dst ↦ elim (validate (paths_to_validate p root (or_else dst root))) [
          | stops o ↦ o
          | all_pass resolved ↦
              check_mutation max root (or_else dst root) p resolved (tool_named tool) tool
        ]
      ]
    ]
  ]
