-- ===== src/Shared/Executor/Execute/Tests.antt =====
-- packages/shared/src/executor/index.ts: examples of requests.
use constellation_mcp.Prelude.{◌≡◌, refl, false, List, [], ◌∷◌, none}
use constellation_mcp.Prelude.Text.{Text, text, eq_text, starts_with}
use constellation_mcp.Shared.Json.{Value, own, entries, obj, str, field, end}
use constellation_mcp.Shared.NodePath.{join}
use constellation_mcp.Shared.PathFilter.{
  blocks, compile_all, blocks_from, parent, last_slash, active,
}
use constellation_mcp.Shared.Executor.Tool.{
  tool_named, mutation_root_fields, required_resolved_fields,
}
use constellation_mcp.Shared.PathFilter.Tests.{literals}
use constellation_mcp.Shared.Executor.SafePath.{found, safe_realpath, resolve, is_inside}
use constellation_mcp.Shared.Executor.Dispatch.{
  Root, at, Operation, read_file, string_at, number_at, dispatch, dir_op_path, switch, path_at,
}
use constellation_mcp.Shared.Executor.Execute.{
  Registry, performs, path_rejected, Disk, execute, root_of, properties, resolve_dst,
  paths_to_validate, validate, check_path, check_mutation, check_required, run_tool,
}
use constellation_mcp.Shared.Executor.Execute.Operations.{MayPerform}
use constellation_mcp.Shared.Executor.Execute.Safe.{IsRootOf, IsDestination, execute_lem}

-- A disk without links, on which every path exists.
abbrev disk : Disk
disk = record {
  resolve_dst_root = λ depth path. found path;
  resolve_field = λ f depth path. found path;
  is_directory = λ path. false;
}

abbrev registry : Registry
registry = (text "docs", text "/srv/docs") ∷ []

abbrev filters : List Text
filters = text "/srv/docs/.git" ∷ []

abbrev params : Text → Value
params path = obj (field (text "relative_path") (str path) end)

abbrev read_note : Operation
read_note = read_file (text "/srv/docs/note.md") (at (text "/srv/docs")) none none 100

performs_read :
    execute literals disk filters 100 registry
      (text "read_file")
      (text "docs")
      (params (text "note.md"))
    ≡ performs read_note
unfolding execute root_of own eq_text properties entries resolve_dst string_at paths_to_validate
    validate check_path safe_realpath resolve is_inside starts_with join blocks compile_all
    blocks_from parent last_slash active check_mutation mutation_root_fields check_required
    required_resolved_fields run_tool dispatch dir_op_path switch path_at number_at tool_named
performs_read = refl

escape_rejected :
    execute literals disk filters 100 registry
      (text "read_file")
      (text "docs")
      (params (text "../x"))
    ≡ path_rejected
unfolding execute root_of own eq_text properties entries resolve_dst string_at paths_to_validate
    validate check_path safe_realpath resolve is_inside starts_with join blocks compile_all
    blocks_from parent last_slash active check_mutation mutation_root_fields check_required
    required_resolved_fields run_tool dispatch dir_op_path switch path_at number_at tool_named
escape_rejected = refl

execute_lem_example :
    (root dst : Root) × IsRootOf registry (text "docs") root
    × IsDestination registry root dst
    × MayPerform literals filters disk.is_directory root dst read_note
execute_lem_example =
    execute_lem literals disk filters 100 registry (text "read_file") (text "docs")
      (params (text "note.md")) read_note performs_read
