-- ===== src/Shared/Executor/Tool.antt =====
-- packages/shared/src/executor/index.ts: the tools by name, and the tables of their path fields.
use constellation_mcp.Prelude.{Bool, true, false, List, [], ◌∷◌, if◌then◌else◌}
use constellation_mcp.Prelude.Text.{Text, text, eq_text}
use constellation_mcp.Shared.Json.{is_inherited}

pub data Tool : Type 0 where
  list_directory file_info find_files read_file grep_files write_file edit_file copy : Tool
  create_directory delete move : Tool
  -- Any other name; the first are those under which every object inherits a property.
  inherited_name other_name : Tool

tool_among : List (Text × Tool) → Text → Tool
tool_among [] name = if is_inherited name then inherited_name else other_name
tool_among ((known, tool) ∷ rest) name = if eq_text name known then tool else tool_among rest name

unfoldable pub tool_named : Text → Tool
unfolding tool_among eq_text is_inherited
tool_named = tool_among (
    (text "list_directory", list_directory)
    ∷ (text "file_info", file_info)
    ∷ (text "find_files", find_files)
    ∷ (text "read_file", read_file)
    ∷ (text "grep_files", grep_files)
    ∷ (text "write_file", write_file)
    ∷ (text "edit_file", edit_file)
    ∷ (text "copy", copy)
    ∷ (text "create_directory", create_directory)
    ∷ (text "delete", delete)
    ∷ (text "move", move)
    ∷ [])

pub data Field : Type 0 where
  relative_path src_relative_path dst_relative_path : Field

unfoldable pub same_field : Field → Field → Bool
same_field relative_path relative_path = true
same_field src_relative_path src_relative_path = true
same_field dst_relative_path dst_relative_path = true
same_field _ _ = false

-- What `TABLE[tool]` is: absent, a list, or an inherited property, which no loop can run over.
pub data Entry : Type 0 where
  absent not_iterable : Entry
  fields : List Field → Entry

abbrev one : Entry
one = fields (relative_path ∷ [])

abbrev two : Entry
two = fields (src_relative_path ∷ dst_relative_path ∷ [])

-- `MUTATION_ROOT_FIELDS[tool]`.
unfoldable pub mutation_root_fields : Tool → Entry
mutation_root_fields write_file = one
mutation_root_fields edit_file = one
mutation_root_fields create_directory = one
mutation_root_fields delete = one
mutation_root_fields move = two
mutation_root_fields copy = two
mutation_root_fields inherited_name = not_iterable
mutation_root_fields _ = absent

-- `REQUIRED_RESOLVED_FIELDS[tool]`.
unfoldable pub required_resolved_fields : Tool → Entry
required_resolved_fields file_info = one
required_resolved_fields read_file = one
required_resolved_fields write_file = one
required_resolved_fields edit_file = one
required_resolved_fields create_directory = one
required_resolved_fields delete = one
required_resolved_fields copy = two
required_resolved_fields move = two
required_resolved_fields inherited_name = not_iterable
required_resolved_fields _ = absent
