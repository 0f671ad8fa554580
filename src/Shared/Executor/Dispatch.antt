-- ===== src/Shared/Executor/Dispatch.antt =====
-- packages/shared/src/executor/index.ts: the operation that a validated request performs.
use constellation_mcp.Prelude.{
  ℕ, Bool, ◌&&◌, List, [], ◌∷◌, ◌++◌, Option, none, some, if◌then◌else◌,
}
use constellation_mcp.Prelude.Text.{Text, text}
use constellation_mcp.Shared.Json.{Value, bool, num, str, arr, values, Object, own}
use constellation_mcp.Shared.PathFilter.{active}
use constellation_mcp.Shared.Executor.Tool.{
  Tool, Field, relative_path, src_relative_path, dst_relative_path, same_field,
}
use constellation_mcp.Shared.Executor.Errors.{Thrown}

-- A value of the share registry: a path, or a property that the registry inherits.
pub data Root : Type 0 where
  at : Text → Root
  inherited : Root

-- A call of a function of `tools/`, with its arguments; `filters` are the sources of the path filter.
pub data Operation : Type 0 where
  list_directory :
      (root path : Root)
      → Option Bool
      → Option ℕ
      → Option ℕ
      → Option (List Text)
      → (filters : List Text) → Operation
  file_info : (path : Text) (root : Root) → Operation
  find_files : (root path : Root) → Text → Option Value → (filters : List Text) → Operation
  read_file : (path : Text) (root : Root) → Option ℕ → Option ℕ → ℕ → Operation
  grep_files :
      (root path : Root) → Text → Option Text → Option Value → (filters : List Text) → Operation
  write_file : (path : Text) (root : Root) → Text → Option Value → ℕ → Operation
  edit_file : (path : Text) (root : Root) → Text → Option Value → Option Bool → ℕ → Operation
  copy move : (src dst : Text) (root dst_root : Root) → Text → Operation
  create_directory : (path : Text) (root : Root) → Operation
  delete : (path : Text) (root : Root) → Text → Option Bool → Operation

-- Either the value or the error that was thrown.
pub data Result {ℓ} (A : Type ℓ) : Type ℓ where
  ok : A → Result A
  threw : Thrown → Result A

infixl 5 ◌>>=◌
abbrev pub ◌>>=◌ {ℓ κ} : {A : Type ℓ} {B : Type κ} → Result A → (A → Result B) → Result B
ok a >>= f = f a
threw e >>= f = threw e

pub plain_error : Text → Option Text → Thrown
plain_error message code = record {
  message = message;
  code = code;
  edit_index = none;
  match_count = none;
  read_size_kb = none;
  write_size_kb = none;
  max_file_size_kb = none;
  path = none;
}

-- `s`, `req`, `n`, `b` and `arr`: a parameter at the type that is wanted.
abbrev as_string : Option Value → Option Text
as_string (some (str v)) = some v
as_string _ = none

unfoldable pub string_at : Object → Text → Option Text
string_at p key = as_string (own p key)

unfoldable pub required_at : Object → Text → Result Text
unfolding string_at
required_at p key = elim (string_at p key) [
  | some v ↦ ok v
  | none ↦ threw (plain_error (text "Missing required parameter: " ++ key) none)
]

abbrev as_number : Option Value → Option ℕ
as_number (some (num v)) = some v
as_number _ = none

unfoldable pub number_at : Object → Text → Option ℕ
number_at p key = as_number (own p key)

abbrev as_boolean : Option Value → Option Bool
as_boolean (some (bool v)) = some v
as_boolean _ = none

unfoldable pub boolean_at : Object → Text → Option Bool
boolean_at p key = as_boolean (own p key)

strings : List Value → List Text
strings [] = []
strings (str v ∷ vs) = v ∷ strings vs
strings (v ∷ vs) = strings vs

abbrev as_strings : Option Value → Option (List Text)
unfolding strings
as_strings (some (arr vs)) = some (strings (values vs))
as_strings _ = none

unfoldable pub strings_at : Object → Text → Option (List Text)
unfolding strings
strings_at p key = as_strings (own p key)

-- `resolvedPaths`: a map from fields to paths.
abbrev pub Resolved : Type 0
Resolved = List (Field × Text)

unfoldable pub path_at : Resolved → Field → Option Text
unfolding same_field
path_at [] field = none
path_at ((f, p) ∷ rest) field = if same_field f field then some p else path_at rest field

-- `relPath!` and its like: an undefined path makes node:path throw.
abbrev pub asserted : Option Text → Result Text
asserted (some p) = ok p
asserted none = threw (
    plain_error (text "The \"path\" argument must be of type string.")
      (some (text "ERR_INVALID_ARG_TYPE")))

-- `path ?? root`.
abbrev pub or_root : Option Text → Root → Root
or_root none root = root
or_root (some p) root = at p

-- The path of a directory operation, which a filter may refuse.
unfoldable pub dir_op_path : Tool → Resolved → Option Text
unfolding path_at
dir_op_path Tool.delete resolved = path_at resolved relative_path
dir_op_path Tool.copy resolved = path_at resolved src_relative_path
dir_op_path Tool.move resolved = path_at resolved src_relative_path
dir_op_path _ resolved = none

-- `name` is the tool as the request names it.
pub refusal : Text → Thrown
refusal name =
    plain_error
      (text "Refused: "
        ++ (name ++ text " of a directory is not allowed on a share with path filters"))
      (some (text "FILTERED_DIRECTORY_OP"))

module _ (max_file_size_kb : ℕ) (root dst_root : Root) (p : Object) (resolved : Resolved)
    (filters : List Text) where
  -- The `switch`; `dst_root` is `resolvedDstRoot ?? root`.
  unfoldable pub switch : Tool → Text → Result Operation
  unfolding path_at string_at required_at number_at boolean_at strings_at
  switch Tool.list_directory name = ok (
      list_directory root (or_root (path_at resolved relative_path) root)
        (boolean_at p (text "recursive")) (number_at p (text "max_depth"))
        (number_at p (text "limit")) (strings_at p (text "exclude")) filters)
  switch Tool.file_info name = do
    path ← asserted (path_at resolved relative_path)
    ok (file_info path root)
  switch Tool.find_files name = do
    pattern ← required_at p (text "pattern")
    ok (
        find_files root (or_root (path_at resolved relative_path) root) pattern
          (own p (text "type")) filters)
  switch Tool.read_file name = do
    path ← asserted (path_at resolved relative_path)
    ok (
        read_file path root (number_at p (text "start_line")) (number_at p (text "end_line"))
          max_file_size_kb)
  switch Tool.grep_files name = do
    pattern ← required_at p (text "pattern")
    ok (
        grep_files root (or_root (path_at resolved relative_path) root) pattern
          (string_at p (text "file_glob")) (own p (text "type")) filters)
  switch Tool.write_file name = do
    content ← required_at p (text "content")
    path ← asserted (path_at resolved relative_path)
    ok (write_file path root content (own p (text "mode")) max_file_size_kb)
  switch Tool.edit_file name = do
    label ← required_at p (text "relative_path")
    path ← asserted (path_at resolved relative_path)
    ok (
        edit_file path root label (own p (text "edits")) (boolean_at p (text "dry_run"))
          max_file_size_kb)
  switch Tool.copy name = do
    label ← required_at p (text "dst_relative_path")
    src ← asserted (path_at resolved src_relative_path)
    dst ← asserted (path_at resolved dst_relative_path)
    ok (copy src dst root dst_root label)
  switch Tool.create_directory name = do
    path ← asserted (path_at resolved relative_path)
    ok (create_directory path root)
  switch Tool.delete name = do
    label ← required_at p (text "relative_path")
    path ← asserted (path_at resolved relative_path)
    ok (delete path root label (boolean_at p (text "recursive")))
  switch Tool.move name = do
    label ← required_at p (text "dst_relative_path")
    src ← asserted (path_at resolved src_relative_path)
    dst ← asserted (path_at resolved dst_relative_path)
    ok (move src dst root dst_root label)
  switch Tool.inherited_name name = threw (plain_error (text "Unknown tool: " ++ name) none)
  switch Tool.other_name name = threw (plain_error (text "Unknown tool: " ++ name) none)

  -- `is_directory` is `lstat`'s answer.
  unfoldable pub dispatch : (Text → Bool) → Tool → Text → Result Operation
  unfolding switch dir_op_path
  dispatch is_directory tool name = elim (dir_op_path tool resolved) [
    | none ↦ switch tool name
    | some path ↦
        if active filters && is_directory path then threw (refusal name) else switch tool name
  ]
