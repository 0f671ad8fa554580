-- ===== src/Shared/Executor/Errors.antt =====
-- packages/shared/src/executor/index.ts: what an executor says of an error that was thrown.
use constellation_mcp.Prelude.{ℕ, Bool, List, [], ◌∷◌, Option, none, some, if◌then◌else◌, any}
use constellation_mcp.Prelude.Text.{Text, text, eq_text}

-- The fields of a thrown `Error` that are read.
pub record Thrown : Type 0 where
  pub message : Text
  pub code : Option Text
  pub edit_index : Option ℕ
  pub match_count : Option ℕ
  pub read_size_kb : Option ℕ
  pub write_size_kb : Option ℕ
  pub max_file_size_kb : Option ℕ
  pub path : Option Text

abbrev pub known_codes : List Text
known_codes =
    text "FILE_TOO_LARGE"
    ∷ text "READ_TOO_LARGE"
    ∷ text "WRITE_TOO_LARGE"
    ∷ text "EDIT_NO_MATCH"
    ∷ text "EDIT_AMBIGUOUS"
    ∷ text "DEST_EXISTS"
    ∷ text "MOVE_INCOMPLETE"
    ∷ text "SRC_IS_SYMLINK"
    ∷ text "PATH_FILTERED"
    ∷ text "FILTERED_DIRECTORY_OP"
    ∷ text "INVALID_PATTERN"
    ∷ []

-- `KNOWN_CODES.has(e.code ?? "")`.
pub is_known : Option Text → Bool
is_known none = any (eq_text []) known_codes
is_known (some code) = any (eq_text code) known_codes

-- What crosses to the caller has the same fields.
unfoldable pub build_error : Thrown → Thrown
build_error e = if is_known e.code then e else record {
  message = text "Operation failed";
  code = e.code;
  edit_index = none;
  match_count = none;
  read_size_kb = none;
  write_size_kb = none;
  max_file_size_kb = none;
  path = none;
}
