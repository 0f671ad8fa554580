-- ===== src/Shared/EnvFile/Tests.antt =====
-- packages/shared/src/env-file.ts: examples.
use constellation_mcp.Prelude.{◌≡◌, refl, none, some}
use constellation_mcp.Prelude.Text.{Text, text, eq_text, join_with}
use constellation_mcp.Prelude.Strings.{is_space, trim, trim_start, trim_end, split_on}
use constellation_mcp.Shared.EnvFile.{
  is_key_start, is_env_key, is_forbidden, is_line_end, skip_equals, after_key, assigned, last_is,
  is_quoted, without_last, between_quotes, dequoted, value_of, latest, Contents, holds, reads,
  read_contents, read_env_file_value, assignment, replace_lines, pop_empty, writes, write_contents,
  write_env_file_value,
}
use constellation_mcp.Shared.EnvFile.RoundTrip.{read-write_env_file_value}

abbrev env_file : Contents
env_file = holds (text "A=1\n# note\nexport B=2\n A = 'x y' \n")

abbrev env_text : Text
env_text = text "A= \"7\"\n# note\nexport B=2\n"

written : write_env_file_value (text "A") (text " \"7\"") env_file ≡ writes env_text
unfolding write_env_file_value is_env_key is_key_start is_forbidden write_contents pop_empty
    split_on replace_lines assigned after_key skip_equals trim_start is_space assignment join_with
written = refl

reads_tests :
    (read_env_file_value (text "A") env_file ≡ reads (some (text "x y")))
    × (read_env_file_value (text "A") (holds (text "A=1\r\nB=2")) ≡ reads none)
unfolding read_env_file_value is_env_key is_key_start read_contents latest split_on assigned
    after_key skip_equals trim_start trim_end trim is_space value_of is_line_end dequoted is_quoted
    last_is without_last between_quotes
reads_tests = (refl, refl)

read-write_env_file_value_example :
    read_env_file_value (text "A") (holds env_text) ≡ reads (value_of (some (text " \"7\"")))
unfolding eq_text
read-write_env_file_value_example =
    read-write_env_file_value (text "A") (text "A") (text " \"7\"") env_file env_text written
