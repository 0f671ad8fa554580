-- ===== src/Shared/EnvFile.antt =====
-- packages/shared/src/env-file.ts: a variable's value is written to an env file and read back. What
-- `readFileSync` gives is an argument, and the text of the rewritten file is a value of the result.
pub mod Assignment
pub mod RoundTrip
pub mod Tests
use constellation_mcp.Prelude.{
  ℕ, Bool, true, false, not, ◌&&◌, ◌||◌, List, [], ◌∷◌, ◌++◌, Option, none, some, if◌then◌else◌,
  any, all, ◌==◌,
}
use constellation_mcp.Prelude.Text.{Text, text, join_with}
use constellation_mcp.Prelude.Strings.{between, is_digit, trim, trim_start, split_on}

-- `[A-Z_]`.
unfoldable pub is_key_start : ℕ → Bool
is_key_start c = between b'A' b'Z' c || c == b'_'

unfoldable pub is_key_part : ℕ → Bool
is_key_part c = is_key_start c || is_digit c

-- `ENV_KEY.test(key)`.
unfoldable pub is_env_key : Text → Bool
is_env_key [] = false
is_env_key (c ∷ s) = is_key_start c && all is_key_part s

-- `FORBIDDEN_IN_VALUE.test(value)`.
unfoldable pub is_forbidden : Text → Bool
is_forbidden value = any (λ c. c == 0xd || (c == 0xa || c == 0x0)) value

-- What `.` does not match.
unfoldable pub is_line_end : ℕ → Bool
is_line_end c = c == 0xa || (c == 0xd || (c == 0x2028 || c == 0x2029))

unfoldable pub skip_equals : Text → Option Text
skip_equals [] = none
skip_equals (c ∷ s) = if c == b'=' then some s else none

-- What follows `key\s*=` at the start of the text.
unfoldable pub after_key : Text → Text → Option Text
after_key [] s = skip_equals (trim_start s)
after_key (k ∷ ks) [] = none
after_key (k ∷ ks) (c ∷ s) = if k == c then after_key ks s else none

-- What follows `^\s*key\s*=` in the line.
unfoldable pub assigned : Text → Text → Option Text
assigned key line = after_key key (trim_start line)

unfoldable pub last_is : ℕ → Text → Bool
last_is q [] = false
last_is q (c ∷ []) = c == q
last_is q (c ∷ d ∷ s) = last_is q (d ∷ s)

-- `/^(["']).*\1$/.test(raw)`.
unfoldable pub is_quoted : Text → Bool
is_quoted [] = false
is_quoted (q ∷ s) = (q == 0x22 || q == 0x27) && (last_is q s && not (any is_line_end s))

unfoldable pub without_last : Text → Text
without_last [] = []
without_last (c ∷ []) = []
without_last (c ∷ d ∷ s) = c ∷ without_last (d ∷ s)

-- `raw.slice(1, -1)`.
unfoldable pub between_quotes : Text → Text
between_quotes [] = []
between_quotes (q ∷ s) = without_last s

unfoldable pub dequoted : Text → Text
dequoted raw = if is_quoted raw then between_quotes raw else raw

-- What the file holds as a value, from what follows the `=`; `(.*)$` goes to the end of the line.
unfoldable pub value_of : Option Text → Option Text
value_of none = none
value_of (some rest) = if any is_line_end rest then none else some (dequoted (trim rest))

abbrev pub or_value : Option Text → Option Text → Option Text
or_value none value = value
or_value (some v) value = some v

-- The loop of `readEnvFileValue`.
unfoldable pub latest : Text → Option Text → List Text → Option Text
latest key value [] = value
latest key value (l ∷ ls) = latest key (or_value (value_of (assigned key l)) value) ls

-- What reading the file gives; `missing` is ENOENT.
pub data Contents : Type 0 where
  missing : Contents
  fails : Contents
  holds : Text → Contents

pub data Read : Type 0 where
  read_throws : Read
  reads : Option Text → Read

unfoldable pub read_contents : Text → Contents → Read
read_contents key missing = reads none
read_contents key fails = read_throws
read_contents key (holds t) = reads (latest key none (split_on 0xa t))

unfoldable pub read_env_file_value : Text → Contents → Read
read_env_file_value key contents =
    if not (is_env_key key) then read_throws else read_contents key contents

unfoldable pub assignment : Text → Text → Text
assignment key value = key ++ (b'=' ∷ value)

abbrev pub is_assigned : Option Text → Bool
is_assigned none = false
is_assigned (some rest) = true

-- The loop of `writeEnvFileValue`, with the assignment that is appended if there was none.
unfoldable pub replace_lines : Text → Text → (replaced : Bool) → List Text → List Text
replace_lines key value replaced [] = if replaced then [] else assignment key value ∷ []
replace_lines key value replaced (l ∷ ls) =
    let here = is_assigned (assigned key l) in
    let rest = replace_lines key value (replaced || here) ls in
    if not here then l ∷ rest else if replaced then rest else assignment key value ∷ rest

-- The lines without an empty one at the end.
unfoldable pub pop_empty : List Text → List Text
pop_empty [] = []
pop_empty ([] ∷ []) = []
pop_empty ((c ∷ s) ∷ []) = (c ∷ s) ∷ []
pop_empty (l ∷ m ∷ ls) = l ∷ pop_empty (m ∷ ls)

pub data Written : Type 0 where
  write_throws : Written
  writes : Text → Written

abbrev rewritten : Text → Text → List Text → Written
rewritten key value lines =
    writes (join_with (text "\n") (replace_lines key value false lines) ++ text "\n")

unfoldable pub write_contents : Text → Text → Contents → Written
write_contents key value missing = rewritten key value []
write_contents key value fails = write_throws
write_contents key value (holds t) = rewritten key value (pop_empty (split_on 0xa t))

-- Up to the atomic replacement of the file.
unfoldable pub write_env_file_value : Text → Text → Contents → Written
write_env_file_value key value contents =
    if not (is_env_key key)
    then write_throws
    else if is_forbidden value
    then write_throws
    else write_contents key value contents
