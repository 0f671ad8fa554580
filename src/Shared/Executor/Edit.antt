-- ===== src/Shared/Executor/Edit.antt =====
-- packages/shared/src/executor/tools/fs-edit.ts: `editFile` and `countOccurrences`.
pub mod Occurrences
pub mod Applied
pub mod Fails
pub mod Written
pub mod Tests
use constellation_mcp.Prelude.{
  ℕ, zero, suc, ◌+◌, ◌*◌, ◌/◌, Bool, true, false, not, ◌&&◌, List, [], ◌∷◌, ◌++◌, Option, none,
  some, if◌then◌else◌, length, ltb, ◌==◌,
}
use constellation_mcp.Prelude.Text.{Text}

pub record Edit : Type 0 where
  pub old_text : Text
  pub new_text : Text

pub record EditFileParams : Type 0 where
  pub edits : List Edit
  pub dry_run : Bool
  pub max_file_size_kb : Option ℕ

-- What is after the prefix, if it is one.
pub strip_prefix : Text → Text → Option Text
strip_prefix [] s = some s
strip_prefix (p ∷ ps) [] = none
strip_prefix (p ∷ ps) (c ∷ s) = if p == c then strip_prefix ps s else none

-- `indexOf`, as the text before the first occurrence and the text after it.
pub cut : (needle : Text) → (haystack : Text) → Option (Text × Text)
unfolding strip_prefix
cut needle [] = elim (strip_prefix needle []) [ none ↦ none | some post ↦ some ([], post) ]
cut needle (c ∷ s) =
    let later = cut needle s in
    elim (strip_prefix needle (c ∷ s)) [
      | some post ↦ some ([], post)
      | none ↦ elim later [ none ↦ none | some r ↦ some (c ∷ r.0, r.1) ]
    ]

-- The loop, from a position on.
pub count_from : ℕ → (needle : Text) → (haystack : Text) → ℕ
count_from zero needle s = 0
count_from (suc fuel) needle s = elim (cut needle s) [
  | none ↦ 0
  | some r ↦ suc (count_from fuel needle r.1)
]

pub count_occurrences : (haystack : Text) → (needle : Text) → ℕ
unfolding count_from
count_occurrences s [] = 0
count_occurrences s (c ∷ needle) = count_from (suc (length s)) (c ∷ needle) s

-- `replace`, whose replacement is a function, so that it has no patterns.
pub replace_first : Text → (old : Text) → (new : Text) → Text
replace_first s old new = elim (cut old s) [ none ↦ s | some r ↦ r.0 ++ (new ++ r.1) ]

pub data Thrown : Type 0 where
  path_rejected not_read : Thrown
  edit_no_match : (edit_index : ℕ) → Thrown
  edit_ambiguous : (edit_index match_count : ℕ) → Thrown
  write_too_large : (write_size_kb max_file_size_kb : ℕ) → Thrown
  not_truncated not_written : Thrown

pub data Outcome : Type 0 where
  returns : Text → Outcome
  throws : Thrown → Outcome

-- The loop over the edits, from the edit with the index `i` on.
pub apply_edits : ℕ → List Edit → Text → Outcome
unfolding count_occurrences replace_first
apply_edits i [] content = returns content
apply_edits i (e ∷ es) content =
    let count = count_occurrences content e.old_text in
    let rest = apply_edits (suc i) es (replace_first content e.old_text e.new_text) in
    if count == 0
    then throws (edit_no_match i)
    else if ltb 1 count
    then throws (edit_ambiguous i count)
    else rest

abbrev is_high : ℕ → Bool
is_high c = not (ltb c 0xd800) && ltb c 0xdc00

abbrev is_low : ℕ → Bool
is_low c = not (ltb c 0xdc00) && ltb c 0xe000

-- The bytes of a code unit; those of a surrogate pair are 3 and 1, and a lone one has 3.
unit_bytes : (after_high : Bool) → ℕ → ℕ
unit_bytes after_high c =
    if after_high && is_low c then 1 else if ltb c 0x80 then 1 else if ltb c 0x800 then 2 else 3

bytes_from : Bool → Text → ℕ
unfolding unit_bytes
bytes_from after_high [] = 0
bytes_from after_high (c ∷ s) = unit_bytes after_high c + bytes_from (is_high c) s

-- `Buffer.byteLength(content, "utf8")`.
pub byte_length : Text → ℕ
unfolding bytes_from
byte_length s = bytes_from false s

pub exceeds : Option ℕ → Text → Option Thrown
unfolding byte_length
exceeds none content = none
exceeds (some max) content =
    if ltb (max * 1024) (byte_length content)
    then some (write_too_large ((byte_length content + 1023) / 1024) max)
    else none

-- What `handle.truncate` and `handle.write` do: the first may throw; after it the file holds what the
-- second has written so far, which may be less than it was given, and the second returns or throws.
pub data Write : Type 0 where
  truncate_throws : Write
  stores : (held : Text) → (write_returns : Bool) → Write

-- What the file then holds, if it was changed, and how the call ends.
abbrev pub written : Write → Text → Option Text × Outcome
written truncate_throws diff = (none, throws not_truncated)
written (stores held true) diff = (some held, returns diff)
written (stores held false) diff = (some held, throws not_written)

-- `create_patch` is the diff of the library; `stable` is whether `assertPathStable` returns, and
-- `original` is what is read, `none` if the file is not opened or not read; `write` is what comes of
-- the content that is written. With the outcome is what the file holds, if it was changed.
pub edit_file :
    (create_patch : Text → Text → Text → Text)
    → (stable : Bool) → (original : Option Text) → (write : Text → Write) → (display_path : Text)
    → EditFileParams
    → Option Text × Outcome
unfolding apply_edits exceeds
edit_file create_patch stable original write display_path params =
    if not stable then (none, throws path_rejected) else elim original [
      | none ↦ (none, throws not_read)
      | some before ↦ elim (apply_edits 0 params.edits before) [
        | throws t ↦ (none, throws t)
        | returns after ↦
            let diff = create_patch display_path before after in
            if params.dry_run
            then (none, returns diff)
            else elim (exceeds params.max_file_size_kb after) [
              | some t ↦ (none, throws t)
              | none ↦ written (write after) diff
            ]
      ]
    ]
