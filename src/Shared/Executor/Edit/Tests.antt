-- ===== src/Shared/Executor/Edit/Tests.antt =====
-- packages/shared/src/executor/tools/fs-edit.ts: examples.
use constellation_mcp.Prelude.{◌≡◌, ◌↔◌, refl, true, false, List, [], ◌∷◌, ◌++◌, some, length, Bool}
use constellation_mcp.Prelude.Text.{Text, text}
use constellation_mcp.Shared.Executor.Edit.{
  Edit, EditFileParams, strip_prefix, cut, count_from, count_occurrences, replace_first,
  edit_no_match, path_rejected, returns, throws, apply_edits, byte_length, exceeds, edit_file,
  Write, stores, not_written,
}
use constellation_mcp.Shared.Executor.Edit.Occurrences.{Count, count_occurrences_iff}
use constellation_mcp.Shared.Executor.Edit.Applied.{Edits, apply_edits_iff}
use constellation_mcp.Shared.Executor.Edit.Fails.{Fails, apply_edits_error}
use constellation_mcp.Shared.Executor.Edit.Written.{Makes, edit_file_iff}

abbrev edit : Text → Text → Edit
edit old new = record { old_text = old; new_text = new }

abbrev edits : List Edit
edits = edit (text "b") (text "cc") ∷ edit (text "a") [] ∷ []

abbrev params : List Edit → Bool → EditFileParams
params es dry = record { edits = es; dry_run = dry; max_file_size_kb = some 1 }

abbrev patch : Text → Text → Text → Text
patch name before after = name ++ after

-- Occurrences that overlap count once.
edit_tests :
    (count_occurrences (text "aaa") (text "aa") ≡ 1)
    × (count_occurrences (text "aaaa") (text "aa") ≡ 2)
    × (count_occurrences (text "ab") [] ≡ 0)
    × (apply_edits 0 edits (text "xab") ≡ returns (text "xcc"))
    × (apply_edits 0 edits (text "xb") ≡ throws (edit_no_match 1))
    × (byte_length (text "aé€😀") ≡ 10)
    × (byte_length (0xd83d ∷ 0x61 ∷ []) ≡ 4)
unfolding count_occurrences count_from cut strip_prefix apply_edits replace_first byte_length
edit_tests = (refl, refl, refl, refl, refl, refl, refl)

count_occurrences_iff_example :
    (count_occurrences (text "aaaa") (text "aa") ≡ 2) ↔ Count (text "aa") (text "aaaa") 2
count_occurrences_iff_example = count_occurrences_iff (text "aaaa") (text "aa") 2 λ e. cc e

apply_edits_iff_example :
    (apply_edits 0 edits (text "xab") ≡ returns (text "xcc"))
    ↔ Edits edits (text "xab") (text "xcc")
apply_edits_iff_example = apply_edits_iff 0 edits (text "xab") (text "xcc")

absent : apply_edits 0 edits (text "xb") ≡ throws (edit_no_match 1)
absent = edit_tests.4

apply_edits_error_example :
    (before : List Edit) × (e : Edit) × (after : List Edit) × (u : Text) × (edits
      ≡ before ++ (e ∷ after))
    × Edits before (text "xb") u
    × Fails e u (length before) (edit_no_match 1)
apply_edits_error_example = apply_edits_error edits (text "xb") (edit_no_match 1) absent

-- A write that stores all.
abbrev stored : Text → Write
stored content = stores content true

edit_file_iff_example :
    (edit_file patch true (some (text "xab")) stored (text "f") (params edits false)
      ≡ (some (text "xcc"), returns (text "fxcc")))
    ↔ ((after : Text) × Makes patch true
          (some (text "xab"))
          stored
          (text "f")
          (params edits false)
          after
          (text "fxcc")
        × (stored after ≡ stores (text "xcc") true))
edit_file_iff_example =
    edit_file_iff patch true (some (text "xab")) stored (text "f") (params edits false) (text "xcc")
      (text "fxcc")

-- The path is not stable; and a write that fails after the truncation leaves the file empty.
outcome_tests :
    ((edit_file patch false (some (text "xab")) stored (text "f") (params edits false)).1
      ≡ throws path_rejected)
    × (edit_file patch true
          (some (text "xab"))
          (λ content. stores [] false)
          (text "f")
          (params edits false)
        ≡ (some [], throws not_written))
unfolding edit_file apply_edits count_occurrences count_from cut strip_prefix replace_first exceeds
    byte_length
outcome_tests = (refl, refl)
