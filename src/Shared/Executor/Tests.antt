-- ===== src/Shared/Executor/Tests.antt =====
-- packages/shared/src/executor/index.ts: examples of the filters of an envelope.
use constellation_mcp.Prelude.{◌≡◌, ◌≤◌, ◌↔◌, [], ◌∷◌, some, length}
use constellation_mcp.Prelude.Text.{text}
use constellation_mcp.Shared.Json.{str, num, arr, from_list, texts}
use constellation_mcp.Shared.Executor.Filters.{
  max_envelope_path_filters, parse_path_filters, parse_path_filters_iff,
}

-- An element that is no text makes the whole list unusable.
parse_path_filters_iff_example :
    (parse_path_filters (arr (from_list (str (text "x") ∷ num 1 ∷ []))) ≡ some (text "x" ∷ [])) ↔ (
      (arr (from_list (str (text "x") ∷ num 1 ∷ [])) ≡ arr (texts (text "x" ∷ [])))
      × (length (text "x" ∷ []) ≤ max_envelope_path_filters))
parse_path_filters_iff_example =
    parse_path_filters_iff (arr (from_list (str (text "x") ∷ num 1 ∷ []))) (text "x" ∷ [])
