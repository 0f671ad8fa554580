-- ===== src/Relay/RateLimit/Tests.antt =====
-- packages/relay/src/router.ts: examples of the rate limits.
use constellation_mcp.Prelude.{ℕ, ◌≤◌, ◌≡◌, List, [], ◌∷◌, arith}
use constellation_mcp.Prelude.Text.{text}
use constellation_mcp.Relay.RateLimit.{Limits, start}
use constellation_mcp.Relay.RateLimit.Spec.{
  Event, tool_call, prune, run, spec_run, tool_bucket, limit_of,
}
use constellation_mcp.Relay.RateLimit.Refines.{IsMonotone, run_lem}
use constellation_mcp.Relay.RateLimit.Bound.{granted, granted-le-limit}

abbrev limits : Limits
limits = record { tool_calls = 2; expensive_tools = 1; mcp_requests = 5 }

abbrev read_by_ann : Event
read_by_ann = tool_call (text "ann") (text "read_file") []

-- The third call within a minute is refused, and the one a minute after the first is not.
abbrev calls : List (ℕ × Event)
calls =
    (1000, read_by_ann)
    ∷ (2000, read_by_ann)
    ∷ (3000, read_by_ann)
    ∷ (4000, prune)
    ∷ (61000, read_by_ann)
    ∷ []

calls-IsMonotone : IsMonotone 0 calls
calls-IsMonotone = ground arith

run_lem_example : run limits start calls ≡ spec_run limits [] calls
run_lem_example = run_lem limits calls calls-IsMonotone

granted-le-limit_example :
    granted tool_bucket (text "ann") 1000 calls (run limits start calls)
    ≤ limit_of limits tool_bucket
granted-le-limit_example =
    granted-le-limit limits calls tool_bucket (text "ann") 1000 calls-IsMonotone
