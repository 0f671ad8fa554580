-- ===== src/Relay/RateLimit/Spec.antt =====
-- The rate limits as a specification: every admitted call is remembered, and a call is admitted if
-- fewer than the limit were admitted to the same bucket in the last minute.
use constellation_mcp.Prelude.{
  ℕ, ◌+◌, Bool, true, false, ◌&&◌, List, [], ◌∷◌, Option, none, some, ltb, if◌then◌else◌,
}
use constellation_mcp.Prelude.Text.{Text, eq_text}
use constellation_mcp.Shared.Json.{Object}
use constellation_mcp.Relay.RateLimit.{
  Limits, State, ToolClass, standard, expensive, classify_tool, check_tool_rate_limit,
  check_mcp_request_rate_limit, should_log_rate_limited, prune_rate_limits, fresh,
}

-- One for each map of the module.
pub data Bucket : Type 0 where
  tool_bucket expensive_bucket request_bucket logged_bucket : Bucket

unfoldable pub same_bucket : Bucket → Bucket → Bool
same_bucket tool_bucket tool_bucket = true
same_bucket expensive_bucket expensive_bucket = true
same_bucket request_bucket request_bucket = true
same_bucket logged_bucket logged_bucket = true
same_bucket _ _ = false

pub record Admitted : Type 0 where
  pub bucket : Bucket
  pub user : Text
  pub at : ℕ

-- Newest first.
abbrev pub Log : Type 0
Log = List Admitted

-- How many calls of the user the bucket admitted in the minute before `now`.
unfoldable pub admitted : Bucket → Text → ℕ → Log → ℕ
admitted b user now [] = 0
admitted b user now (a ∷ log) =
    (if same_bucket a.bucket b && (eq_text a.user user && fresh now a.at) then 1 else 0)
    + admitted b user now log

-- An activity event about limited calls is written at most once a minute.
unfoldable pub limit_of : Limits → Bucket → ℕ
limit_of limits tool_bucket = limits.tool_calls
limit_of limits expensive_bucket = limits.expensive_tools
limit_of limits request_bucket = limits.mcp_requests
limit_of limits logged_bucket = 1

pub data Event : Type 0 where
  tool_call : (user tool : Text) → Object → Event
  mcp_request rate_limited : (user : Text) → Event
  prune : Event

abbrev pub bucket_of : ToolClass → Bucket
bucket_of standard = tool_bucket
bucket_of expensive = expensive_bucket

-- What the event asks for; `none` is no question.
unfoldable pub asks : Event → Option (Bucket × Text)
asks (tool_call user tool params) = some (bucket_of (classify_tool tool params), user)
asks (mcp_request user) = some (request_bucket, user)
asks (rate_limited user) = some (logged_bucket, user)
asks prune = none

unfoldable pub admit : Limits → Log → ℕ → Bucket → Text → Log × Bool
admit limits log now b user =
    if ltb (admitted b user now log) (limit_of limits b)
    then (record { bucket = b; user = user; at = now } ∷ log, true)
    else (log, false)

unfoldable pub spec_step : Limits → Log → ℕ → Event → Log × Bool
spec_step limits log now e = elim (asks e) [
  | none ↦ (log, true)
  | some (b, user) ↦ admit limits log now b user
]

-- The same step with the module's functions.
unfoldable pub step : Limits → State → ℕ → Event → State × Bool
step limits s now (tool_call user tool params) = check_tool_rate_limit limits s user tool params now
step limits s now (mcp_request user) = check_mcp_request_rate_limit limits s user now
step limits s now (rate_limited user) = should_log_rate_limited s user now
step limits s now prune = (prune_rate_limits s now, true)

-- The answers to a sequence of events, each with its time.
unfoldable pub run : Limits → State → List (ℕ × Event) → List Bool
run limits s [] = []
run limits s ((now, e) ∷ es) = let (s', ok) = step limits s now e in ok ∷ run limits s' es

unfoldable pub spec_run : Limits → Log → List (ℕ × Event) → List Bool
spec_run limits log [] = []
spec_run limits log ((now, e) ∷ es) =
    let (log', ok) = spec_step limits log now e in ok ∷ spec_run limits log' es
