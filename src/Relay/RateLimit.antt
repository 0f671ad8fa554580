-- ===== src/Relay/RateLimit.antt =====
-- packages/relay/src/router.ts: the rate limits on MCP tool calls and requests. `Date.now()` is an
-- argument of each operation, in milliseconds.
pub mod Window
pub mod Spec
pub mod Refines
pub mod Bound
pub mod Tests
use constellation_mcp.Prelude.{
  ℕ, ◌-◌, zero, suc, Bool, true, false, not, ◌&&◌, ◌||◌, List, [], ◌∷◌, ◌++◌, Option, none, some,
  any, if◌then◌else◌, ltb, leb, ◌==◌, length, drop, keep,
}
use constellation_mcp.Prelude.Text.{Text, text, eq_text}
use constellation_mcp.Prelude.Table.{Table, get, put, sift}
use constellation_mcp.Shared.Json.{Value, bool, Object, own}

abbrev pub rate_window_ms : ℕ
rate_window_ms = 60000

abbrev standard_tools : List Text
standard_tools =
    text "list_hosts"
    ∷ text "list_shares"
    ∷ text "open_file_browser"
    ∷ text "list_directory"
    ∷ text "file_info"
    ∷ text "read_file"
    ∷ text "write_file"
    ∷ text "edit_file"
    ∷ text "copy"
    ∷ text "create_directory"
    ∷ text "delete"
    ∷ text "move"
    ∷ []

pub data ToolClass : Type 0 where
  standard expensive : ToolClass

-- `params["recursive"] === true`.
is_true : Option Value → Bool
is_true (some (bool true)) = true
is_true _ = false

pub classify_tool : Text → Object → ToolClass
unfolding is_true own eq_text
classify_tool tool params =
    if eq_text tool (text "list_directory") && is_true (own params (text "recursive"))
    then expensive
    else if any (eq_text tool) standard_tools
    then standard
    else expensive

-- The `while` that counts the expired timestamps at the front.
pub count_expired : ℕ → List ℕ → ℕ
count_expired now [] = 0
count_expired now (t ∷ ts) =
    let later = count_expired now ts in if leb rate_window_ms (now - t) then suc later else 0

-- `?? []`.
abbrev pub or_empty : Option (List ℕ) → List ℕ
or_empty none = []
or_empty (some ts) = ts

abbrev pub timestamps : Table (List ℕ) → Text → List ℕ
timestamps t key = or_empty (get t key)

pub live : ℕ → List ℕ → List ℕ
unfolding count_expired
live now ts = let expired = count_expired now ts in if ltb 0 expired then drop expired ts else ts

-- With the table after the call. `live.push(now)` also changes the array that the table holds if
-- nothing has expired; the `set` that follows stores the same array.
pub allow_in_window : Table (List ℕ) → Text → ℕ → ℕ → Table (List ℕ) × Bool
allow_in_window t key limit now =
    let ts = timestamps t key in
    if leb limit (length (live now ts))
    then (if ltb 0 (count_expired now ts) then put t key (live now ts) else t, false)
    else (put t key (live now ts ++ now ∷ []), true)

-- The configured limits per minute.
pub record Limits : Type 0 where
  pub tool_calls : ℕ
  pub expensive_tools : ℕ
  pub mcp_requests : ℕ

-- The module's tables.
pub record State : Type 0 where
  pub tool_call_timestamps : Table (List ℕ)
  pub expensive_tool_timestamps : Table (List ℕ)
  pub mcp_request_timestamps : Table (List ℕ)
  pub rate_limited_logged_at : Table ℕ

pub start : State
start = record {
  tool_call_timestamps = [];
  expensive_tool_timestamps = [];
  mcp_request_timestamps = [];
  rate_limited_logged_at = [];
}

pub check_tool_rate_limit : Limits → State → Text → Text → Object → ℕ → State × Bool
check_tool_rate_limit limits s user tool params now = elim (classify_tool tool params) [
  | expensive ↦
      let (t, ok) = allow_in_window s.expensive_tool_timestamps user limits.expensive_tools now in
      (record s { expensive_tool_timestamps = t }, ok)
  | standard ↦
      let (t, ok) = allow_in_window s.tool_call_timestamps user limits.tool_calls now in
      (record s { tool_call_timestamps = t }, ok)
]

pub check_mcp_request_rate_limit : Limits → State → Text → ℕ → State × Bool
check_mcp_request_rate_limit limits s user now =
    let (t, ok) = allow_in_window s.mcp_request_timestamps user limits.mcp_requests now in
    (record s { mcp_request_timestamps = t }, ok)

-- `last !== undefined && now - last < RATE_WINDOW_MS`.
abbrev logged_recently : ℕ → Option ℕ → Bool
logged_recently now none = false
logged_recently now (some last) = ltb (now - last) rate_window_ms

pub should_log_rate_limited : State → Text → ℕ → State × Bool
should_log_rate_limited s user now =
    if logged_recently now (get s.rate_limited_logged_at user)
    then (s, false)
    else (record s { rate_limited_logged_at = put s.rate_limited_logged_at user now }, true)

abbrev pub fresh : ℕ → ℕ → Bool
fresh now t = ltb (now - t) rate_window_ms

abbrev pub non_empty : List ℕ → Option (List ℕ)
non_empty [] = none
non_empty (t ∷ ts) = some (t ∷ ts)

-- The loop of `pruneRateLimits` over one of the maps of timestamps, and over the last one.
abbrev pub prune_window : ℕ → Table (List ℕ) → Table (List ℕ)
prune_window now = sift λ ts. non_empty (keep (fresh now) ts)

abbrev pub prune_logged : ℕ → Table ℕ → Table ℕ
prune_logged now = sift λ t. if leb rate_window_ms (now - t) then none else some t

pub prune_rate_limits : State → ℕ → State
prune_rate_limits s now = record {
  tool_call_timestamps = prune_window now s.tool_call_timestamps;
  expensive_tool_timestamps = prune_window now s.expensive_tool_timestamps;
  mcp_request_timestamps = prune_window now s.mcp_request_timestamps;
  rate_limited_logged_at = prune_logged now s.rate_limited_logged_at;
}
