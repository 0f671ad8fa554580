-- ===== src/Relay/RateLimit/Refines/Steps.antt =====
-- Each event: the module's tables answer as the specification does and go on to agree with it.
use constellation_mcp.Prelude.{
  ℕ, ◌≤◌, ◌≡◌, refl, ◌⊎◌, Bool, true, false, [], ◌∷◌, arith, Bool-cases, inl, inr, if◌then◌else◌,
  ltb,
}
use constellation_mcp.Prelude.Text.{Text}
use constellation_mcp.Prelude.Table.{get}
use constellation_mcp.Shared.Json.{Object}
use constellation_mcp.Relay.RateLimit.{
  Limits, State, start, ToolClass, standard, expensive, classify_tool, allow_in_window,
  check_tool_rate_limit, check_mcp_request_rate_limit, should_log_rate_limited, prune_rate_limits,
  logged_recently,
}
use constellation_mcp.Relay.RateLimit.Window.{recent}
use constellation_mcp.Relay.RateLimit.Spec.{
  Bucket, tool_bucket, expensive_bucket, request_bucket, logged_bucket, same_bucket, Admitted, Log,
  admitted, Event, tool_call, mcp_request, rate_limited, prune, asks, admit, spec_step, step,
  limit_of,
}
use constellation_mcp.Relay.RateLimit.Refines.Tables.{
  Shows, ShowsTable, allow_in_window_lem, other-shows, later-shows,
}
use constellation_mcp.Relay.RateLimit.Refines.Others.{
  ShowsLogged, prune-shows, prune-ShowsLogged, later-ShowsLogged, other-ShowsLogged,
  put-ShowsLogged, logged_count,
}

-- Each table counts as the log does for its bucket.
pub record Represents (now : ℕ) (log : Log) (s : State) : Type 0 where
  pub tools : ShowsTable now tool_bucket log s.tool_call_timestamps
  pub expensive : ShowsTable now expensive_bucket log s.expensive_tool_timestamps
  pub requests : ShowsTable now request_bucket log s.mcp_request_timestamps
  pub logged : ShowsLogged now log s.rate_limited_logged_at

nothing-Shows : (b : Bucket) (user : Text) → Shows 0 b [] user []
unfolding admitted recent
nothing-Shows b user = record { sorted = tt; until = tt; same = λ n k. refl }

nothing-ShowsTable : (b : Bucket) → ShowsTable 0 b [] []
unfolding get
nothing-ShowsTable b = record { distinct = tt; shows = nothing-Shows b }

pub start-Represents : Represents 0 [] start
unfolding start get
start-Represents = record {
  tools = nothing-ShowsTable tool_bucket;
  expensive = nothing-ShowsTable expensive_bucket;
  requests = nothing-ShowsTable request_bucket;
  logged = record { distinct = tt; shows = nothing-Shows logged_bucket };
}

pub later-Represents :
    {now later : ℕ} {log : Log} {s : State}
    → now ≤ later
    → Represents now log s
    → Represents later log s
later-Represents h r = record {
  tools = later-shows h r.tools;
  expensive = later-shows h r.expensive;
  requests = later-shows h r.requests;
  logged = later-ShowsLogged h r.logged;
}

-- One event: the same answer, and states that go on to agree.
abbrev pub Agrees : Limits → ℕ → Log → State → Event → Type 0
Agrees limits now log s e =
    ((step limits s now e).1 ≡ (spec_step limits log now e).1)
    × Represents now (spec_step limits log now e).0 (step limits s now e).0

-- The log after a call that was answered by `ok`.
abbrev logged_if : Bool → Log → Admitted → Log
logged_if ok log a = if ok then a ∷ log else log

admit_lem :
    (limits : Limits) (log : Log) (now : ℕ) (b : Bucket) (user : Text) (ok : Bool)
    → ok ≡ ltb (admitted b user now log) (limit_of limits b)
    → admit limits log now b user
      ≡ (logged_if ok log (record { bucket = b; user = user; at = now }), ok)
unfolding admit
admit_lem limits log now b user true e = rw (← e)
admit_lem limits log now b user false e = rw (← e)

class-cases : (c : ToolClass) → (c ≡ standard) ⊎ (c ≡ expensive)
class-cases standard = inl refl
class-cases expensive = inr refl

module _ {now : ℕ} {log : Log} {s : State} (r : Represents now log s) where
  others :
      (ok : Bool) (a : Admitted)
      → ((same_bucket a.bucket tool_bucket ≡ false)
          → ShowsTable now tool_bucket (logged_if ok log a) s.tool_call_timestamps)
        × ((same_bucket a.bucket expensive_bucket ≡ false)
            → ShowsTable now expensive_bucket (logged_if ok log a) s.expensive_tool_timestamps)
        × ((same_bucket a.bucket request_bucket ≡ false)
            → ShowsTable now request_bucket (logged_if ok log a) s.mcp_request_timestamps)
        × ((same_bucket a.bucket logged_bucket ≡ false)
            → ShowsLogged now (logged_if ok log a) s.rate_limited_logged_at)
  others true a = (
    (λ e. other-shows a e r.tools),
    (λ e. other-shows a e r.expensive),
    (λ e. other-shows a e r.requests),
    (λ e. other-ShowsLogged a e r.logged),
  )
  others false a = ((λ e. r.tools), (λ e. r.expensive), (λ e. r.requests), (λ e. r.logged))

  module _ (limits : Limits) (user : Text) where
    mcp_request-Agrees : Agrees limits now log s (mcp_request user)
    unfolding step spec_step asks limit_of same_bucket check_mcp_request_rate_limit
    mcp_request-Agrees =
        let (answer, shows) = allow_in_window_lem user limits.mcp_requests refl r.requests in
        let ok : Bool = (allow_in_window s.mcp_request_timestamps user limits.mcp_requests now).1 in
        let (tools, expensives, _, logs) =
          others ok (record { bucket = request_bucket; user = user; at = now }) in
        rw (admit_lem limits log now request_bucket user ok answer) (
          refl,
          record {
            tools = tools refl;
            expensive = expensives refl;
            requests = shows;
            logged = logs refl;
          },
        )

    standard-Agrees :
        (tool : Text) (params : Object)
        → classify_tool tool params ≡ standard
        → Agrees limits now log s (tool_call user tool params)
    unfolding step spec_step asks limit_of same_bucket check_tool_rate_limit
    standard-Agrees tool params e =
        let (answer, shows) = allow_in_window_lem user limits.tool_calls refl r.tools in
        let ok : Bool = (allow_in_window s.tool_call_timestamps user limits.tool_calls now).1 in
        let (_, expensives, requests, logs) =
          others ok (record { bucket = tool_bucket; user = user; at = now }) in
        rw (e, check_tool_rate_limit, spec_step, asks)
          (rw (admit_lem limits log now tool_bucket user ok answer) (
            refl,
            record {
              tools = shows;
              expensive = expensives refl;
              requests = requests refl;
              logged = logs refl;
            },
          ))

    expensive-Agrees :
        (tool : Text) (params : Object)
        → classify_tool tool params ≡ expensive
        → Agrees limits now log s (tool_call user tool params)
    unfolding step spec_step asks limit_of same_bucket check_tool_rate_limit
    expensive-Agrees tool params e =
        let (answer, shows) = allow_in_window_lem user limits.expensive_tools refl r.expensive in
        let ok : Bool =
          (allow_in_window s.expensive_tool_timestamps user limits.expensive_tools now).1 in
        let (tools, _, requests, logs) =
          others ok (record { bucket = expensive_bucket; user = user; at = now }) in
        rw (e, check_tool_rate_limit, spec_step, asks)
          (rw (admit_lem limits log now expensive_bucket user ok answer) (
            refl,
            record {
              tools = tools refl;
              expensive = shows;
              requests = requests refl;
              logged = logs refl;
            },
          ))

    tool_call-Agrees :
        (tool : Text) (params : Object) → Agrees limits now log s (tool_call user tool params)
    tool_call-Agrees tool params = elim (class-cases (classify_tool tool params)) [
      | inl e ↦ standard-Agrees tool params e
      | inr e ↦ expensive-Agrees tool params e
    ]

    rate_limited-Agrees : Agrees limits now log s (rate_limited user)
    unfolding step spec_step asks limit_of same_bucket should_log_rate_limited
    rate_limited-Agrees =
        let count = logged_count user r.logged in
        elim (Bool-cases (logged_recently now (get s.rate_limited_logged_at user))) [
          | inl yet ↦
              let ok : false ≡ ltb (admitted logged_bucket user now log) 1 = ground arith in
              rw
                (admit_lem limits log now logged_bucket user false ok, yet, should_log_rate_limited)
                (refl, r)
          | inr free ↦
              let ok : true ≡ ltb (admitted logged_bucket user now log) 1 = ground arith in
              let (tools, expensives, requests, _) =
                others true (record { bucket = logged_bucket; user = user; at = now }) in
              rw
                (admit_lem limits log now logged_bucket user true ok, free, should_log_rate_limited)
                (
                  refl,
                  record {
                    tools = tools refl;
                    expensive = expensives refl;
                    requests = requests refl;
                    logged = put-ShowsLogged user r.logged free;
                  },
                )
        ]

  prune-Agrees : (limits : Limits) → Agrees limits now log s prune
  unfolding step spec_step asks prune_rate_limits
  prune-Agrees limits = (
    refl,
    record {
      tools = prune-shows r.tools;
      expensive = prune-shows r.expensive;
      requests = prune-shows r.requests;
      logged = prune-ShowsLogged r.logged;
    },
  )

  pub step-Agrees : (limits : Limits) (e : Event) → Agrees limits now log s e
  step-Agrees limits (tool_call user tool params) = tool_call-Agrees limits user tool params
  step-Agrees limits (mcp_request user) = mcp_request-Agrees limits user
  step-Agrees limits (rate_limited user) = rate_limited-Agrees limits user
  step-Agrees limits prune = prune-Agrees limits
