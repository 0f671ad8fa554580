-- ===== src/Relay/RateLimit/Refines.antt =====
-- The rate limits as they are enforced, over any sequence of events.
mod Tables
mod Others
mod Steps
use constellation_mcp.Prelude.{
  ℕ, ◌+◌, ◌≤◌, ◌<◌, ◌≡◌, refl, ap₂, Bool, true, false, List, [], ◌∷◌, arith, if◌then◌else◌, ltb,
  leb, ◌&&◌, Bool-cases, inl, inr,
}
use constellation_mcp.Prelude.Text.{Text, eq_text}
use constellation_mcp.Relay.RateLimit.{Limits, State, start, rate_window_ms}
use constellation_mcp.Relay.RateLimit.Spec.{
  Bucket, same_bucket, Admitted, Log, admitted, limit_of, Event, asks, admit, spec_step, step, run,
  spec_run,
}
use Steps.{Represents, start-Represents, later-Represents, step-Agrees}

-- The clock does not go back.
abbrev pub IsMonotone : ℕ → List (ℕ × Event) → Type 0
IsMonotone now [] = Unit
IsMonotone now ((t, e) ∷ es) = (now ≤ t) × IsMonotone t es

run-spec_run :
    (limits : Limits) (es : List (ℕ × Event)) {now : ℕ} {log : Log} {s : State}
    → Represents now log s
    → IsMonotone now es
    → run limits s es ≡ spec_run limits log es
unfolding run spec_run
run-spec_run limits [] r m = refl
run-spec_run limits ((t, e) ∷ es) r m =
    let (answer, next) = step-Agrees (later-Represents m.0 r) limits e in
    ap₂ ◌∷◌ answer (run-spec_run limits es next m.1)

-- From the start, and while the clock does not go back, every call is admitted exactly when fewer
-- calls of the same user than the limit were admitted to the same bucket in the last minute; an
-- activity event about limited calls is due exactly when the last minute had none for the user. So
-- neither pruning nor the order of buckets and users changes an answer.
pub run_lem :
    (limits : Limits) (es : List (ℕ × Event))
    → IsMonotone 0 es
    → run limits start es ≡ spec_run limits [] es
run_lem limits es m = run-spec_run limits es start-Represents m
