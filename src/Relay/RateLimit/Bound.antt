-- ===== src/Relay/RateLimit/Bound.antt =====
-- How many calls a user gets through in any minute.
use constellation_mcp.Prelude.{
  ℕ, ◌+◌, ◌≤◌, ◌<◌, ◌≡◌, Bool, true, false, List, [], ◌∷◌, arith, if◌then◌else◌, ltb, leb, ◌&&◌,
  inl, inr, Option, some, none, Option-cases,
}
use constellation_mcp.Prelude.Text.{Text, eq_text, eq_text→eq}
use constellation_mcp.Relay.RateLimit.{Limits, start, rate_window_ms}
use constellation_mcp.Relay.RateLimit.Spec.{
  Bucket, tool_bucket, same_bucket, Log, admitted, limit_of, Event, asks, admit, spec_step, run,
  spec_run,
}
use constellation_mcp.Relay.RateLimit.Refines.{IsMonotone, run_lem}

-- The minute that begins at `from`.
abbrev pub in_minute : ℕ → ℕ → Bool
in_minute from t = leb from t && ltb t (from + rate_window_ms)

abbrev pub is_for : Bucket → Text → Option (Bucket × Text) → Bool
is_for b user none = false
is_for b user (some (c, u)) = same_bucket c b && eq_text u user

-- How many of the user's calls to the bucket were answered by true in that minute.
pub granted : Bucket → Text → ℕ → List (ℕ × Event) → List Bool → ℕ
granted b user from [] oks = 0
granted b user from (e ∷ es) [] = 0
granted b user from ((t, e) ∷ es) (ok ∷ oks) =
    (if ok && (is_for b user (asks e) && in_minute from t) then 1 else 0)
    + granted b user from es oks

logged_in : Bucket → Text → ℕ → Log → ℕ
logged_in b user from [] = 0
logged_in b user from (a ∷ log) =
    (if same_bucket a.bucket b && (eq_text a.user user && in_minute from a.at) then 1 else 0)
    + logged_in b user from log

-- What lies in a minute that has not ended is fresh.
logged_in-le-admitted :
    (b : Bucket) (user : Text) (from now : ℕ) (log : Log)
    → now < from + rate_window_ms
    → logged_in b user from log ≤ admitted b user now log
unfolding logged_in admitted
logged_in-le-admitted b user from now [] h = omega arith
logged_in-le-admitted b user from now (a ∷ log) h =
    ground (arith, logged_in-le-admitted b user from now log h)

same_bucket→eq : (b c : Bucket) → same_bucket b c ≡ true → b ≡ c
unfolding same_bucket
same_bucket→eq tool_bucket c h = ground arith
same_bucket→eq b c h = ground arith

module _ (limits : Limits) (b : Bucket) (user : Text) (from : ℕ) where
  admit_bound :
      (now : ℕ) (log : Log) (c : Bucket) (u : Text)
      → logged_in b user from log ≤ limit_of limits b
      → logged_in b user from (admit limits log now c u).0 ≤ limit_of limits b
  unfolding admit logged_in
  admit_bound now log c u h =
      ground
        (arith, same_bucket→eq c b, eq_text→eq u user, logged_in-le-admitted b user from now log)

  abbrev counted : Bool → ℕ → Event → ℕ
  counted ok t e = if ok && (is_for b user (asks e) && in_minute from t) then 1 else 0

  admit_count :
      (now : ℕ) (log : Log) (c : Bucket) (u : Text)
      → let (log', ok) = admit limits log now c u in
        logged_in b user from log'
        ≡ (if ok && (is_for b user (some (c, u)) && in_minute from now) then 1 else 0)
          + logged_in b user from log
  unfolding admit logged_in
  admit_count now log c u = ground arith

  spec_step_lem :
      (now : ℕ) (log : Log) (e : Event)
      → logged_in b user from log ≤ limit_of limits b
      → let (log', ok) = spec_step limits log now e in
        (logged_in b user from log' ≤ limit_of limits b)
        × (logged_in b user from log' ≡ counted ok now e + logged_in b user from log)
  unfolding spec_step
  spec_step_lem now log e h = elim (Option-cases (asks e)) [
    | inl q ↦ rw (q, spec_step) (h, omega arith)
    | inr ((c, u), q) ↦ rw (q, spec_step) (admit_bound now log c u h, admit_count now log c u)
  ]

  spec_granted :
      (es : List (ℕ × Event)) (log : Log)
      → logged_in b user from log ≤ limit_of limits b
      → logged_in b user from log + granted b user from es (spec_run limits log es)
        ≤ limit_of limits b
  unfolding granted spec_run
  spec_granted [] log h = omega arith
  spec_granted ((t, e) ∷ es) log h =
      let (bound, count) = spec_step_lem t log e h in
      omega (arith, spec_granted es (spec_step limits log t e).0 bound)

-- While the clock does not go back, at most as many of a user's calls as the limit get through in
-- any minute, in each bucket.
pub granted-le-limit :
    (limits : Limits) (es : List (ℕ × Event)) (b : Bucket) (user : Text) (from : ℕ)
    → IsMonotone 0 es
    → granted b user from es (run limits start es) ≤ limit_of limits b
unfolding logged_in
granted-le-limit limits es b user from m =
    rw (run_lem limits es m) (omega (arith, spec_granted limits b user from es [] (omega arith)))
