-- ===== src/Relay/RateLimit/Window.antt =====
-- The timestamps of one key: they are sorted, so those that have not expired are the fresh ones.
use constellation_mcp.Prelude.{
  ℕ, ◌-◌, ◌+◌, ◌≤◌, ◌<◌, ◌≡◌, refl, Bool, List, [], ◌∷◌, ◌++◌, arith, All, keep, length, drop,
  length-append, All-append,
}
use constellation_mcp.Relay.RateLimit.{rate_window_ms, count_expired, live, fresh}

-- In the order in which they were appended, none of them after `now`.
abbrev pub IsSorted : List ℕ → Type 0
IsSorted [] = Unit
IsSorted (t ∷ ts) = All (λ u. t ≤ u) ts × IsSorted ts

abbrev pub Until : ℕ → List ℕ → Type 0
Until now = All λ t. t ≤ now

unfoldable pub recent : ℕ → List ℕ → ℕ
recent now ts = length (keep (fresh now) ts)

keep-All :
    (now t : ℕ) (ts : List ℕ)
    → now - t < rate_window_ms
    → All (λ u. t ≤ u) ts
    → keep (fresh now) ts ≡ ts
keep-All now t [] h k = refl
keep-All now t (u ∷ ts) h k = ground (arith, keep-All now t ts)

drop_expired :
    (now : ℕ) (ts : List ℕ) → IsSorted ts → drop (count_expired now ts) ts ≡ keep (fresh now) ts
unfolding count_expired
drop_expired now [] s = refl
drop_expired now (t ∷ ts) s = ground (arith, drop_expired now ts s.1, keep-All now t ts)

pub live_lem : (now : ℕ) (ts : List ℕ) → IsSorted ts → live now ts ≡ keep (fresh now) ts
unfolding live
live_lem now ts s = ground (arith, drop_expired now ts s)

-- What is fresh later is fresh now.
pub keep-keep :
    (now later : ℕ) (ts : List ℕ)
    → now ≤ later
    → keep (fresh later) (keep (fresh now) ts) ≡ keep (fresh later) ts
keep-keep now later [] h = refl
keep-keep now later (t ∷ ts) h = ground (arith, keep-keep now later ts h)

pub All-keep : (P : ℕ → Type 0) (p : ℕ → Bool) (ts : List ℕ) → All P ts → All P (keep p ts)
All-keep P p [] h = tt
All-keep P p (t ∷ ts) h = ground (arith, All-keep P p ts h.1)

pub keep-IsSorted : (p : ℕ → Bool) (ts : List ℕ) → IsSorted ts → IsSorted (keep p ts)
keep-IsSorted p [] s = tt
keep-IsSorted p (t ∷ ts) s = ground (arith, keep-IsSorted p ts s.1, All-keep (λ u. t ≤ u) p ts s.0)

pub append-IsSorted :
    (ts : List ℕ) (now : ℕ) → IsSorted ts → Until now ts → IsSorted (ts ++ now ∷ [])
append-IsSorted [] now s u = (tt, tt)
append-IsSorted (t ∷ ts) now s u =
    (All-append (λ v. t ≤ v) ts (now ∷ []) s.0 (u.0, tt), append-IsSorted ts now s.1 u.1)

keep-append : (p : ℕ → Bool) (ts us : List ℕ) → keep p (ts ++ us) ≡ keep p ts ++ keep p us
keep-append p [] us = refl
keep-append p (t ∷ ts) us = ground (arith, keep-append p ts us)

pub recent-append :
    (later now : ℕ) (ts : List ℕ)
    → recent later (ts ++ now ∷ []) ≡ recent later ts + recent later (now ∷ [])
unfolding recent
recent-append later now ts =
    rw (keep-append (fresh later) ts (now ∷ []))
      (length-append (keep (fresh later) ts) (keep (fresh later) (now ∷ [])))

pub recent-keep :
    (now later : ℕ) (ts : List ℕ)
    → now ≤ later
    → recent later (keep (fresh now) ts) ≡ recent later ts
unfolding recent
recent-keep now later ts h = rw (keep-keep now later ts h)
