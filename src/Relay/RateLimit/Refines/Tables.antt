-- ===== src/Relay/RateLimit/Refines/Tables.antt =====
-- One map of timestamps against the log of the calls that its bucket admitted.
use constellation_mcp.Prelude.{
  ℕ, ◌+◌, ◌≤◌, ◌≡◌, refl, ◌∙◌, true, false, List, [], ◌∷◌, ◌++◌, arith, Bool-cases, inl, inr, ◌⊎◌,
  All-append, if◌then◌else◌, ltb, leb, length, keep, subst,
}
use constellation_mcp.Prelude.Text.{Text, eq_text, eq_text_refl, eq_text→eq}
use constellation_mcp.Prelude.Table.{Table, put, get-put, Distinct, put-Distinct}
use constellation_mcp.Relay.RateLimit.{timestamps, count_expired, live, allow_in_window, fresh}
use constellation_mcp.Relay.RateLimit.Window.{
  IsSorted, Until, recent, live_lem, keep-IsSorted, append-IsSorted, All-keep, recent-append,
  recent-keep,
}
use constellation_mcp.Relay.RateLimit.Spec.{Bucket, same_bucket, Admitted, Log, admitted}

-- `ts` counts as the log does, now and later.
pub record Shows (now : ℕ) (b : Bucket) (log : Log) (user : Text) (ts : List ℕ) : Type 0 where
  pub sorted : IsSorted ts
  pub until : Until now ts
  pub same : (later : ℕ) → now ≤ later → recent later ts ≡ admitted b user later log

Until-mono : {now later : ℕ} (ts : List ℕ) → now ≤ later → Until now ts → Until later ts
Until-mono [] h u = tt
Until-mono {now} {later} (t ∷ ts) h u = (omega arith, Until-mono ts h u.1)

pub Shows-later :
    {now later : ℕ} {b : Bucket} {log : Log} {user : Text} {ts : List ℕ}
    → now ≤ later
    → Shows now b log user ts
    → Shows later b log user ts
Shows-later {now} {later} {ts = ts} h s = record {
  sorted = s.sorted;
  until = Until-mono ts h s.until;
  same = λ n k. s.same n (omega arith);
}

pub Shows-keep :
    {now : ℕ} {b : Bucket} {log : Log} {user : Text} {ts : List ℕ}
    → Shows now b log user ts
    → Shows now b log user (keep (fresh now) ts)
Shows-keep {now} {ts = ts} s = record {
  sorted = keep-IsSorted (fresh now) ts s.sorted;
  until = All-keep (λ t. t ≤ now) (fresh now) ts s.until;
  same = λ n k. recent-keep now n ts k ∙ s.same n k;
}

-- A call of the user is admitted.
pub Shows-add :
    {now : ℕ} {b : Bucket} {log : Log} {user : Text} {ts : List ℕ}
    → same_bucket b b ≡ true
    → Shows now b log user ts
    → Shows now b (record { bucket = b; user = user; at = now } ∷ log) user (ts ++ now ∷ [])
unfolding admitted recent
Shows-add {now} {b} {log} {user} {ts} e s = record {
  sorted = append-IsSorted ts now s.sorted s.until;
  until = All-append (λ t. t ≤ now) ts (now ∷ []) s.until (omega arith, tt);
  same = λ n k. rw (recent-append n now ts, s.same n k) (count n);
}
  where
    count :
        (n : ℕ)
        → admitted b user n log + recent n (now ∷ [])
          ≡ admitted b user n (record { bucket = b; user = user; at = now } ∷ log)
    count n = ground (arith, eq_text_refl user)

-- A call of another user, or of another bucket, is admitted.
pub Shows-other :
    {now : ℕ} {b : Bucket} {log : Log} {user : Text} {ts : List ℕ} (a : Admitted)
    → (same_bucket a.bucket b ≡ false) ⊎ (eq_text a.user user ≡ false)
    → Shows now b log user ts
    → Shows now b (a ∷ log) user ts
unfolding admitted
Shows-other {b = b} {log} {user} a e s = record {
  sorted = s.sorted;
  until = s.until;
  same = λ n k. s.same n k ∙ skip n;
}
  where
    skip : (n : ℕ) → admitted b user n log ≡ admitted b user n (a ∷ log)
    skip n = ground arith

-- Every key's timestamps count as the log does.
pub record ShowsTable (now : ℕ) (b : Bucket) (log : Log) (t : Table (List ℕ)) : Type 0 where
  pub distinct : Distinct t
  pub shows : (user : Text) → Shows now b log user (timestamps t user)

timestamps-put :
    (t : Table (List ℕ)) (key user : Text) (ts : List ℕ)
    → timestamps (put t key ts) user ≡ (if eq_text key user then ts else timestamps t user)
timestamps-put t key user ts = ground (arith, get-put t key user ts)

put-Shows :
    {now : ℕ} {b : Bucket} {log : Log} {t : Table (List ℕ)} (key : Text) (ts : List ℕ)
    → ShowsTable now b log t
    → Shows now b log key ts
    → ShowsTable now b log (put t key ts)
put-Shows {now} {b} {log} {t} key ts s k = record {
  distinct = put-Distinct t key ts s.distinct;
  shows = λ user. elim (Bool-cases (eq_text key user)) [
    | inl e ↦
        rw (timestamps-put t key user ts, e)
          (subst (λ u. Shows now b log u ts) (eq_text→eq key user e) k)
    | inr e ↦ rw (timestamps-put t key user ts, e) (s.shows user)
  ];
}

pub other-shows :
    {now : ℕ} {b : Bucket} {log : Log} {t : Table (List ℕ)} (a : Admitted)
    → same_bucket a.bucket b ≡ false
    → ShowsTable now b log t
    → ShowsTable now b (a ∷ log) t
other-shows a e s = record {
  distinct = s.distinct;
  shows = λ user. Shows-other a (inl e) (s.shows user);
}

pub later-shows :
    {now later : ℕ} {b : Bucket} {log : Log} {t : Table (List ℕ)}
    → now ≤ later
    → ShowsTable now b log t
    → ShowsTable later b log t
later-shows h s = record { distinct = s.distinct; shows = λ user. Shows-later h (s.shows user) }

add-Shows :
    {now : ℕ} {b : Bucket} {log : Log} {t : Table (List ℕ)} (key : Text) (ts : List ℕ)
    → same_bucket b b ≡ true
    → ShowsTable now b log t
    → Shows now b log key ts
    → ShowsTable now b
        (record { bucket = b; user = key; at = now } ∷ log)
        (put t key (ts ++ now ∷ []))
add-Shows {now} {b} {log} {t} key ts own s k = record {
  distinct = put-Distinct t key (ts ++ now ∷ []) s.distinct;
  shows = λ user. elim (Bool-cases (eq_text key user)) [
    | inl e ↦
        rw (timestamps-put t key user (ts ++ now ∷ []), e)
          (subst (λ u. Shows now b (entry ∷ log) u (ts ++ now ∷ [])) (eq_text→eq key user e)
            (Shows-add own k))
    | inr e ↦
        rw (timestamps-put t key user (ts ++ now ∷ []), e)
          (Shows-other entry (inr e) (s.shows user))
  ];
}
  where
    entry : Admitted
    entry = record { bucket = b; user = key; at = now }

-- The timestamps that the call finds live.
live-Shows :
    {now : ℕ} {b : Bucket} {log : Log} {user : Text} {ts : List ℕ}
    → Shows now b log user ts
    → Shows now b log user (live now ts) × (length (live now ts) ≡ admitted b user now log)
unfolding recent
live-Shows {now} {ts = ts} s =
    rw (live_lem now ts s.sorted) (Shows-keep s, s.same now (omega arith))

-- A call is admitted if fewer than the limit were, and the table goes on to count as the log does.
pub allow_in_window_lem :
    {now : ℕ} {b : Bucket} {log : Log} {t : Table (List ℕ)} (key : Text) (limit : ℕ)
    → same_bucket b b ≡ true
    → ShowsTable now b log t
    → let (t', ok) = allow_in_window t key limit now in
      (ok ≡ ltb (admitted b key now log) limit)
      × ShowsTable now b (if ok then record { bucket = b; user = key; at = now } ∷ log else log) t'
unfolding allow_in_window
allow_in_window_lem {now} {b} {log} {t} key limit own s =
    let ts = timestamps t key in
    let (shown, count) = live-Shows (s.shows key) in
    elim (Bool-cases (leb limit (length (live now ts)))) [
      | inl full ↦
          let no_more : ltb (admitted b key now log) limit ≡ false = ground arith in
          elim (Bool-cases (ltb 0 (count_expired now ts))) [
            | inl some_expired ↦
                rw (full, some_expired, no_more, allow_in_window)
                  (refl, put-Shows key (live now ts) s shown)
            | inr none_expired ↦ rw (full, none_expired, no_more, allow_in_window) (refl, s)
          ]
      | inr room ↦
          let more : ltb (admitted b key now log) limit ≡ true = ground arith in
          rw (room, more, allow_in_window) (refl, add-Shows key (live now ts) own s shown)
    ]
