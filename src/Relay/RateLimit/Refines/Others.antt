-- ===== src/Relay/RateLimit/Refines/Others.antt =====
-- Pruning, and the table of the last activity event about a user's limited calls.
use constellation_mcp.Prelude.{
  ℕ, ◌-◌, ◌≤◌, ◌≡◌, refl, ap, ◌∙◌, false, List, [], ◌∷◌, arith, Bool-cases, inl, inr, Option, some,
  none, if◌then◌else◌, leb, keep, subst,
}
use constellation_mcp.Prelude.Text.{Text, eq_text, eq_text→eq}
use constellation_mcp.Prelude.Table.{
  Table, get, put, get-put, get-sift, Distinct, put-Distinct, sift-Distinct, sifted,
}
use constellation_mcp.Relay.RateLimit.{
  rate_window_ms, or_empty, timestamps, fresh, non_empty, prune_window, prune_logged,
  logged_recently,
}
use constellation_mcp.Relay.RateLimit.Window.{recent}
use constellation_mcp.Relay.RateLimit.Spec.{
  Bucket, logged_bucket, same_bucket, Admitted, Log, admitted,
}
use constellation_mcp.Relay.RateLimit.Refines.Tables.{
  Shows, ShowsTable, Shows-keep, Shows-add, Shows-other, Shows-later,
}

timestamps-prune :
    (now : ℕ) (t : Table (List ℕ)) (user : Text)
    → Distinct t
    → timestamps (prune_window now t) user ≡ keep (fresh now) (timestamps t user)
timestamps-prune now t user d =
    ap or_empty (get-sift (λ ts. non_empty (keep (fresh now) ts)) t user d) ∙ cases (get t user)
  where
    stays : (ts : List ℕ) → or_empty (non_empty ts) ≡ ts
    stays [] = refl
    stays (u ∷ us) = refl

    cases :
        (o : Option (List ℕ))
        → or_empty (sifted (λ ts. non_empty (keep (fresh now) ts)) o)
          ≡ keep (fresh now) (or_empty o)
    cases none = refl
    cases (some ts) = stays (keep (fresh now) ts)

pub prune-shows :
    {now : ℕ} {b : Bucket} {log : Log} {t : Table (List ℕ)}
    → ShowsTable now b log t
    → ShowsTable now b log (prune_window now t)
prune-shows {now} {t = t} s = record {
  distinct = sift-Distinct _ t s.distinct;
  shows = λ user. rw (timestamps-prune now t user s.distinct) (Shows-keep (s.shows user));
}

abbrev pub single : Option ℕ → List ℕ
single none = []
single (some t) = t ∷ []

-- At most one time for each user, and it counts as the log does.
pub record ShowsLogged (now : ℕ) (log : Log) (t : Table ℕ) : Type 0 where
  pub distinct : Distinct t
  pub shows : (user : Text) → Shows now logged_bucket log user (single (get t user))

single-prune :
    (now : ℕ) (t : Table ℕ) (user : Text)
    → Distinct t
    → single (get (prune_logged now t) user) ≡ keep (fresh now) (single (get t user))
single-prune now t user d =
    ap single (get-sift (λ u. if leb rate_window_ms (now - u) then none else some u) t user d)
    ∙ cases (get t user)
  where
    cases :
        (o : Option ℕ)
        → single (sifted (λ u. if leb rate_window_ms (now - u) then none else some u) o)
          ≡ keep (fresh now) (single o)
    cases none = refl
    cases (some u) = ground arith

pub prune-ShowsLogged :
    {now : ℕ} {log : Log} {t : Table ℕ}
    → ShowsLogged now log t
    → ShowsLogged now log (prune_logged now t)
prune-ShowsLogged {now} {t = t} s = record {
  distinct = sift-Distinct _ t s.distinct;
  shows = λ user. rw (single-prune now t user s.distinct) (Shows-keep (s.shows user));
}

pub later-ShowsLogged :
    {now later : ℕ} {log : Log} {t : Table ℕ}
    → now ≤ later
    → ShowsLogged now log t
    → ShowsLogged later log t
later-ShowsLogged h s = record {
  distinct = s.distinct;
  shows = λ user. Shows-later h (s.shows user);
}

pub other-ShowsLogged :
    {now : ℕ} {log : Log} {t : Table ℕ} (a : Admitted)
    → same_bucket a.bucket logged_bucket ≡ false
    → ShowsLogged now log t
    → ShowsLogged now (a ∷ log) t
other-ShowsLogged a e s = record {
  distinct = s.distinct;
  shows = λ user. Shows-other a (inl e) (s.shows user);
}

recent-single : (now : ℕ) (o : Option ℕ) → logged_recently now o ≡ leb 1 (recent now (single o))
unfolding recent
recent-single now none = refl
recent-single now (some t) = ground arith

none_fresh :
    (now : ℕ) (o : Option ℕ) → logged_recently now o ≡ false → keep (fresh now) (single o) ≡ []
none_fresh now none h = refl
none_fresh now (some t) h = ground arith

module _ {now : ℕ} {log : Log} {t : Table ℕ} (key : Text) (s : ShowsLogged now log t) where
  abbrev written : Admitted
  written = record { bucket = logged_bucket; user = key; at = now }

  written-Shows :
      logged_recently now (get t key) ≡ false
      → Shows now logged_bucket (written ∷ log) key (now ∷ [])
  unfolding same_bucket
  written-Shows free =
      let kept = Shows-keep (s.shows key) in
      Shows-add {ts = []} refl
        (subst (Shows now logged_bucket log key) (none_fresh now (get t key) free) kept)

  -- The event is written if none was in the last minute.
  pub put-ShowsLogged :
      logged_recently now (get t key) ≡ false → ShowsLogged now (written ∷ log) (put t key now)
  put-ShowsLogged free = record {
    distinct = put-Distinct t key now s.distinct;
    shows = λ user. elim (Bool-cases (eq_text key user)) [
      | inl e ↦
          rw (get-put t key user now, e)
            (subst (λ u. Shows now logged_bucket (written ∷ log) u (now ∷ []))
              (eq_text→eq key user e) (written-Shows free))
      | inr e ↦ rw (get-put t key user now, e) (Shows-other written (inr e) (s.shows user))
    ];
  }

  pub logged_count : logged_recently now (get t key) ≡ leb 1 (admitted logged_bucket key now log)
  logged_count = recent-single now (get t key) ∙ ap (leb 1) ((s.shows key).same now (omega arith))
