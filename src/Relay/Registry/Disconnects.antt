-- ===== src/Relay/Registry/Disconnects.antt =====
-- Responses from the wrong connection, and what a disconnect does to the RPCs in flight.
use constellation_mcp.Prelude.{
  ℕ, ◌<◌, ◌≤◌, ◌≡◌, refl, ◌∙◌, ◌⊎◌, inl, inr, ◌≢◌, true, Option, none, some, arith, Bool-cases,
  Option-cases, [], ◌∷◌, if◌then◌else◌,
}
use mathlib.Core.Option.{some-injective}
use constellation_mcp.Prelude.Text.{Text, eq_text, eq_text→eq, eq_text_iff, eq_text_refl}
use constellation_mcp.Prelude.Table.{Table, get, get-delete, Distinct}
use constellation_mcp.Relay.Registry.{
  PendingRpc, resolved, rejected, Rpcs, ResolvePendingRpcResult, settle, resolve_pending_rpc,
  reject_entries, reject_pending_rpcs_for_executor,
}
use constellation_mcp.Relay.Registry.Pending.{settlements}
use constellation_mcp.Relay.Registry.Pending.Timers.{timers_of_mem}
use constellation_mcp.Relay.Registry.Settles.{Reach, next, disconnects, Reach-Inv}

-- What a disconnect of the executor leaves of an entry.
abbrev pub dropped : Text → Option PendingRpc → Option PendingRpc
dropped id none = none
dropped id (some p) = if eq_text p.executor_id id then none else some p

-- What the loop leaves under a key, by what it still has to see there.
abbrev left : Text → Option PendingRpc → Option PendingRpc → Option PendingRpc
left id none now = now
left id (some p) now = if eq_text p.executor_id id then none else now

left-dropped : (id : Text) (o : Option PendingRpc) → left id o o ≡ dropped id o
left-dropped id none = refl
left-dropped id (some p) = refl

module _ {R E : Type 0} where
  reject_entries-get :
      (id : Text) (e : E) (es : Table PendingRpc) (s : Rpcs R E) (j : Text)
      → Distinct es
      → get (reject_entries id e es s).pending j ≡ left id (get es j) (get s.pending j)
  unfolding reject_entries settle get
  reject_entries-get id e [] s j d = refl
  reject_entries-get id e ((k, p) ∷ es) s j d = elim (Bool-cases (eq_text p.executor_id id)) [
    | inl hit ↦ ground (
      arith,
      hit,
      reject_entries-get id e es (settle s k p.promise (rejected e)) j d.1,
      get-delete s.pending k j,
      eq_text_iff k j,
      d.0,
    )
    | inr miss ↦ ground (arith, miss, reject_entries-get id e es s j d.1, eq_text_iff k j, d.0)
  ]

  abbrev count : Rpcs R E → ℕ → ℕ
  count s n = settlements n s.settled

  reject_entries_mono :
      (id : Text) (e : E) (es : Table PendingRpc) (s : Rpcs R E) (n : ℕ)
      → count s n ≤ count (reject_entries id e es s) n
  unfolding reject_entries settle
  reject_entries_mono id e [] s n = omega arith
  reject_entries_mono id e ((k, p) ∷ es) s n = elim (Bool-cases (eq_text p.executor_id id)) [
    | inl hit ↦
        rw (hit, reject_entries)
          (omega (arith, reject_entries_mono id e es (settle s k p.promise (rejected e)) n))
    | inr miss ↦ rw (miss, reject_entries) (reject_entries_mono id e es s n)
  ]

  reject_entries-settles :
      (id : Text) (e : E) (es : Table PendingRpc) (s : Rpcs R E) (j : Text) (q : PendingRpc)
      → get es j ≡ some q
      → eq_text q.executor_id id ≡ true
      → 0 < count (reject_entries id e es s) q.promise
  unfolding reject_entries settle get
  reject_entries-settles id e [] s j q f h = cc
  reject_entries-settles id e ((k, p) ∷ es) s j q f h = elim (Bool-cases (eq_text k j)) [
    | inl here ↦
        let same : p ≡ q = some-injective p q (rw here at f) in
        let hit : eq_text p.executor_id id ≡ true = ground (arith, same, h) in
        rw (hit, reject_entries)
          (ground (
            arith,
            same,
            reject_entries_mono id e es (settle s k p.promise (rejected e)) q.promise,
          ))
    | inr later ↦ elim (Bool-cases (eq_text p.executor_id id)) [
      | inl hit ↦
          rw (hit, reject_entries)
            (reject_entries-settles id e es (settle s k p.promise (rejected e)) j q (rw later at f)
              h)
      | inr miss ↦
          rw (miss, reject_entries) (reject_entries-settles id e es s j q (rw later at f) h)
    ]
  ]

  -- A disconnect removes exactly the RPCs in flight to that executor, and the promise of each of
  -- them is settled.
  pub disconnect_lem :
      (s : Rpcs R E) (id : Text) (e : E)
      → Reach s
      → let t = reject_pending_rpcs_for_executor s id e in
        ((k : Text) → get t.pending k ≡ dropped id (get s.pending k))
        × ((k : Text) (p : PendingRpc)
            → get s.pending k ≡ some p
            → p.executor_id ≡ id
            → settlements p.promise t.settled ≡ 1)
  unfolding reject_pending_rpcs_for_executor
  disconnect_lem s id e r = (
    (λ k.
        reject_entries-get id e s.pending s k (Reach-Inv r).distinct
        ∙ left-dropped id (get s.pending k)),
    λ k p f h.
        let more =
          reject_entries-settles id e s.pending s k p f ((eq_text_iff p.executor_id id).1 h) in
        let once = (Reach-Inv (next r (disconnects id e refl))).once p.promise in
        ground (arith, more, once),
  )

  -- A response settles the promise that waits under its request id, and takes it out of the map,
  -- exactly when it comes from the executor that the request went to; otherwise nothing changes.
  pub resolve_lem :
      (s : Rpcs R E) (k responder : Text) (response : R)
      → Reach s
      → let (t, result) = resolve_pending_rpc s k responder response in
        ((p : PendingRpc) × (get s.pending k ≡ some p)
          × (p.executor_id ≡ responder)
          × (result ≡ ResolvePendingRpcResult.resolved)
          × (t.settled ≡ (p.promise, resolved response) ∷ s.settled)
          × (settlements p.promise t.settled ≡ 1)
          × (get t.pending k ≡ none))
        ⊎ (((p : PendingRpc) → get s.pending k ≡ some p → p.executor_id ≢ responder)
            × (result ≢ ResolvePendingRpcResult.resolved)
            × (t ≡ s))
  unfolding resolve_pending_rpc settle
  resolve_lem s k responder response r = elim (Option-cases (get s.pending k)) [
    | inl f ↦ rw (f, resolve_pending_rpc) (inr ((λ p g same. cc), (λ g. cc), refl))
    | inr (p, f) ↦ elim (Bool-cases (eq_text p.executor_id responder)) [
      | inl hit ↦
          let live = timers_of_mem s.timers ((Reach-Inv r).waiting k p f) in
          rw (f, hit, resolve_pending_rpc)
            (inl (
              p,
              refl,
              eq_text→eq p.executor_id responder hit,
              refl,
              refl,
              ground (arith, live, (Reach-Inv r).once p.promise),
              rw (get-delete s.pending k k, eq_text_refl k),
            ))
      | inr miss ↦
          rw (f, miss, resolve_pending_rpc)
            (inr (
              (λ q g same.
                  ground (arith, some-injective p q g, eq_text_iff p.executor_id responder)),
              (λ g. cc),
              refl,
            ))
    ]
  ]
