-- ===== src/Relay/Registry/Pending.antt =====
-- Every promise of an RPC is settled once: by the response, by a disconnect or by its timer.
pub mod Timers
use constellation_mcp.Prelude.{
  ℕ, suc, ◌+◌, ◌<◌, ◌≤◌, ◌≡◌, refl, sym, ap, ◌∙◌, ◌⊎◌, inl, inr, ◌≢◌, Bool, true, false, List, [],
  ◌∷◌, Option, none, some, arith, Bool-cases, Option-cases, Memᴰ, All, ltb, if◌then◌else◌, ◌==◌,
  subst, All-of_mem, All-mem,
}
use mathlib.Core.Option.{some-injective}
use constellation_mcp.Prelude.Text.{Text, eq_text, eq_text_refl, eq_text_iff, eq_text→eq}
use constellation_mcp.Prelude.Table.{
  Table, get, put, delete, get-put, get-delete, Distinct, put-Distinct, delete-Distinct, get-entry,
}
use constellation_mcp.Relay.Registry.{
  PendingRpc, Timer, Outcome, resolved, rejected, Rpcs, ResolvePendingRpcResult, not_found,
  owner_mismatch, no_rpcs, dispatch_pending_rpc, fire, settle, resolve_pending_rpc, reject_entries,
  reject_pending_rpcs_for_executor, clear,
}
use Timers.{timers_of, timers_of-clear, timers_of_mem, timers_of_two, mem-clear}

module _ {R E : Type 0} where
  -- How often the promise was settled.
  abbrev pub settlements : ℕ → List (ℕ × Outcome R E) → ℕ
  settlements n [] = 0
  settlements n ((m, o) ∷ rest) = (if m == n then 1 else 0) + settlements n rest

  pub record Inv (s : Rpcs R E) : Type 0 where
    pub distinct : Distinct s.pending
    pub waiting :
        (k : Text) (p : PendingRpc)
        → get s.pending k ≡ some p
        → Memᴰ (record { promise = p.promise; request_id = k }) s.timers
    pub once :
        (n : ℕ)
        → timers_of n s.timers + settlements n s.settled ≡ (if ltb n s.next_promise then 1 else 0)

  pub no_rpcs-Inv : Inv no_rpcs
  unfolding no_rpcs get timers_of
  no_rpcs-Inv = record { distinct = tt; waiting = λ k p e. cc; once = λ n. ground arith }

  pub dispatch-Inv :
      (s : Rpcs R E) (request_id executor_id : Text)
      → Inv s
      → Inv (dispatch_pending_rpc s request_id executor_id)
  unfolding dispatch_pending_rpc timers_of
  dispatch-Inv s k id v = record {
    distinct = put-Distinct s.pending k _ v.distinct;
    waiting = λ j p e. elim (Bool-cases (eq_text k j)) [
      | inl same ↦
          let found : record { promise = s.next_promise; executor_id = id } ≡ p =
            some-injective _ p (
              rw
                (
                  get-put s.pending k j (record { promise = s.next_promise; executor_id = id }),
                  same,
                )
                at e) in
          Memᴰ.head (ground (arith, found, eq_text→eq k j same))
      | inr other ↦ Memᴰ.tail (
          v.waiting j p (
            rw
              (get-put s.pending k j (record { promise = s.next_promise; executor_id = id }), other)
              at e))
    ];
    once = λ n. ground (arith, v.once n);
  }

  -- The timers of one promise have one request id.
  one_timer :
      (s : Rpcs R E) (k : Text) (n : ℕ) (j : Text) (i : ℕ)
      → Memᴰ (record { promise = n; request_id = k }) s.timers
      → eq_text k j ≡ false
      → Memᴰ (record { promise = i; request_id = j }) s.timers
      → Inv s
      → i ≢ n
  one_timer s k n j i m other w v e =
      let two = timers_of_two s.timers m w (sym e) (λ q. ground (arith, eq_text_iff k j)) in
      ground (arith, v.once n, two)

  settle-Inv :
      (s : Rpcs R E) (k : Text) (n : ℕ) (o : Outcome R E)
      → Memᴰ (record { promise = n; request_id = k }) s.timers
      → Inv s
      → Inv (settle s k n o)
  unfolding settle
  settle-Inv s k n o m v = record {
    distinct = delete-Distinct s.pending k v.distinct;
    waiting = λ j p e. elim (Bool-cases (eq_text k j)) [
      | inl same ↦ cc (rw (get-delete s.pending k j, same) at e)
      | inr other ↦
          let w = v.waiting j p (rw (get-delete s.pending k j, other) at e) in
          mem-clear n s.timers (one_timer s k n j p.promise m other w v) w
    ];
    once = λ i. ground (arith, v.once i, timers_of-clear n i s.timers, timers_of_mem s.timers m);
  }

  pub fire-Inv : (s : Rpcs R E) (t : Timer) (e : E) → Memᴰ t s.timers → Inv s → Inv (fire s t e)
  unfolding fire settle
  fire-Inv s t e m v = settle-Inv s t.request_id t.promise (rejected e) m v

  pub resolve-Inv :
      (s : Rpcs R E) (k responder : Text) (r : R)
      → Inv s
      → Inv (resolve_pending_rpc s k responder r).0
  unfolding resolve_pending_rpc
  resolve-Inv s k responder r v = elim (Option-cases (get s.pending k)) [
    | inl e ↦ rw (e, resolve_pending_rpc) v
    | inr (p, e) ↦ elim (Bool-cases (eq_text p.executor_id responder)) [
      | inl hit ↦
          rw (e, hit, resolve_pending_rpc)
            (settle-Inv s k p.promise (resolved r) (v.waiting k p e) v)
      | inr miss ↦ rw (e, miss, resolve_pending_rpc) v
    ]
  ]

  -- The entries that the loop still has to see are still in the map.
  abbrev pub AreIn : Table PendingRpc → Rpcs R E → Type 0
  AreIn es s = All (λ e. get s.pending e.0 ≡ some e.1) es

  pub AreIn-settle :
      (es : Table PendingRpc) (k : Text) (n : ℕ) (o : Outcome R E) (s : Rpcs R E)
      → get es k ≡ none
      → AreIn es s
      → AreIn es (settle s k n o)
  unfolding settle get
  AreIn-settle [] k n o s free h = tt
  AreIn-settle ((j, p) ∷ es) k n o s free h =
      ground
        (arith, get-delete s.pending k j, eq_text_iff j k, eq_text_iff k j, AreIn-settle es k n o s)

  reject_entries-Inv :
      (id : Text) (e : E) (es : Table PendingRpc) (s : Rpcs R E)
      → Distinct es
      → AreIn es s
      → Inv s
      → Inv (reject_entries id e es s)
  unfolding reject_entries
  reject_entries-Inv id e [] s d h v = v
  reject_entries-Inv id e ((k, p) ∷ es) s d h v = elim (Bool-cases (eq_text p.executor_id id)) [
    | inl hit ↦ rw hit (
        reject_entries-Inv id e es (settle s k p.promise (rejected e)) d.1
          (AreIn-settle es k p.promise (rejected e) s d.0 h.1)
          (settle-Inv s k p.promise (rejected e) (v.waiting k p h.0) v))
    | inr miss ↦ rw miss (reject_entries-Inv id e es s d.1 h.1 v)
  ]

  pub AreIn-self : (s : Rpcs R E) → Inv s → AreIn s.pending s
  AreIn-self s v = All-of_mem _ s.pending (λ (k, p) m. get-entry s.pending v.distinct m)

  pub reject-Inv :
      (s : Rpcs R E) (id : Text) (e : E) → Inv s → Inv (reject_pending_rpcs_for_executor s id e)
  unfolding reject_pending_rpcs_for_executor
  reject-Inv s id e v = reject_entries-Inv id e s.pending s v.distinct (AreIn-self s v) v
