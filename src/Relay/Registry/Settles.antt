-- ===== src/Relay/Registry/Settles.antt =====
-- The RPC registry over time: any sequence of dispatches, responses, disconnects and timeouts.
use constellation_mcp.Prelude.{
  ℕ, ◌<◌, ◌≤◌, ◌≡◌, ◌⊎◌, inl, inr, arith, Memᴰ, ltb, ltb→lt, ltb-false, Bool-cases,
}
use constellation_mcp.Prelude.Text.{Text}
use constellation_mcp.Relay.Registry.{
  Timer, Rpcs, no_rpcs, dispatch_pending_rpc, fire, resolve_pending_rpc,
  reject_pending_rpcs_for_executor,
}
use constellation_mcp.Relay.Registry.Pending.{
  settlements, Inv, no_rpcs-Inv, dispatch-Inv, fire-Inv, resolve-Inv, reject-Inv,
}
use constellation_mcp.Relay.Registry.Pending.Timers.{timers_of}

module _ {R E : Type 0} where
  -- A call of the registry, or the callback of a timer that is live.
  pub data Step (s t : Rpcs R E) : Type 0 where
    dispatches :
        (request_id executor_id : Text)
        → t ≡ dispatch_pending_rpc s request_id executor_id
        → Step s t
    responds :
        (request_id responding_id : Text) (response : R)
        → t ≡ (resolve_pending_rpc s request_id responding_id response).0
        → Step s t
    disconnects :
        (executor_id : Text) (error : E)
        → t ≡ reject_pending_rpcs_for_executor s executor_id error
        → Step s t
    expires :
        (timer : Timer) (timeout : E) → Memᴰ timer s.timers → t ≡ fire s timer timeout → Step s t

  pub data Reach : Rpcs R E → Type 0 where
    start : Reach no_rpcs
    next : {s t : Rpcs R E} → Reach s → Step s t → Reach t

  Step-Inv : {s t : Rpcs R E} → Step s t → Inv s → Inv t
  Step-Inv {s} (dispatches k id e) v = rw e (dispatch-Inv s k id v)
  Step-Inv {s} (responds k id r e) v = rw e (resolve-Inv s k id r v)
  Step-Inv {s} (disconnects id x e) v = rw e (reject-Inv s id x v)
  Step-Inv {s} (expires t x m e) v = rw e (fire-Inv s t x m v)

  pub Reach-Inv : {s : Rpcs R E} → Reach s → Inv s
  Reach-Inv start = no_rpcs-Inv
  Reach-Inv (next r st) = Step-Inv st (Reach-Inv r)

  -- Settled, with no timer left; or not settled, with one timer that will reject it.
  abbrev pub IsSettledOnce : Rpcs R E → ℕ → Type 0
  IsSettledOnce s n =
      ((settlements n s.settled ≡ 1) × (timers_of n s.timers ≡ 0))
      ⊎ ((settlements n s.settled ≡ 0) × (timers_of n s.timers ≡ 1))

  -- Whatever happens, each promise that was given out is settled once and its timer is cleared, or
  -- it is not settled yet and its timer is live; and no other promise is settled.
  pub settled_once :
      (s : Rpcs R E) (n : ℕ)
      → Reach s
      → (n < s.next_promise × IsSettledOnce s n)
        ⊎ (s.next_promise ≤ n × (settlements n s.settled ≡ 0))
  settled_once s n r = elim (Bool-cases (ltb n s.next_promise)) [
    | inl e ↦ inl (ltb→lt n s.next_promise e, ground (arith, (Reach-Inv r).once n))
    | inr e ↦ inr (ltb-false n s.next_promise e, ground (arith, (Reach-Inv r).once n))
  ]
