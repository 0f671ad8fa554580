-- ===== src/Hub/Worker/Sound.antt =====
-- packages/hub/src/subnode-worker.ts: when the worker exits.
use constellation_mcp.Prelude.{
  ◌≡◌, ◌≢◌, refl, ap, ℕ, suc, ◌+◌, ◌-◌, Bool, true, false, not, ◌&&◌, List, [], ◌∷◌, Memᴰ, Option,
  none, some, arith, if◌then◌else◌, length, ◌==◌,
}
use constellation_mcp.Prelude.Text.{Text, eq_text_refl}
use constellation_mcp.Shared.Json.{Value}
use constellation_mcp.Hub.Worker.{
  Message, init, request, read_message, exits, killed, ToolResult, Sent, State, started, send,
  leave, on_message, on_valid_message, on_late_message, refuse_late, remove_one, settle,
  begin_shutdown, on_timer, on_disconnect,
}

-- The states of a worker; a process that has exited takes no step.
pub data Reach : State → Type 0 where
  starts : Reach started
  message : {s : State} (raw : Value) → Reach s → s.exit ≡ none → Reach (on_message s raw)
  settles :
      {s : State} (id : Text) (result : ToolResult)
      → Reach s
      → s.exit ≡ none
      → Memᴰ id s.running
      → Reach (settle s id result)
  sigterm : {s : State} → Reach s → s.exit ≡ none → Reach (begin_shutdown s)
  disconnects : {s : State} → Reach s → s.exit ≡ none → Reach (on_disconnect s)
  grace_over : {s : State} → Reach s → s.exit ≡ none → s.timer ≡ true → Reach (on_timer s)

-- Requests run only with an executor, and are counted; the worker exits with 0 exactly if it is
-- shutting down and runs nothing, and is killed only while it runs something.
pub record IsSound (s : State) : Type 0 where
  pub counted : s.in_flight ≡ length s.running
  pub served : s.executor ≡ none → s.running ≡ []
  pub drained : s.exit ≡ some (exits 0) → (s.is_shutting_down ≡ true) × (s.running ≡ [])
  pub leaves : s.is_shutting_down ≡ true → s.running ≡ [] → s.exit ≡ some (exits 0)
  pub overdue : s.exit ≡ some killed → s.running ≢ []
  pub timed : s.timer ≡ true → s.is_shutting_down ≡ true

if-IsSound :
    (b : Bool) (s t : State)
    → (b ≡ true → IsSound s)
    → (b ≡ false → IsSound t)
    → IsSound (if b then s else t)
if-IsSound true s t v w = v refl
if-IsSound false s t v w = w refl

length-remove_one :
    (id : Text) (rs : List Text) → Memᴰ id rs → suc (length (remove_one id rs)) ≡ length rs
unfolding remove_one
length-remove_one id [] m = elim m [ ]
length-remove_one id (r ∷ rs) (Memᴰ.head e) = rw (← e, eq_text_refl id) refl
length-remove_one id (r ∷ rs) (Memᴰ.tail m) = ground (arith, length-remove_one id rs m)

none-length : (rs : List Text) → length rs ≡ 0 → rs ≡ []
none-length [] e = refl
none-length (r ∷ rs) e = absurd (omega arith)

send-IsSound : (s : State) (m : Sent) → IsSound s → IsSound (send s m)
unfolding send
send-IsSound s m v = record {
  counted = v.counted;
  served = v.served;
  drained = v.drained;
  leaves = v.leaves;
  overdue = v.overdue;
  timed = v.timed;
}

-- A fatal error, which ends a worker that is not shutting down.
fatal-IsSound : (s : State) → s.is_shutting_down ≡ false → IsSound s → IsSound (leave s (exits 1))
unfolding leave
fatal-IsSound s opened v = record {
  counted = v.counted;
  served = v.served;
  drained = λ e. cc e;
  leaves = λ e. cc (e, opened);
  overdue = λ e. cc e;
  timed = v.timed;
}

late-IsSound : (s : State) (id : Option Value) → IsSound s → IsSound (refuse_late s id)
unfolding refuse_late
late-IsSound s (some (Value.str id)) v = send-IsSound s (Sent.shutting_down id) v
late-IsSound s id v = v

on_late_message-IsSound : (s : State) (raw : Value) → IsSound s → IsSound (on_late_message s raw)
unfolding on_late_message
on_late_message-IsSound s (Value.obj fs) v = late-IsSound s _ v
on_late_message-IsSound s raw v = v

-- The request that is put on has an executor.
begins-IsSound :
    (s : State) (id : Text)
    → s.exit ≡ none
    → s.is_shutting_down ≡ false
    → s.executor ≢ none
    → IsSound s
    → IsSound (record s { in_flight = s.in_flight + 1; running = id ∷ s.running })
begins-IsSound s id alive opened has v = record {
  counted = omega (arith, v.counted);
  served = λ e. absurd (has e);
  drained = λ e. cc (e, alive);
  leaves = λ e. cc (e, opened);
  overdue = λ e. cc (e, alive);
  timed = v.timed;
}

ready-IsSound :
    (s : State) (x : Value × ℕ)
    → s.is_shutting_down ≡ false
    → IsSound s
    → IsSound (record s { executor = some x; initialized = true })
ready-IsSound s x opened v = record {
  counted = v.counted;
  served = λ e. cc e;
  drained = v.drained;
  leaves = v.leaves;
  overdue = v.overdue;
  timed = v.timed;
}

on_valid_message-IsSound :
    (s : State) (m : Message)
    → s.exit ≡ none
    → s.is_shutting_down ≡ false
    → IsSound s
    → IsSound (on_valid_message s m)
unfolding on_valid_message
on_valid_message-IsSound s (init shares max) alive opened v =
    if-IsSound s.initialized _ _ (λ e. fatal-IsSound s opened v)
      λ e. send-IsSound _ Sent.ready (ready-IsSound s (shares, max) opened v)
on_valid_message-IsSound s (request id tool share params filters) alive opened v =
    if-IsSound (not s.initialized) _ _ (λ e. fatal-IsSound s opened v) λ e. go s.executor refl
  where
    go :
        (x : Option (Value × ℕ))
        → s.executor ≡ x
        → IsSound (elim x [
          | none ↦ leave s (exits 1)
          | some e ↦ record s { in_flight = s.in_flight + 1; running = id ∷ s.running }
        ])
    go none e = fatal-IsSound s opened v
    go (some x) e = begins-IsSound s id alive opened (λ f. cc (e, f)) v

on_message-IsSound :
    (s : State) (raw : Value) → s.exit ≡ none → IsSound s → IsSound (on_message s raw)
unfolding on_message
on_message-IsSound s raw alive v =
    if-IsSound s.is_shutting_down _ _ (λ e. on_late_message-IsSound s raw v)
      λ e. go (read_message raw) e
  where
    go :
        (m : Option Message)
        → s.is_shutting_down ≡ false
        → IsSound (elim m [ none ↦ leave s (exits 1) | some k ↦ on_valid_message s k ])
    go none opened = fatal-IsSound s opened v
    go (some m) opened = on_valid_message-IsSound s m alive opened v

begin_shutdown-IsSound : (s : State) → s.exit ≡ none → IsSound s → IsSound (begin_shutdown s)
unfolding begin_shutdown leave
begin_shutdown-IsSound s alive v =
    if-IsSound s.is_shutting_down _ _ (λ e. v)
      λ opened.
        if-IsSound (s.in_flight == 0) _ _
          (λ z.
            let idle : s.running ≡ [] = none-length s.running (ground (arith, v.counted)) in
            record {
              counted = v.counted;
              served = v.served;
              drained = λ e. (refl, idle);
              leaves = λ e f. refl;
              overdue = λ e. cc e;
              timed = λ e. refl;
            })
          λ z. record {
            counted = v.counted;
            served = v.served;
            drained = λ e. cc (e, alive);
            leaves = λ e f. absurd (ground (arith, v.counted, ap length f));
            overdue = λ e. cc (e, alive);
            timed = λ e. refl;
          }

on_timer-IsSound : (s : State) → s.exit ≡ none → s.timer ≡ true → IsSound s → IsSound (on_timer s)
unfolding on_timer leave
on_timer-IsSound s alive runs v = record {
  counted = v.counted;
  served = v.served;
  drained = λ e. cc e;
  leaves = λ e f. cc (v.leaves (v.timed runs) f, alive);
  overdue = λ e f. cc (v.leaves (v.timed runs) f, alive);
  timed = v.timed;
}

settle-IsSound :
    (s : State) (id : Text) (result : ToolResult)
    → s.exit ≡ none
    → Memᴰ id s.running
    → IsSound s
    → IsSound (settle s id result)
unfolding settle leave send
settle-IsSound s id result alive m v =
    let fewer : suc (length (remove_one id s.running)) ≡ length s.running =
      length-remove_one id s.running m in
    let one : s.in_flight - 1 ≡ length (remove_one id s.running) =
      omega (arith, v.counted, fewer) in
    let has : s.executor ≢ none = λ e. omega (arith, fewer, ap length (v.served e)) in
    if-IsSound (s.is_shutting_down && (s.in_flight - 1) == 0) _ _
      (λ z. record {
        counted = one;
        served = λ e. absurd (has e);
        drained = λ e. (ground arith, none-length (remove_one id s.running) (ground arith));
        leaves = λ e f. refl;
        overdue = λ e. cc e;
        timed = v.timed;
      })
      λ z. record {
        counted = one;
        served = λ e. absurd (has e);
        drained = λ e. cc (e, alive);
        leaves = λ e f. absurd (let k = ap length f in ground arith);
        overdue = λ e. cc (e, alive);
        timed = v.timed;
      }

-- In every reachable state the requests that run are counted and have an executor; the worker exits
-- with 0 exactly if it is shutting down and runs nothing; it is killed only while it runs something.
pub Reach-IsSound : {s : State} → Reach s → IsSound s
unfolding started on_disconnect
Reach-IsSound starts = record {
  counted = refl;
  served = λ e. refl;
  drained = λ e. cc e;
  leaves = λ e. cc e;
  overdue = λ e. cc e;
  timed = λ e. cc e;
}
Reach-IsSound (message {s} raw r alive) = on_message-IsSound s raw alive (Reach-IsSound r)
Reach-IsSound (settles {s} id result r alive m) =
    settle-IsSound s id result alive m (Reach-IsSound r)
Reach-IsSound (sigterm {s} r alive) = begin_shutdown-IsSound s alive (Reach-IsSound r)
Reach-IsSound (disconnects {s} r alive) =
    let v = Reach-IsSound r in
    begin_shutdown-IsSound (record s { connected = false }) alive
      (record {
        counted = v.counted;
        served = v.served;
        drained = v.drained;
        leaves = v.leaves;
        overdue = v.overdue;
        timed = v.timed;
      })
Reach-IsSound (grace_over {s} r alive runs) = on_timer-IsSound s alive runs (Reach-IsSound r)
