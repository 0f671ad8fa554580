-- ===== src/Relay/Registry/Connections.antt =====
-- A slot of the connection registry is given up only by the connection that holds it.
use constellation_mcp.Prelude.{
  ◌≡◌, refl, sym, ap, ◌∙◌, ◌⊎◌, inl, inr, ◌≢◌, true, false, none, some, arith, Bool-cases,
  Option-cases, if◌then◌else◌, ◌==◌,
}
use mathlib.Core.Option.{some-injective}
use constellation_mcp.Prelude.Text.{Text, eq_text, eq_text_refl, eq_text_iff}
use constellation_mcp.Prelude.Table.{get, get-put, get-delete}
use constellation_mcp.Relay.Registry.{
  ConnectedExecutor, Connections, register_connection, unregister_connection, get_connection,
  is_same,
}

-- The connection that holds the slot.
abbrev pub Holds : Connections → ConnectedExecutor → Type 0
Holds cs conn =
    (c : ConnectedExecutor) × (get_connection cs conn.executor_id ≡ some c)
    × (c.identity ≡ conn.identity)

-- A connection that holds its slot is removed, and no other slot changes; any other one changes
-- nothing, as when a newer connection has taken the slot.
pub unregister_connection_lem :
    (cs : Connections) (conn : ConnectedExecutor)
    → (Holds cs conn
        × ((unregister_connection cs conn).1 ≡ true)
        × ((id : Text)
            → get_connection (unregister_connection cs conn).0 id
              ≡ (if eq_text conn.executor_id id then none else get_connection cs id)))
      ⊎ (¬ Holds cs conn × (unregister_connection cs conn ≡ (cs, false)))
unfolding unregister_connection get_connection is_same
unregister_connection_lem cs conn = elim (Option-cases (get cs conn.executor_id)) [
  | inl e ↦ inr ((λ (c, f, same). cc (e, f)), rw (e, unregister_connection))
  | inr (c, e) ↦ elim (Bool-cases (c.identity == conn.identity)) [
    | inl hit ↦ inl (
      (c, e, ground arith),
      rw (e, hit, unregister_connection) refl,
      rw (e, hit, unregister_connection) λ id. get-delete cs conn.executor_id id,
    )
    | inr miss ↦ inr (
      (λ (d, f, same).
          let there : c ≡ d = some-injective c d (sym e ∙ f) in
          ground (arith, ap (λ (x : ConnectedExecutor). x.identity) there)),
      rw (e, miss, unregister_connection),
    )
  ]
]

-- After a reconnect the connection that was replaced is given to the caller, and its late
-- unregistration is refused: the new connection keeps the slot.
pub unregister-register :
    (cs : Connections) (old new : ConnectedExecutor)
    → old.executor_id ≡ new.executor_id
    → old.identity ≢ new.identity
    → get_connection cs old.executor_id ≡ some old
    → let (cs', replaced) = register_connection cs new in
      (replaced ≡ some old)
      × (unregister_connection cs' old ≡ (cs', false))
      × (get_connection cs' new.executor_id ≡ some new)
unfolding register_connection unregister_connection get_connection
unregister-register cs old new same n held = (
  rw (← same) held,
  rw (get-put cs new.executor_id old.executor_id new, unregister_connection)
      (rw ((eq_text_iff new.executor_id old.executor_id).1 (sym same)) (ground (arith, n))),
  rw (get-put cs new.executor_id new.executor_id new, eq_text_refl new.executor_id),
)
