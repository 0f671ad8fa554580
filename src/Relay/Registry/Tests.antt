-- ===== src/Relay/Registry/Tests.antt =====
-- packages/relay/src/registry.ts: examples.
use constellation_mcp.Prelude.{◌<◌, ◌≤◌, ◌≡◌, refl, ◌≢◌, ◌⊎◌, [], ◌∷◌, none, some}
use constellation_mcp.Prelude.Text.{Text, text, eq_text}
use constellation_mcp.Prelude.Table.{get}
use constellation_mcp.Relay.Registry.{
  ConnectedExecutor, Connections, get_connection, Rpcs, PendingRpc, resolved,
  ResolvePendingRpcResult, no_rpcs, dispatch_pending_rpc, resolve_pending_rpc,
  reject_pending_rpcs_for_executor,
}
use constellation_mcp.Relay.Registry.Pending.{settlements}
use constellation_mcp.Relay.Registry.Settles.{
  Reach, start, next, dispatches, IsSettledOnce, settled_once,
}
use constellation_mcp.Relay.Registry.Disconnects.{dropped, disconnect_lem, resolve_lem}

abbrev old : ConnectedExecutor
old = record { identity = 1; executor_id = text "nas" }

abbrev new : ConnectedExecutor
new = record { identity = 2; executor_id = text "nas" }

abbrev connections : Connections
connections = (text "nas", old) ∷ []

holds : get_connection connections (text "nas") ≡ some old
unfolding get_connection get eq_text
holds = refl

-- One request in flight to an executor; responses are texts, and errors too.
abbrev waiting : Rpcs Text Text
waiting = dispatch_pending_rpc no_rpcs (text "r1") (text "nas")

reached : Reach waiting
reached = next start (dispatches (text "r1") (text "nas") refl)

settled_once_example :
    (0 < waiting.next_promise × IsSettledOnce waiting 0)
    ⊎ (waiting.next_promise ≤ 0 × (settlements 0 waiting.settled ≡ 0))
settled_once_example = settled_once waiting 0 reached

disconnect_lem_example :
    let t = reject_pending_rpcs_for_executor waiting (text "nas") (text "gone") in
    ((k : Text) → get t.pending k ≡ dropped (text "nas") (get waiting.pending k))
    × ((k : Text) (p : PendingRpc)
        → get waiting.pending k ≡ some p
        → p.executor_id ≡ text "nas"
        → settlements p.promise t.settled ≡ 1)
disconnect_lem_example = disconnect_lem waiting (text "nas") (text "gone") reached

resolve_lem_example :
    let (t, result) = resolve_pending_rpc waiting (text "r1") (text "laptop") (text "ok") in
    ((p : PendingRpc) × (get waiting.pending (text "r1") ≡ some p)
      × (p.executor_id ≡ text "laptop")
      × (result ≡ ResolvePendingRpcResult.resolved)
      × (t.settled ≡ (p.promise, resolved (text "ok")) ∷ waiting.settled)
      × (settlements p.promise t.settled ≡ 1)
      × (get t.pending (text "r1") ≡ none))
    ⊎ (((p : PendingRpc) → get waiting.pending (text "r1") ≡ some p → p.executor_id ≢ text "laptop")
        × (result ≢ ResolvePendingRpcResult.resolved)
        × (t ≡ waiting))
resolve_lem_example = resolve_lem waiting (text "r1") (text "laptop") (text "ok") reached
