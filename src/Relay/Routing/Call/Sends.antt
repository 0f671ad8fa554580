-- ===== src/Relay/Routing/Call/Sends.antt =====
-- packages/relay/src/router.ts: what is known of an RPC that the relay sends.
use constellation_mcp.Prelude.{
  ℕ, ◌≡◌, refl, sym, ◌⊎◌, inl, inr, Bool, true, false, List, Option, none, some, Bool-cases,
  Option-cases,
}
use constellation_mcp.Prelude.Text.{Text, text, eq_text, eq_text→eq, eq_text_refl}
use constellation_mcp.Prelude.Table.{get, put, get-put}
use constellation_mcp.Shared.Json.{as_text, str, Object, own}
use constellation_mcp.Shared.PathFilter.{Engine}
use constellation_mcp.Relay.Routing.{
  RequestUser, Database, RouteResult, RouterError, Resolved, found, failed, resolve_share,
}
use constellation_mcp.Relay.Routing.Call.{
  RpcEnvelope, paths_to_filter, dispatches, Params, sends, fails, load_path_filter_sources,
  check_candidates, effective_params, envelope, is_transfer, checked, prepare,
}
use constellation_mcp.Relay.Routing.Call.Named.{
  IsNamed, Passes, check_candidates-Passes, named-Passes,
}
use constellation_mcp.Relay.Routing.Call.Sources.{AreSources, load_path_filter_sources-AreSources}

resolved-cases :
    (r : Resolved) → ((x : RouteResult) × (r ≡ found x)) ⊎ ((e : RouterError) × (r ≡ failed e))
resolved-cases (found x) = inl (x, refl)
resolved-cases (failed e) = inr (e, refl)

params-cases : (p : Params) → ((o : Object) × (p ≡ sends o)) ⊎ ((e : RouterError) × (p ≡ fails e))
params-cases (sends o) = inl (o, refl)
params-cases (fails e) = inr (e, refl)

-- The parameters as they are sent: those of the call, with the root of the destination share,
-- on the same executor, if the call is a transfer that names one.
pub data IsSent (db : Database) (user : RequestUser) (tool : Text) (r : RouteResult)
    (params : Object) : Object → Type 0 where
  unchanged :
      {sent : Object}
      → (is_transfer tool ≡ false) ⊎ (as_text (own params (text "dst_share")) ≡ none)
      → sent ≡ params
      → IsSent db user tool r params sent
  with_root :
      {sent : Object} (d : Text) (q : RouteResult)
      → is_transfer tool ≡ true
      → as_text (own params (text "dst_share")) ≡ some d
      → resolve_share db user d (some r.host) ≡ found q
      → q.executor_id ≡ r.executor_id
      → get sent (text "dst_root") ≡ some (str q.absolute_root)
      → IsSent db user tool r params sent

effective_params-IsSent :
    (db : Database) (user : RequestUser) (tool share : Text) (r : RouteResult)
    (params sent : Object)
    → effective_params db user (is_transfer tool) share r params ≡ sends sent
    → IsSent db user tool r params sent
unfolding effective_params
effective_params-IsSent db user tool share r params sent e = elim (Bool-cases (is_transfer tool)) [
  | inr off ↦ unchanged (inl off) (sym (cc (rw (off, effective_params) at e)))
  | inl on ↦ elim (Option-cases (as_text (own params (text "dst_share")))) [
    | inl f ↦ unchanged (inr f) (sym (cc (rw (on, f, effective_params) at e)))
    | inr (d, f) ↦ elim (resolved-cases (resolve_share db user d (some r.host))) [
      | inr (x, g) ↦ cc (rw (on, f, g, effective_params) at e)
      | inl (q, g) ↦ elim (Bool-cases (eq_text q.executor_id r.executor_id)) [
        | inr other ↦ cc (rw (on, f, g, other, effective_params) at e)
        | inl same ↦
            let sent_is : put params (text "dst_root") (str q.absolute_root) ≡ sent =
              cc (rw (on, f, g, same, effective_params) at e) in
            with_root d q on f g (eq_text→eq q.executor_id r.executor_id same) (
              rw
                (
                  ← sent_is,
                  get-put params (text "dst_root") (text "dst_root") (str q.absolute_root),
                )
                (rw (eq_text_refl (text "dst_root"))))
      ]
    ]
  ]
]

module _ (engine : Engine) where
  module _ (sources : List Text) (connected : Text → Bool) (now : ℕ) (user : RequestUser)
      (forwarded_claims : List Text) (request_id tool share : Text) (r : RouteResult)
      (dst_share : Option Text) (params : Object) where
    abbrev Sent : Text → RpcEnvelope → Type 0
    Sent id env =
        (id ≡ r.executor_id)
        × (connected id ≡ true)
        × (env.absolute_root ≡ r.absolute_root)
        × (env.user_sub ≡ user.id)
        × (env.user_groups ≡ user.groups)
        × (env.path_filters ≡ sources)
        × (env.params ≡ params)
        × ((path : Text) → IsNamed r.absolute_root params path → Passes engine sources path)

    checked-Sent :
        (id : Text) (env : RpcEnvelope)
        → checked engine sources connected now user forwarded_claims request_id tool share r
            dst_share params
          ≡ dispatches id env
        → Sent id env
    unfolding checked
    checked-Sent id env e =
        elim (Option-cases (
          check_candidates engine sources
            (paths_to_filter r.absolute_root share dst_share params))) [
              | inr (x, f) ↦ cc (rw (f, checked) at e)
              | inl f ↦ elim (Bool-cases (connected r.executor_id)) [
                | inr off ↦ cc (rw (f, off, checked) at e)
                | inl on ↦
                    let same : dispatches r.executor_id (
                          envelope sources user forwarded_claims request_id tool share
                            r.absolute_root params)
                        ≡ dispatches id env =
                      rw (f, on, checked) at e in
                    let same_id : r.executor_id ≡ id = cc same in
                    let same_env : envelope sources user forwarded_claims request_id tool share
                          r.absolute_root params
                        ≡ env =
                      cc same in
                    rw (← same_id, ← same_env)
                      (
                        refl,
                        on,
                        refl,
                        refl,
                        refl,
                        refl,
                        refl,
                        named-Passes engine sources r.absolute_root share dst_share params (
                            check_candidates-Passes engine sources
                              (paths_to_filter r.absolute_root share dst_share params) f),
                      )
              ]
            ]

  -- An RPC is sent to a connected executor, the one that the share resolves to, with the root of that
  -- share, the user's identity and a source for each filter that the database has for the two, the
  -- one that blocks everything for a filter that is not accepted. Every path that the sent
  -- parameters name is short enough and passes the filters, and a destination share lies on the same
  -- executor. A destination's root is no path of its own: it is checked with the path in it only.
  pub prepare_lem :
      (db dst_db filter_db : Database) (connected : Text → Bool) (now : ℕ)
      (forwarded_claims : List Text) (request_id : Text) (user : RequestUser) (tool share : Text)
      (params : Object) (host : Option Text) (id : Text) (env : RpcEnvelope)
      → prepare engine db dst_db filter_db connected now forwarded_claims request_id user tool share
          params host
        ≡ dispatches id env
      → (r : RouteResult) × (resolve_share db user share host ≡ found r)
        × (id ≡ r.executor_id)
        × (connected id ≡ true)
        × (env.absolute_root ≡ r.absolute_root)
        × (env.user_sub ≡ user.id)
        × (env.user_groups ≡ user.groups)
        × AreSources engine (filter_db.find_filters user.id id) env.path_filters
        × IsSent dst_db user tool r params env.params
        × ((path : Text)
            → IsNamed r.absolute_root env.params path
            → Passes engine env.path_filters path)
  unfolding prepare
  prepare_lem db dst_db filter_db connected now forwarded request_id user tool share params host id
        env e =
      elim (resolved-cases (resolve_share db user share host)) [
        | inr (x, f) ↦ cc (rw (f, prepare) at e)
        | inl (r, f) ↦
            elim (params-cases (effective_params dst_db user (is_transfer tool) share r params)) [
              | inr (x, g) ↦ cc (rw (f, g, prepare) at e)
              | inl (sent, g) ↦
                  let sources = load_path_filter_sources engine filter_db user.id r.executor_id in
                  let (a, b, c, d, k, l, m, passes) =
                    checked-Sent sources connected now user forwarded request_id tool share r
                      (as_text (own params (text "dst_share"))) sent id env
                      (rw (f, g, prepare) at e) in
                  let is_sent = effective_params-IsSent dst_db user tool share r params sent g in
                  (
                    r,
                    f,
                    a,
                    b,
                    c,
                    d,
                    k,
                    rw (a, l)
                        (load_path_filter_sources-AreSources engine filter_db user.id
                          r.executor_id),
                    rw (m) is_sent,
                    rw (m, l) passes,
                  )
            ]
      ]
