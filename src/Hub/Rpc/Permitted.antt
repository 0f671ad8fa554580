-- ===== src/Hub/Rpc/Permitted.antt =====
-- packages/hub/src/index.ts: what is known of a request that reaches a worker.
use constellation_mcp.Prelude.{
  ◌≤◌, ◌≡◌, ◌≢◌, refl, ap, ◌∙◌, ◌⊎◌, inl, inr, List, [], ◌∷◌, Option, some, length, Option-cases,
}
use constellation_mcp.Prelude.Text.{Text, text, eq_text}
use constellation_mcp.Shared.Json.{Value, str, arr, obj, Fields, texts, entries, Object, own}
use constellation_mcp.Shared.Permissions.{PermissionSubject}
use constellation_mcp.Shared.Permissions.Groups.{groups_from_claims, groups_from_claims_iff, Reads}
use constellation_mcp.Shared.Permissions.Groups
use constellation_mcp.Shared.Executor.Filters.{
  max_envelope_path_filters, parse_path_filters, parse_path_filters_iff,
}
use constellation_mcp.Shared.Executor.Execute.{properties}
use constellation_mcp.Hub.Permissions.{ShareConfig, RpcPermissionResult, check_rpc_permission}
use constellation_mcp.Hub.Permissions.Laws.{MayRpc, check_rpc_permission_iff}
use constellation_mcp.Hub.Identity.{
  Getent, ResolvedIdentity, IdentityConfig, resolve_identity, Resolution, resolved,
}
use constellation_mcp.Hub.Identity
use constellation_mcp.Hub.Identity.Tiers.{RunsAs, resolve_identity_iff}
use constellation_mcp.Hub.Rpc.{
  RpcEnvelope, Registry, resolve_dst_share, Check, passes, refuses, AuditEntry, check_params,
  check_filters, check_sub, check_groups, check_claims, check_identity, check_permissions, Job,
  share_of, decide,
}

check-cases :
    {A : Type 0} (c : Check A) → ((a : A) × (c ≡ passes a)) ⊎ ((e : AuditEntry) × (c ≡ refuses e))
check-cases (passes a) = inl (a, refl)
check-cases (refuses e) = inr (e, refl)

check_params-passes :
    (share : Text) (sub v : Value) (p : Object)
    → check_params share sub v ≡ passes p
    → properties v ≡ some p
unfolding check_params properties
check_params-passes share sub (obj fs) p e = ap some (cc e)
check_params-passes share sub (arr vs) p e = ap some (cc e)
check_params-passes share sub v p e = cc e

check_filters-passes :
    (share : Text) (sub v : Value) (fs : List Text)
    → check_filters share sub v ≡ passes fs
    → (v ≡ arr (texts fs)) × (length fs ≤ max_envelope_path_filters)
unfolding check_filters
check_filters-passes share sub v fs e = elim (Option-cases (parse_path_filters v)) [
  | inl f ↦ cc (rw (f, check_filters) at e)
  | inr (gs, f) ↦
      let same : gs ≡ fs = cc (rw (f, check_filters) at e) in
      (parse_path_filters_iff v fs).0 (f ∙ ap some same)
]

check_sub-passes :
    (share : Text) (v : Value) (sub : Text)
    → check_sub share v ≡ passes sub
    → (v ≡ str sub) × (sub ≢ [])
unfolding check_sub
check_sub-passes share (str (c ∷ s)) sub e =
    let same : c ∷ s ≡ sub = cc e in (ap str same, λ n. cc (same, n))
check_sub-passes share (str []) sub e = cc e
check_sub-passes share v sub e = cc e

result-cases :
    (r : Groups.Result)
    → ((gs : List Text) × (r ≡ Groups.ok gs))
      ⊎ ((w : Groups.InvalidGroups) × (r ≡ Groups.refused w))
result-cases (Groups.ok gs) = inl (gs, refl)
result-cases (Groups.refused w) = inr (w, refl)

-- The groups of the envelope are an array that reads as a list of groups.
check_groups-passes :
    (share sub : Text) (v : Value) (gs : List Text)
    → check_groups share sub v ≡ passes gs
    → Reads (some v) gs
unfolding check_groups own eq_text
check_groups-passes share sub (arr vs) gs e =
    elim (result-cases (groups_from_claims ((text "groups", arr vs) ∷ []))) [
      | inr (w, f) ↦ cc (rw (f, check_groups) at e)
      | inl (hs, f) ↦
          let same : hs ≡ gs = cc (rw (f, check_groups) at e) in
          (groups_from_claims_iff ((text "groups", arr vs) ∷ []) gs).0 (f ∙ ap Groups.ok same)
    ]
check_groups-passes share sub v gs e = cc e

check_claims-passes :
    (share sub : Text) (v : Value) (claims : Object)
    → check_claims share sub v ≡ passes claims
    → (fs : Fields) × (v ≡ obj fs) × (entries fs ≡ claims)
unfolding check_claims
check_claims-passes share sub (obj fs) claims e = (fs, refl, cc e)
check_claims-passes share sub v claims e = cc e

resolution-cases :
    (r : Resolution) → ((id : ResolvedIdentity) × (r ≡ resolved id)) ⊎ (r ≡ Identity.refused)
resolution-cases (resolved id) = inl (id, refl)
resolution-cases Identity.refused = inr refl

check_identity-passes :
    (getent : Getent) (config : IdentityConfig) (share sub : Text) (claims : Object)
    (id : ResolvedIdentity)
    → check_identity getent config share sub claims ≡ passes id
    → RunsAs getent claims sub config id
unfolding check_identity
check_identity-passes getent config share sub claims id e =
    elim (resolution-cases (resolve_identity getent claims sub config)) [
      | inr f ↦ cc (rw (f, check_identity) at e)
      | inl (i, f) ↦
          let same : i ≡ id = cc (rw (f, check_identity) at e) in
          (resolve_identity_iff getent claims sub config id).0 (f ∙ ap resolved same)
    ]

permission-cases :
    (r : RpcPermissionResult)
    → (r ≡ RpcPermissionResult.permitted)
      ⊎ ((d why : Text) × (r ≡ RpcPermissionResult.refused d why))
permission-cases RpcPermissionResult.permitted = inl refl
permission-cases (RpcPermissionResult.refused d why) = inr (d, why, refl)

check_permissions-passes :
    (shares : List ShareConfig) (subject : PermissionSubject) (username share : Text)
    (dst : Option Text) (tool sub : Text)
    → check_permissions shares subject username share dst tool sub ≡ passes tt
    → MayRpc subject tool shares share dst
unfolding check_permissions
check_permissions-passes shares subject username share dst tool sub e =
    elim (permission-cases (check_rpc_permission subject share dst tool shares)) [
      | inl f ↦ (check_rpc_permission_iff subject tool shares share dst).0 f
      | inr (d, why, f) ↦ cc (rw (f, check_permissions) at e)
    ]

module _ (getent : Getent) (config : IdentityConfig) (shares : List ShareConfig) (cwd : Text)
    (registry : Registry) where
  -- A request that may run, as this job.
  pub record MayRun (e : RpcEnvelope) (job : Job) : Type 0 where
    pub named : job.share ≡ share_of registry e
    pub params : properties e.params ≡ some job.params
    pub filters : e.path_filters ≡ arr (texts job.filters)
    pub few_filters : length job.filters ≤ max_envelope_path_filters
    pub sub : e.user_sub ≡ str job.sub
    pub some_sub : job.sub ≢ []
    pub groups : Reads (some e.user_groups) job.groups
    pub claims : Fields
    pub has_claims : e.user_claims ≡ obj claims
    pub account : RunsAs getent (entries claims) job.sub config job.identity
    pub may :
        MayRpc
          (record { sub = some job.sub; groups = job.groups })
          e.tool
          shares
          job.share
          (resolve_dst_share cwd job.params e.tool registry)

  -- A request reaches a worker only with all of its filters, as the account that the claims or the
  -- map name for its user, and if the user may invoke the tool on the share and on the destination.
  pub decide-MayRun :
      (e : RpcEnvelope) (job : Job)
      → decide getent config shares cwd registry e ≡ passes job
      → MayRun e job
  unfolding decide
  decide-MayRun e job h =
      let share = share_of registry e in
      elim (check-cases (check_params share e.user_sub e.params)) [
        | inr (r, f) ↦ cc (rw (f, decide) at h)
        | inl (params, f) ↦ elim (check-cases (check_filters share e.user_sub e.path_filters)) [
          | inr (r, g) ↦ cc (rw (f, g, decide) at h)
          | inl (filters, g) ↦ elim (check-cases (check_sub share e.user_sub)) [
            | inr (r, k) ↦ cc (rw (f, g, k, decide) at h)
            | inl (sub, k) ↦ elim (check-cases (check_groups share sub e.user_groups)) [
              | inr (r, l) ↦ cc (rw (f, g, k, l, decide) at h)
              | inl (groups, l) ↦ elim (check-cases (check_claims share sub e.user_claims)) [
                | inr (r, m) ↦ cc (rw (f, g, k, l, m, decide) at h)
                | inl (claims, m) ↦
                    elim (check-cases (check_identity getent config share sub claims)) [
                      | inr (r, n) ↦ cc (rw (f, g, k, l, m, n, decide) at h)
                      | inl (id, n) ↦
                          elim (check-cases (
                            check_permissions shares (record { sub = some sub; groups = groups })
                              id.username share (resolve_dst_share cwd params e.tool registry)
                              e.tool sub)) [
                                | inr (r, o) ↦ cc (rw (f, g, k, l, m, n, o, decide) at h)
                                | inl (u, o) ↦
                                    let same : record {
                                      identity = id;
                                      sub = sub;
                                      groups = groups;
                                      share = share;
                                      params = params;
                                      filters = filters;
                                    }
                                        ≡ job =
                                      cc (rw (f, g, k, l, m, n, o, decide) at h) in
                                    let (all, few) =
                                      check_filters-passes share e.user_sub e.path_filters filters
                                        g in
                                    let (is_sub, some_sub) =
                                      check_sub-passes share e.user_sub sub k in
                                    let (fs, is_obj, are) =
                                      check_claims-passes share sub e.user_claims claims m in
                                    rw (← same) (record {
                                      named = refl;
                                      params =
                                          check_params-passes share e.user_sub e.params params f;
                                      filters = all;
                                      few_filters = few;
                                      sub = is_sub;
                                      some_sub = some_sub;
                                      groups = check_groups-passes share sub e.user_groups groups l;
                                      claims = fs;
                                      has_claims = is_obj;
                                      account = rw (are) (
                                          check_identity-passes getent config share sub claims id
                                            n);
                                      may =
                                          check_permissions-passes shares
                                            (record { sub = some sub; groups = groups }) id.username
                                            share (resolve_dst_share cwd params e.tool registry)
                                            e.tool sub o;
                                    })
                              ]
                    ]
              ]
            ]
          ]
        ]
      ]
