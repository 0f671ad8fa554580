-- ===== src/Relay/Routing.antt =====
-- packages/relay/src/router.ts: from a share's name to the executor that holds it. The database is
-- a parameter, as its queries.
pub mod Errors
pub mod Call
pub mod Reply
pub mod Tests
pub mod Visible
use constellation_mcp.Prelude.{
  ℕ, Bool, true, false, not, ◌&&◌, ◌||◌, List, [], ◌∷◌, ◌++◌, Option, none, some, if◌then◌else◌,
  ltb, length, keep, map,
}
use constellation_mcp.Prelude.Text.{Text, text, eq_text, join_with}
use constellation_mcp.Shared.Json.{Object}
use constellation_mcp.Shared.Permissions.{
  PermissionBlob, PermissionSubject, evaluate_permission_blob, no_access,
}

pub record RequestUser : Type 0 where
  pub id : Text
  pub groups : List Text
  pub claims : Object

-- The columns of an executor that the queries select.
pub record Executor : Type 0 where
  pub id : Text
  pub host : Text
  pub last_heartbeat_at : Option ℕ

pub record PathShare : Type 0 where
  pub user_id : Text
  pub share : Text
  pub reported_path : Text
  pub executor : Executor

pub record HubShare : Type 0 where
  pub share : Text
  pub permission_blob : PermissionBlob
  pub reported_path : Text
  pub executor : Executor

pub record Filter : Type 0 where
  pub pattern : Text
  pub pattern_type : Text

-- The queries. An empty host is no host, in all of them.
pub record Database : Type 0 where
  pub find_path_share : (user_id share : Text) → (host : Option Text) → Option PathShare
  pub find_hub_shares : (share host : Option Text) → List HubShare
  pub find_executor : (host user_id : Text) → Bool
  pub find_filters : (user_id executor_id : Text) → List Filter

pub record RouteResult : Type 0 where
  pub executor_id : Text
  pub absolute_root : Text
  pub host : Text
  pub last_heartbeat_at : Option ℕ

pub data Code : Type 0 where
  share_not_found host_not_found executor_offline path_filtered timeout cross_host ambiguous : Code

pub record RouterError : Type 0 where
  pub code : Code
  pub message : Text

pub data Resolved : Type 0 where
  found : RouteResult → Resolved
  failed : RouterError → Resolved

-- `host ? … : …`: the empty text counts as none.
abbrev pub given : Option Text → Option Text
given none = none
given (some []) = none
given (some (c ∷ s)) = some (c ∷ s)

pub route_to : Executor → Text → RouteResult
route_to executor root = record {
  executor_id = executor.id;
  absolute_root = root;
  host = executor.host;
  last_heartbeat_at = executor.last_heartbeat_at;
}

abbrev pub subject_of : RequestUser → PermissionSubject
subject_of user = record { sub = some user.id; groups = user.groups }

pub is_visible : RequestUser → HubShare → Bool
is_visible user hs =
    not (eq_text (evaluate_permission_blob hs.permission_blob (subject_of user)) no_access)

-- The errors of the resolution.
pub no_host : Text → RouterError
no_host host = record {
  code = host_not_found;
  message = text "No host '" ++ (host ++ text "' found");
}

pub no_share : Text → RouterError
no_share share = record {
  code = share_not_found;
  message = text "No share '" ++ (share ++ text "' found");
}

pub many_hosts : Text → List HubShare → RouterError
many_hosts share hubs = record {
  code = ambiguous;
  message =
      text "Share '"
      ++ (share
          ++ (text "' is available on multiple hosts you have access to: "
              ++ (join_with (text ", ") (map (λ h. h.executor.host) hubs)
                  ++ text ". Specify host to disambiguate.")));
}

-- What `accessible` is resolved to; `none` is `null`.
pub choose : Text → List HubShare → Option Resolved
choose share [] = none
choose share (h ∷ []) = some (found (route_to h.executor h.reported_path))
choose share (h ∷ k ∷ hs) = some (failed (many_hosts share (h ∷ k ∷ hs)))

module _ (db : Database) (user : RequestUser) where
  pub accessible_hub_shares : (share host : Option Text) → List HubShare
  accessible_hub_shares share host = keep (is_visible user) (db.find_hub_shares share (given host))

  pub user_can_see_host : Text → Bool
  user_can_see_host host =
      db.find_executor host user.id || ltb 0 (length (accessible_hub_shares none (some host)))

  pub resolve_hub_share : (share : Text) → (host : Option Text) → Option Resolved
  resolve_hub_share share host = choose share (accessible_hub_shares (some share) host)

  -- The answer when no share was found.
  pub not_found : (share : Text) → (host : Option Text) → RouterError
  not_found share none = no_share share
  not_found share (some host) =
      if not (user_can_see_host host) then no_host host else no_share share

  pub resolve_share : (share : Text) → (host : Option Text) → Resolved
  resolve_share share host = elim (db.find_path_share user.id share (given host)) [
    | some p ↦ found (route_to p.executor p.reported_path)
    | none ↦ elim (resolve_hub_share share host) [
      | some r ↦ r
      | none ↦ failed (not_found share (given host))
    ]
  ]
