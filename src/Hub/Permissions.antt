-- ===== src/Hub/Permissions.antt =====
-- packages/hub/src/permissions.ts: whether a user may invoke a tool on a share of the hub.
pub mod Laws
pub mod Tests
use constellation_mcp.Prelude.{
  Bool, true, false, not, ◌&&◌, List, [], ◌∷◌, ◌++◌, Option, none, some, any, find, if◌then◌else◌,
}
use constellation_mcp.Prelude.Text.{Text, text, eq_text}
use constellation_mcp.Shared.Permissions.{
  PermissionBlob, PermissionSubject, evaluate_permission_blob, read_only, read_write,
}

-- The fields of a share's configuration that permissions are read from.
pub record ShareConfig : Type 0 where
  pub name : Text
  pub permissions : PermissionBlob

pub data PermissionResult : Type 0 where
  permitted : (level : Text) → PermissionResult
  refused : (reason : Text) → PermissionResult

abbrev write_tools : List Text
write_tools =
    text "write_file"
    ∷ text "edit_file"
    ∷ text "create_directory"
    ∷ text "delete"
    ∷ text "move"
    ∷ text "copy"
    ∷ []

unfoldable pub is_write_tool : Text → Bool
is_write_tool tool = any (eq_text tool) write_tools

pub unlisted : Text → Text
unlisted share = text "Share '" ++ (share ++ text "' is not in the admin share config")

pub denied : Text → Text
denied share = text "Access to share '" ++ (share ++ text "' is denied")

pub no_writes : Text → Text
no_writes share =
    text "Share '" ++ (share ++ text "' is read-only; write operations are not permitted")

-- The checks on the access level that the blob gives.
check_level : Text → Text → Text → PermissionResult
check_level share tool level =
    if not (eq_text level read_only) && not (eq_text level read_write)
    then refused (denied share)
    else if is_write_tool tool && eq_text level read_only
    then refused (no_writes share)
    else permitted level

unfoldable pub check_permission :
    PermissionSubject → Text → Text → List ShareConfig → PermissionResult
unfolding check_level
check_permission subject share tool shares = elim (find (λ s. eq_text s.name share) shares) [
  | none ↦ refused (unlisted share)
  | some c ↦ check_level share tool (evaluate_permission_blob c.permissions subject)
]

pub data RpcPermissionResult : Type 0 where
  permitted : RpcPermissionResult
  refused : (share reason : Text) → RpcPermissionResult

-- The check of the destination share, after that of the source share.
check_destination :
    PermissionSubject → Text → Option Text → Text → List ShareConfig → RpcPermissionResult
check_destination subject share none tool shares = permitted
check_destination subject share (some dst) tool shares =
    if eq_text dst share then permitted else elim (check_permission subject dst tool shares) [
      | permitted level ↦ permitted
      | refused reason ↦ refused dst reason
    ]

unfoldable pub check_rpc_permission :
    PermissionSubject → Text → Option Text → Text → List ShareConfig → RpcPermissionResult
unfolding check_destination
check_rpc_permission subject share dst_share tool shares =
    elim (check_permission subject share tool shares) [
      | permitted level ↦ check_destination subject share dst_share tool shares
      | refused reason ↦ refused share reason
    ]

-- What the hub sends to the relay for a share.
pub build_permission_blob : ShareConfig → PermissionBlob
build_permission_blob share = record {
  default = share.permissions.default;
  overrides = share.permissions.overrides;
}
