-- ===== src/Hub/Permissions/Tests.antt =====
-- packages/hub/src/permissions.ts: examples.
use constellation_mcp.Prelude.{◌≡◌, ◌↔◌, [], ◌∷◌, none, some}
use constellation_mcp.Prelude.Text.{text}
use constellation_mcp.Shared.Permissions.{
  PermissionSubject, for_sub, no_access, read_only, read_write,
}
use constellation_mcp.Hub.Permissions.{ShareConfig, RpcPermissionResult, check_rpc_permission}
use constellation_mcp.Hub.Permissions.Laws.{MayRpc, check_rpc_permission_iff}

abbrev bob : PermissionSubject
bob = record { sub = some (text "bob"); groups = [] }

abbrev docs : ShareConfig
docs = record { name = text "docs"; permissions = record { default = read_only; overrides = none } }

abbrev work : ShareConfig
work = record {
  name = text "work";
  permissions = record {
    default = no_access;
    overrides = some (for_sub (text "bob") read_write ∷ []);
  };
}

-- A copy writes to its destination, and the check asks for that on the source too.
check_rpc_permission_iff_example :
    (check_rpc_permission bob (text "work") (some (text "docs")) (text "copy") (docs ∷ work ∷ [])
      ≡ RpcPermissionResult.permitted)
    ↔ MayRpc bob (text "copy") (docs ∷ work ∷ []) (text "work") (some (text "docs"))
check_rpc_permission_iff_example =
    check_rpc_permission_iff bob (text "copy") (docs ∷ work ∷ []) (text "work") (some (text "docs"))
