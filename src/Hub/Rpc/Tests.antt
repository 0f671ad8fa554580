-- ===== src/Hub/Rpc/Tests.antt =====
-- packages/hub/src/index.ts: examples.
use constellation_mcp.Prelude.{
  ◌≡◌, refl, sym, inr, true, false, List, [], ◌∷◌, none, some, All, All-mem,
}
use mathlib.Core.Option.{some-injective}
use constellation_mcp.Prelude.Text.{Text, text, eq_text, starts_with}
use constellation_mcp.Prelude.Strings.{
  split_on, trim, trim_end, trim_start, is_space, parse_int, is_digit,
}
use constellation_mcp.Shared.Json.{str, arr, obj, nil, end, field, entries, own}
use constellation_mcp.Shared.NodePath.{join, resolve_path}
use constellation_mcp.Shared.PathFilter.{blocks, compile_all, active}
use constellation_mcp.Shared.PathFilter.Tests.{literals}
use constellation_mcp.Shared.Permissions.{
  read_write, read_only, evaluate_permission_blob, resolve_access, by_sub, best_group,
}
use constellation_mcp.Shared.Permissions.Groups.{groups_from_claims}
use constellation_mcp.Shared.Executor.Filters.{parse_path_filters}
use constellation_mcp.Shared.Executor.SafePath.{found, safe_realpath, resolve, is_inside}
use constellation_mcp.Shared.Executor.Tool.{
  tool_named, mutation_root_fields, required_resolved_fields,
}
use constellation_mcp.Shared.Executor.Dispatch.{
  at, move, string_at, required_at, dispatch, dir_op_path, switch, path_at,
}
use constellation_mcp.Shared.Executor.Execute.{
  Disk, execute, performs, properties, resolve_dst, root_of, paths_to_validate, validate,
  check_path, check_mutation, check_required, run_tool,
}
use constellation_mcp.Hub.Permissions.{
  ShareConfig, check_rpc_permission, check_permission, is_write_tool,
}
use constellation_mcp.Hub.Identity.{
  getpwnam, is_username, first_claim, resolve_os_user, resolve_identity,
}
use constellation_mcp.Hub.Identity.Tests.{getent, bob, config}
use constellation_mcp.Hub.Rpc.{
  RpcEnvelope, Registry, passes, Job, is_transfer, resolve_dst_share, guess_share, check_params,
  check_filters, check_sub, check_groups, check_claims, check_identity, check_permissions, share_of,
  decide,
}
use constellation_mcp.Hub.Rpc.Permitted.{MayRun, decide-MayRun}
use constellation_mcp.Hub.Rpc.Destination.{PlainNames, DstRootIsReal, MayWrite, decide-copy}

abbrev share : Text → ShareConfig
share name = record { name = name; permissions = record { default = read_write; overrides = none } }

abbrev shares : List ShareConfig
shares = share (text "docs") ∷ share (text "work") ∷ []

abbrev registry : Registry
registry = (text "docs", text "/srv/docs") ∷ (text "work", text "/srv/work") ∷ []

-- A move to another share, which is named by its path.
abbrev envelope : RpcEnvelope
envelope = record {
  request_id = text "r1";
  tool = text "move";
  share = text "docs";
  absolute_root = text "/srv/docs";
  params = obj (
      field (text "src_relative_path") (str (text "a")) (
        field (text "dst_relative_path") (str (text "b"))
          (field (text "dst_root") (str (text "/srv/work")) end)));
  path_filters = arr nil;
  user_sub = str (text "s1");
  user_groups = arr nil;
  user_claims = obj (field (text "constellation_username") (str (text "bob")) end);
}

abbrev job : Job
job = record {
  identity = bob;
  sub = text "s1";
  groups = [];
  share = text "docs";
  params =
      (text "src_relative_path", str (text "a"))
      ∷ (text "dst_relative_path", str (text "b"))
      ∷ (text "dst_root", str (text "/srv/work"))
      ∷ [];
  filters = [];
}

decided : decide getent config shares (text "/") registry envelope ≡ passes job
unfolding decide share_of check_params check_filters check_sub check_groups check_claims
    check_identity check_permissions resolve_dst_share guess_share is_transfer entries own eq_text
    parse_path_filters groups_from_claims resolve_path resolve_identity resolve_os_user first_claim
    getpwnam is_username split_on trim trim_end trim_start is_space parse_int is_digit
    check_rpc_permission check_permission is_write_tool evaluate_permission_blob resolve_access
    by_sub best_group starts_with
decided = refl

decide-MayRun_example : MayRun getent config shares (text "/") registry envelope job
decide-MayRun_example = decide-MayRun getent config shares (text "/") registry envelope job decided

-- A disk without links.
abbrev disk : Disk
disk = record {
  resolve_dst_root = λ depth path. found (resolve_path (text "/") path);
  resolve_field = λ f depth path. found path;
  is_directory = λ path. false;
}

moved :
    execute literals disk [] 100 registry (text "move") (text "docs") envelope.params
    ≡ performs (
        move
          (text "/srv/docs/a")
          (text "/srv/work/b")
          (at (text "/srv/docs"))
          (at (text "/srv/work"))
          (text "b"))
unfolding execute root_of own eq_text properties entries resolve_dst string_at required_at
    paths_to_validate validate check_path safe_realpath resolve is_inside starts_with join blocks
    compile_all active check_mutation mutation_root_fields check_required required_resolved_fields
    run_tool dispatch dir_op_path switch path_at tool_named resolve_path
moved = refl

no_slashes : All (λ (c : ShareConfig). starts_with (text "/") c.name ≡ false) shares
unfolding starts_with
no_slashes = (refl, (refl, tt))

plain_names : PlainNames shares
unfolding starts_with
plain_names c rest m f =
    let h : starts_with (text "/") c.name ≡ false =
      All-mem (λ (x : ShareConfig). starts_with (text "/") x.name ≡ false) shares no_slashes m in
    cc (rw (f) at h)

safe_realpath-plain :
    (raw r : Text)
    → safe_realpath disk.resolve_dst_root raw raw ≡ some r
    → r ≡ resolve_path (text "/") raw
unfolding safe_realpath resolve
safe_realpath-plain raw r e = sym (some-injective (resolve_path (text "/") raw) r e)

dst_root_is_real : DstRootIsReal (text "/") disk.resolve_dst_root job.params
dst_root_is_real raw r none_named e f = safe_realpath-plain raw r f

transfer : is_transfer (text "move") ≡ true
unfolding is_transfer eq_text
transfer = refl

decide-copy_example :
    MayWrite
      (record { sub = some (text "s1"); groups = [] })
      (text "move")
      shares
      registry
      (at (text "/srv/work"))
decide-copy_example =
    decide-copy literals disk [] 100 getent config shares (text "/") registry envelope job
      (text "/srv/docs/a") (text "/srv/work/b") (at (text "/srv/docs")) (at (text "/srv/work"))
      (text "b") plain_names dst_root_is_real transfer decided (inr moved)

-- A destination root that leads through a link: the hub checks the share that its name resolves to,
-- the executor moves to the root of another one, which the user may only read.
abbrev linked_shares : List ShareConfig
linked_shares =
    record { name = text "kept"; permissions = record { default = read_only; overrides = none } }
    ∷ shares

abbrev linked_registry : Registry
linked_registry = (text "kept", text "/data/work") ∷ registry

abbrev linked_envelope : RpcEnvelope
linked_envelope = record envelope {
  params = obj (
      field (text "src_relative_path") (str (text "a")) (
        field (text "dst_relative_path") (str (text "b"))
          (field (text "dst_root") (str (text "/srv/link/../work")) end)));
}

-- /srv/link is a link to /data/x.
abbrev linked_disk : Disk
linked_disk = record disk { resolve_dst_root = λ depth path. found (text "/data/work") }

linked_decided :
    decide getent config linked_shares (text "/") linked_registry linked_envelope
    ≡ passes (record job {
      params =
          (text "src_relative_path", str (text "a"))
          ∷ (text "dst_relative_path", str (text "b"))
          ∷ (text "dst_root", str (text "/srv/link/../work"))
          ∷ [];
    })
unfolding decide share_of check_params check_filters check_sub check_groups check_claims
    check_identity check_permissions resolve_dst_share guess_share is_transfer entries own eq_text
    parse_path_filters groups_from_claims resolve_path resolve_identity resolve_os_user first_claim
    getpwnam is_username split_on trim trim_end trim_start is_space parse_int is_digit
    check_rpc_permission check_permission is_write_tool evaluate_permission_blob resolve_access
    by_sub best_group starts_with
linked_decided = refl

linked_moved :
    execute literals linked_disk [] 100 linked_registry
      (text "move")
      (text "docs")
      linked_envelope.params
    ≡ performs (
        move
          (text "/srv/docs/a")
          (text "/data/work/b")
          (at (text "/srv/docs"))
          (at (text "/data/work"))
          (text "b"))
unfolding execute root_of own eq_text properties entries resolve_dst string_at required_at
    paths_to_validate validate check_path safe_realpath resolve is_inside starts_with join blocks
    compile_all active check_mutation mutation_root_fields check_required required_resolved_fields
    run_tool dispatch dir_op_path switch path_at tool_named resolve_path
linked_moved = refl
