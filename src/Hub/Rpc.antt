-- ===== src/Hub/Rpc.antt =====
-- packages/hub/src/index.ts: `handleRpc`, from the relay's envelope to the worker that runs it, and
-- from the worker's result to the response and the audit entry.
pub mod Permitted
pub mod Destination
pub mod Tests
use constellation_mcp.Prelude.{
  ℕ, Bool, true, false, not, ◌&&◌, ◌||◌, List, [], ◌∷◌, ◌++◌, Option, none, some, if◌then◌else◌,
  find, ◌==◌,
}
use constellation_mcp.Prelude.Text.{Text, text, eq_text}
use constellation_mcp.Shared.Json.{
  as_text, Value, undefined, null, bool, num, str, arr, obj, entries, Object, own,
}
use constellation_mcp.Shared.NodePath.{resolve_path}
use constellation_mcp.Shared.Permissions.{PermissionSubject}
use constellation_mcp.Shared.Permissions.Groups.{groups_from_claims}
use constellation_mcp.Shared.Permissions.Groups
use constellation_mcp.Shared.Executor.Filters.{parse_path_filters}
use constellation_mcp.Hub.Permissions.{ShareConfig, RpcPermissionResult, check_rpc_permission}
use constellation_mcp.Hub.Identity.{
  Getent, ResolvedIdentity, IdentityConfig, resolve_identity, resolved,
}
use constellation_mcp.Hub.Identity

-- The envelope; the fields that `handleRpc` tests have any value.
pub record RpcEnvelope : Type 0 where
  pub request_id : Text
  pub tool : Text
  pub share : Text
  pub absolute_root : Text
  pub params : Value
  pub path_filters : Value
  pub user_sub : Value
  pub user_groups : Value
  pub user_claims : Value

-- Shares with their real paths.
abbrev pub Registry : Type 0
Registry = List (Text × Text)

pub guess_share : Text → Registry → Text
guess_share root [] = []
guess_share root ((name, path) ∷ rest) = if eq_text path root then name else guess_share root rest

-- `a || b`.
abbrev pub or_text : Text → Text → Text
or_text [] b = b
or_text (c ∷ a) b = c ∷ a

pub is_transfer : Text → Bool
is_transfer tool = eq_text tool (text "copy") || eq_text tool (text "move")

-- `cwd` is the working directory.
pub resolve_dst_share : (cwd : Text) → Object → (tool : Text) → Registry → Option Text
resolve_dst_share cwd params tool registry =
    if not (is_transfer tool) then none else elim (as_text (own params (text "dst_share"))) [
      | some d ↦ some d
      | none ↦ elim (as_text (own params (text "dst_root"))) [
        | none ↦ none
        | some root ↦
            some (or_text (guess_share (resolve_path cwd root) registry) (resolve_path cwd root))
      ]
    ]

pub data AuditOutcome : Type 0 where
  ok identity_error permission_denied exec_error : AuditOutcome
  -- The kind of a failed dispatch.
  dispatch_failed : Text → AuditOutcome

-- The fields of an audit entry that differ between the branches.
pub record AuditEntry : Type 0 where
  pub user_sub : Option Text
  pub local_username : Option Text
  pub share : Text
  pub outcome : AuditOutcome
  pub error : Option Text

-- A check passes, or the request is refused with an entry, whose error is the answer.
pub data Check {ℓ} (A : Type ℓ) : Type ℓ where
  passes : A → Check A
  refuses : AuditEntry → Check A

infixl 5 ◌>>=◌
abbrev pub ◌>>=◌ {ℓ κ} : {A : Type ℓ} {B : Type κ} → Check A → (A → Check B) → Check B
passes a >>= f = f a
refuses e >>= f = refuses e

-- A malformed request.
pub malformed : (share : Text) → (sub : Option Text) → Text → AuditEntry
malformed share sub message = record {
  user_sub = sub;
  local_username = none;
  share = share;
  outcome = exec_error;
  error = some (text "Malformed request: " ++ message);
}

abbrev pub as_sub : Value → Option Text
as_sub (str t) = some t
as_sub _ = none

pub check_params : Text → Value → Value → Check Object
check_params share sub (obj fs) = passes (entries fs)
check_params share sub (arr vs) = passes []
check_params share sub _ = refuses (malformed share (as_sub sub) (text "params must be an object"))

pub check_filters : Text → Value → Value → Check (List Text)
check_filters share sub value = elim (parse_path_filters value) [
  | some filters ↦ passes filters
  | none ↦
      refuses
        (malformed share (as_sub sub) (text "path_filters must be an array of at most 100 strings"))
]

pub check_sub : Text → Value → Check Text
check_sub share (str (c ∷ s)) = passes (c ∷ s)
check_sub share _ = refuses (malformed share none (text "user_sub must be a non-empty string"))

abbrev read : Text → Text → Groups.Result → Check (List Text)
read share sub (Groups.ok gs) = passes gs
read share sub (Groups.refused why) =
    refuses (malformed share (some sub) (text "user_groups is not a valid group list"))

pub check_groups : Text → Text → Value → Check (List Text)
check_groups share sub (arr vs) = read share sub (groups_from_claims ((text "groups", arr vs) ∷ []))
check_groups share sub _ =
    refuses (malformed share (some sub) (text "user_groups must be an array"))

pub check_claims : Text → Text → Value → Check Object
check_claims share sub (obj fs) = passes (entries fs)
check_claims share sub _ =
    refuses (malformed share (some sub) (text "user_claims must be an object"))

pub identity_refused : Text
identity_refused =
    text "Could not resolve an OS identity for this user. Contact the hub administrator."

pub check_identity : Getent → IdentityConfig → Text → Text → Object → Check ResolvedIdentity
check_identity getent config share sub claims = elim (resolve_identity getent claims sub config) [
  | resolved id ↦ passes id
  | Identity.refused ↦ refuses (record {
    user_sub = some sub;
    local_username = none;
    share = share;
    outcome = identity_error;
    error = some identity_refused;
  })
]

-- The permissions; the entry names the share that was refused.
pub check_permissions :
    List ShareConfig
    → PermissionSubject
    → (username share : Text) → (dst_share : Option Text) → (tool sub : Text) → Check (Unit {0})
check_permissions shares subject username share dst_share tool sub =
    elim (check_rpc_permission subject share dst_share tool shares) [
      | RpcPermissionResult.permitted ↦ passes tt
      | RpcPermissionResult.refused denied reason ↦ refuses (record {
        user_sub = some sub;
        local_username = some username;
        share = denied;
        outcome = permission_denied;
        error = some reason;
      })
    ]

-- What a worker is given.
pub record Job : Type 0 where
  pub identity : ResolvedIdentity
  pub sub : Text
  pub groups : List Text
  pub share : Text
  pub params : Object
  pub filters : List Text

pub share_of : Registry → RpcEnvelope → Text
share_of registry e = or_text e.share (guess_share e.absolute_root registry)

module _ (getent : Getent) (config : IdentityConfig) (shares : List ShareConfig) (cwd : Text)
    (registry : Registry) where
  pub decide : RpcEnvelope → Check Job
  decide e =
      let share = share_of registry e in
      do
        params ← check_params share e.user_sub e.params
        filters ← check_filters share e.user_sub e.path_filters
        sub ← check_sub share e.user_sub
        groups ← check_groups share sub e.user_groups
        claims ← check_claims share sub e.user_claims
        identity ← check_identity getent config share sub claims
        permitted ←
            check_permissions shares (record { sub = some sub; groups = groups }) identity.username
              share (resolve_dst_share cwd params e.tool registry) e.tool sub
        passes (record {
          identity = identity;
          sub = sub;
          groups = groups;
          share = share;
          params = params;
          filters = filters;
        })

-- How the dispatch to a worker ends.
pub data DispatchResult : Type 0 where
  dispatch_error : (kind message : Text) → DispatchResult
  responded : (result error : Value) → DispatchResult

pub data Response : Type 0 where
  message_error : Text → Response
  error_of : Value → Response
  result_of : Value → Response

-- Whether `if (v)` takes the branch.
is_truthy : Value → Bool
is_truthy undefined = false
is_truthy null = false
is_truthy (bool b) = b
is_truthy (num n) = not (n == 0)
is_truthy (str []) = false
is_truthy _ = true

or_message : Option Text → Text
or_message none = []
or_message (some m) = m

-- The entry and the response of a refused request.
refusal : AuditEntry → AuditEntry × Response
unfolding or_message
refusal entry = (entry, message_error (or_message entry.error))

run_entry : Job → AuditOutcome → Option Text → AuditEntry
run_entry job outcome error = record {
  user_sub = some job.sub;
  local_username = some job.identity.username;
  share = job.share;
  outcome = outcome;
  error = error;
}

-- The entry and the response of a request that was given to a worker; `describe` is how an error is
-- shown in the log.
pub finish : (describe : Value → Text) → Job → DispatchResult → AuditEntry × Response
unfolding run_entry is_truthy
finish describe job (dispatch_error kind message) =
    (run_entry job (dispatch_failed kind) (some message), message_error message)
finish describe job (responded result error) =
    if is_truthy error
    then (run_entry job exec_error (some (describe error)), error_of error)
    else (run_entry job ok none, result_of result)

-- Every request has one entry and one response.
pub handle_rpc :
    Getent
    → IdentityConfig
    → List ShareConfig
    → (cwd : Text) → Registry
    → (describe : Value → Text) → (dispatch : Job → DispatchResult) → RpcEnvelope
    → AuditEntry × Response
unfolding refusal
handle_rpc getent config shares cwd registry describe dispatch e =
    elim (decide getent config shares cwd registry e) [
      | refuses entry ↦ refusal entry
      | passes job ↦ finish describe job (dispatch job)
    ]
