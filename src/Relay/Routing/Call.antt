-- ===== src/Relay/Routing/Call.antt =====
-- packages/relay/src/router.ts: `routeToolCall`, up to the RPC and from its end on. The database may
-- change between the queries, so each resolution has its own.
pub mod Named
pub mod Sources
pub mod Sends
pub mod FailsClosed
use constellation_mcp.Prelude.{
  ℕ, ◌+◌, ◌-◌, ◌/◌, Bool, true, false, not, ◌&&◌, ◌||◌, List, [], ◌∷◌, ◌++◌, Option, none, some,
  if◌then◌else◌, ltb, ◌==◌, length, take, keep, map, any,
}
use constellation_mcp.Prelude.Text.{Text, text, eq_text, decimal}
use constellation_mcp.Prelude.Table.{put}
use constellation_mcp.Shared.Json.{as_text, Value, str, Object, own}
use constellation_mcp.Shared.NodePath.{join}
use constellation_mcp.Shared.PathFilter.{
  Engine, FilterPatternType, glob, regex, filter_source, blocks,
}
use constellation_mcp.Shared.PathFilter.Glob.{Result, ok, err}
use constellation_mcp.Relay.Routing.{
  RequestUser, Filter, Database, RouteResult, Code, executor_offline, path_filtered, timeout,
  cross_host, RouterError, Resolved, found, failed, resolve_share,
}
use constellation_mcp.Relay.Routing.Errors.{sanitize_executor_error, read}

pub record RpcEnvelope : Type 0 where
  pub request_id : Text
  pub tool : Text
  pub share : Text
  pub absolute_root : Text
  pub user_sub : Text
  pub user_groups : List Text
  pub user_claims : Object
  pub params : Object
  pub path_filters : List Text

-- A path that the relay checks, and how it is named to the client.
pub record Candidate : Type 0 where
  pub absolute : Text
  pub label : Text

-- A stored pattern type is one of two texts.
pub pattern_type : Text → FilterPatternType
pattern_type t = if eq_text t (text "glob") then glob else regex

abbrev pub block_all_source : Text
block_all_source = text "(?s)^.*$"

abbrev pub max_checked_path_length : ℕ
max_checked_path_length = 4096

-- A parameter that is a text; the empty text for any other.
abbrev pub text_or_empty : Option Value → Text
text_or_empty (some (str t)) = t
text_or_empty _ = []

abbrev pub text_or : Option Value → Text → Text
text_or (some (str t)) other = t
text_or _ other = other

-- A candidate for a field that is set.
abbrev pub candidate : Text → Text → Text → List Candidate → List Candidate
candidate root share [] rest = rest
candidate root share (c ∷ path) rest =
    record { absolute = join root (c ∷ path); label = share ++ (text "/" ++ (c ∷ path)) } ∷ rest

-- The root itself, if no path in it is named.
abbrev pub main_candidate : Text → Text → Text → Candidate
main_candidate root share [] = record { absolute = root; label = share }
main_candidate root share (c ∷ path) = record {
  absolute = join root (c ∷ path);
  label = share ++ (text "/" ++ (c ∷ path));
}

abbrev pub or_share : Option Text → Text → Text
or_share none share = share
or_share (some d) share = d

unfoldable pub paths_to_filter :
    (root share : Text) → (dst_share : Option Text) → Object → List Candidate
paths_to_filter root share dst_share p =
    main_candidate root share (text_or_empty (own p (text "relative_path")))
    ∷ candidate root share (text_or_empty (own p (text "src_relative_path"))) (
        candidate (text_or (own p (text "dst_root")) root) (or_share dst_share share)
          (text_or_empty (own p (text "dst_relative_path"))) [])

pub too_long : Candidate → RouterError
too_long c = record {
  code = path_filtered;
  message = text "Path is too long: " ++ (take 64 c.label ++ text "…");
}

pub filtered : Candidate → RouterError
filtered c = record {
  code = path_filtered;
  message = text "Path blocked by relay filter: " ++ c.label;
}

-- `Math.round(x / d)` is the quotient of `x + d / 2`, as `d` is even and `x` is not negative.
pub format_relative_time : (now date : ℕ) → Text
format_relative_time now date =
    let minutes = (now - date + 30000) / 60000 in
    let hours = (minutes + 30) / 60 in
    if ltb minutes 1
    then text "just now"
    else if minutes == 1
    then text "1 minute ago"
    else if ltb minutes 60
    then decimal minutes ++ text " minutes ago"
    else if hours == 1
    then text "1 hour ago"
    else decimal hours ++ text " hours ago"

last_seen : ℕ → Option ℕ → Text
last_seen now none = text "never"
last_seen now (some at) = format_relative_time now at

pub offline : ℕ → Text → RouteResult → RouterError
offline now share r = record {
  code = executor_offline;
  message =
      text "'"
      ++ (share
          ++ (text "' is on '"
              ++ (r.host
                  ++ (text "', which was last seen " ++ last_seen now r.last_heartbeat_at))));
}

pub other_host : (share dst_share : Text) → (r q : RouteResult) → RouterError
other_host share dst_share r q = record {
  code = cross_host;
  message =
      text "'"
      ++ (share
          ++ (text "' is on '"
              ++ (r.host
                  ++ (text "' and '"
                      ++ (dst_share
                          ++ (text "' is on '"
                              ++ (q.host ++ text "' — cross-host move/copy is not supported")))))));
}

-- The claims that are forwarded; an empty list of names forwards all.
pub filtered_claims : List Text → Object → Object
filtered_claims [] claims = claims
filtered_claims (name ∷ names) claims = keep (λ entry. any (eq_text entry.0) (name ∷ names)) claims

-- What the call is left at: an error, with the activity event that is written for it if any, or the
-- RPC to send.
pub data Prepared : Type 0 where
  refused : RouterError → (logged : Bool) → Prepared
  dispatches : (executor_id : Text) → RpcEnvelope → Prepared

-- The parameters that are sent.
pub data Params : Type 0 where
  sends : Object → Params
  fails : RouterError → Params

-- `is_transfer` is `tool === "copy" || tool === "move"`.
unfoldable pub effective_params :
    Database → RequestUser → (is_transfer : Bool) → (share : Text) → RouteResult → Object → Params
effective_params db user false share r params = sends params
effective_params db user true share r params = elim (as_text (own params (text "dst_share"))) [
  | none ↦ sends params
  | some d ↦ elim (resolve_share db user d (some r.host)) [
    | failed e ↦ fails e
    | found q ↦
        if not (eq_text q.executor_id r.executor_id)
        then fails (other_host share d r q)
        else sends (put params (text "dst_root") (str q.absolute_root))
  ]
]

unfoldable pub is_transfer : Text → Bool
is_transfer tool = eq_text tool (text "copy") || eq_text tool (text "move")

abbrev pub envelope :
    (sources : List Text)
    → RequestUser
    → (forwarded_claims : List Text) → (request_id tool share root : Text) → Object
    → RpcEnvelope
envelope sources user forwarded_claims request_id tool share root params = record {
  request_id = request_id;
  tool = tool;
  share = share;
  absolute_root = root;
  user_sub = user.id;
  user_groups = user.groups;
  user_claims = filtered_claims forwarded_claims user.claims;
  params = params;
  path_filters = sources;
}

module _ (engine : Engine) where
  unfoldable pub source_of : Filter → Text
  source_of f = elim (filter_source engine f.pattern (pattern_type f.pattern_type)) [
    | ok source ↦ source
    | err e ↦ block_all_source
  ]

  unfoldable pub load_path_filter_sources : Database → (user_id executor_id : Text) → List Text
  load_path_filter_sources db user_id executor_id =
      map source_of (db.find_filters user_id executor_id)

  -- The loop over the candidates: the first error.
  unfoldable pub check_candidates : List Text → List Candidate → Option RouterError
  check_candidates sources [] = none
  check_candidates sources (c ∷ cs) =
      let later = check_candidates sources cs in
      if ltb max_checked_path_length (length c.absolute)
      then some (too_long c)
      else if blocks engine sources c.absolute
      then some (filtered c)
      else later

  -- The checks that follow the resolutions.
  unfoldable pub checked :
      (sources : List Text)
      → (connected : Text → Bool) → (now : ℕ) → (user : RequestUser)
      → (forwarded_claims : List Text) → (request_id tool share : Text) → RouteResult
      → (dst_share : Option Text) → Object
      → Prepared
  checked sources connected now user forwarded_claims request_id tool share r dst_share params =
      elim (check_candidates sources (paths_to_filter r.absolute_root share dst_share params)) [
        | some e ↦ refused e false
        | none ↦
            if not (connected r.executor_id)
            then refused (offline now share r) true
            else dispatches r.executor_id (
                envelope sources user forwarded_claims request_id tool share r.absolute_root params)
      ]

  unfoldable pub prepare :
      (db dst_db filter_db : Database)
      → (connected : Text → Bool) → (now : ℕ) → (forwarded_claims : List Text) → (request_id : Text)
      → RequestUser
      → (tool share : Text) → Object
      → (host : Option Text) → Prepared
  prepare db dst_db filter_db connected now forwarded_claims request_id user tool share params
        host =
      elim (resolve_share db user share host) [
        | failed e ↦ refused e false
        | found r ↦ elim (effective_params dst_db user (is_transfer tool) share r params) [
          | fails e ↦ refused e false
          | sends p ↦
              checked (load_path_filter_sources filter_db user.id r.executor_id) connected now user
                forwarded_claims request_id tool share r (as_text (own params (text "dst_share"))) p
        ]
      ]
