-- ===== src/Relay/Routing/Tests.antt =====
-- packages/relay/src/router.ts: examples of the resolution of shares, and of calls.
use constellation_mcp.Prelude.{
  ◌≤◌, ◌≡◌, refl, ◌∙◌, Bool-cases, ◌≢◌, ◌⊎◌, inl, inr, Bool, true, ◌&&◌, [], ◌∷◌, Memᴰ, Option,
  none, some, arith, length, keep, if◌then◌else◌, suc,
}
use mathlib.Core.Option.{some-injective}
use constellation_mcp.Prelude.Text.{Text, text, eq_text, eq_text→eq, eq_text_iff}
use constellation_mcp.Shared.Json.{
  Value, str, num, arr, obj, nil, cons, end, field, entries, Object, own,
}
use constellation_mcp.Shared.Permissions.{
  no_access, evaluate_permission_blob, resolve_access, by_sub, best_group,
}
use constellation_mcp.Shared.NodePath.{join}
use constellation_mcp.Shared.PathFilter.Tests.{literals}
use constellation_mcp.Shared.PathFilter.{Engine, filter_source, blocks, compile_all}
use constellation_mcp.Shared.PathFilter.Glob.{ok}
use constellation_mcp.Relay.Routing.{
  RequestUser, Executor, PathShare, HubShare, Database, RouteResult, found, route_to, is_visible,
  resolve_share,
}
use constellation_mcp.Relay.Routing.Visible.{
  Lawful, IsHost, IsOwn, IsSeen, LookSame, resolve_share_found, resolve_share_same,
}
use constellation_mcp.Relay.Routing.Errors.{
  is_control, clean_executor_error_field, sanitize_executor_error, shown,
}
use constellation_mcp.Relay.Routing.Errors.Clean.{
  Clean, Unshown, clean_executor_error_field_lem, clean_executor_error_field-Clean,
}
use constellation_mcp.Relay.Routing.Errors.Fields.{sanitized, sanitize_executor_error_lem}
use constellation_mcp.Relay.Routing.Call.{
  RpcEnvelope, dispatches, paths_to_filter, load_path_filter_sources, block_all_source,
  pattern_type, prepare, envelope, effective_params, is_transfer, checked, check_candidates,
}
use constellation_mcp.Relay.Routing.Call.Named.{IsNamed, Passes}
use constellation_mcp.Relay.Routing.Call.Sources.{AreSources}
use constellation_mcp.Relay.Routing.Call.Sends.{IsSent, prepare_lem}
use constellation_mcp.Relay.Routing.Call.FailsClosed.{FindsAll, load_path_filter_sources-invalid}

abbrev ann : RequestUser
ann = record { id = text "ann"; groups = []; claims = [] }

abbrev nas : Executor
nas = record { id = text "e1"; host = text "nas"; last_heartbeat_at = none }

abbrev docs : PathShare
docs = record {
  user_id = text "ann";
  share = text "docs";
  reported_path = text "/docs";
  executor = nas;
}

-- A table of one share, and no hubs.
abbrev host_is : Option Text → Text → Bool
host_is none h = true
host_is (some x) h = eq_text h x

abbrev matches : Text → Text → Option Text → Bool
matches user share host =
    eq_text (text "ann") user && (eq_text (text "docs") share && host_is host (text "nas"))

abbrev one_share : Database
one_share = record {
  find_path_share = λ user share host. if matches user share host then some docs else none;
  find_hub_shares = λ share host. [];
  find_executor = λ host user. eq_text host (text "nas") && eq_text user (text "ann");
  find_filters = λ user executor. record { pattern = []; pattern_type = text "regex" } ∷ [];
}

host_is-IsHost : (host : Option Text) (h : Text) → host_is host h ≡ true → IsHost host h
host_is-IsHost none h e x f = cc f
host_is-IsHost (some y) h e x f = eq_text→eq h y e ∙ some-injective y x f

IsHost-host_is : (host : Option Text) (h : Text) → IsHost host h → host_is host h ≡ true
IsHost-host_is none h i = refl
IsHost-host_is (some y) h i = (eq_text_iff h y).1 (i y refl)

shares_found :
    (user share : Text) (host : Option Text) (p : PathShare)
    → (if matches user share host then some docs else none) ≡ some p
    → Memᴰ p (docs ∷ []) × (p.user_id ≡ user) × (p.share ≡ share) × IsHost host p.executor.host
shares_found user share host p e = elim (Bool-cases (matches user share host)) [
  | inr f ↦ cc (rw (f) at e)
  | inl t ↦
      let same : docs ≡ p = some-injective docs p (rw (t) at e) in
      rw (← same) (
        Memᴰ.head refl,
        eq_text→eq _ user (ground arith),
        eq_text→eq _ share (ground arith),
        host_is-IsHost host (text "nas") (ground arith),
      )
]

shares_missing :
    (user share : Text) (host : Option Text) (p : PathShare)
    → (if matches user share host then some docs else none) ≡ none
    → Memᴰ p (docs ∷ [])
    → p.user_id ≡ user
    → p.share ≡ share
    → ¬ IsHost host p.executor.host
unfolding eq_text
shares_missing user share host p e (Memᴰ.tail m) u s h = elim m [ ]
shares_missing user share host p e (Memᴰ.head f) u s h =
    let all : matches user share host ≡ true =
      rw (← u, ← s, f, IsHost-host_is host (text "nas") (rw (f) at h)) refl in
    cc (rw (all) at e)

one_share-Lawful : Lawful one_share (docs ∷ []) []
one_share-Lawful = record {
  path_share_found = shares_found;
  path_share_missing = shares_missing;
  hub_share_found = λ share host h m. elim m [ ];
  hub_share_kept = λ share host h m. elim m [ ];
}

docs_found : resolve_share one_share ann (text "docs") none ≡ found (route_to nas (text "/docs"))
unfolding resolve_share eq_text
docs_found = refl

resolve_share_found_example :
    ((p : PathShare) × IsOwn one_share ann (docs ∷ []) [] (text "docs") none p
      × (route_to nas (text "/docs") ≡ route_to p.executor p.reported_path))
    ⊎ ((h : HubShare) × IsSeen one_share ann (docs ∷ []) [] (text "docs") none h
        × (route_to nas (text "/docs") ≡ route_to h.executor h.reported_path)
        × ((k : HubShare) → IsSeen one_share ann (docs ∷ []) [] (text "docs") none k → k ≡ h)
        × ((p : PathShare) → ¬ IsOwn one_share ann (docs ∷ []) [] (text "docs") none p))
resolve_share_found_example =
    resolve_share_found one_share ann (docs ∷ []) [] (text "docs") none
      (route_to nas (text "/docs")) one_share-Lawful docs_found

-- A hub share that the user may not see.
abbrev hidden : HubShare
hidden = record {
  share = text "hr";
  permission_blob = record { default = no_access; overrides = none };
  reported_path = text "/hr";
  executor = record { id = text "e2"; host = text "office"; last_heartbeat_at = none };
}

abbrev with_hidden : Database
with_hidden = record one_share { find_hub_shares = λ share host. hidden ∷ [] }

hidden_unseen : keep (is_visible ann) (hidden ∷ []) ≡ []
unfolding is_visible evaluate_permission_blob resolve_access by_sub best_group eq_text
hidden_unseen = refl

look_same : LookSame ann with_hidden one_share
look_same = record {
  path_shares = λ share host. refl;
  executors = λ host. refl;
  hub_shares = λ share host. hidden_unseen;
}

resolve_share_same_example :
    resolve_share with_hidden ann (text "hr") (some (text "office"))
    ≡ resolve_share one_share ann (text "hr") (some (text "office"))
resolve_share_same_example =
    resolve_share_same ann with_hidden one_share (text "hr") (some (text "office")) look_same

-- An object that cannot be shown, in an array.
abbrev unshown : Value
unshown = arr (cons (obj (field (text "toString") (num 1) end)) nil)

unshown_throws : clean_executor_error_field unshown 500 ≡ none
unfolding clean_executor_error_field shown own entries eq_text
unshown_throws = refl

clean_executor_error_field_lem_example :
    (Unshown (num 42) × (clean_executor_error_field (num 42) 1 ≡ none))
    ⊎ ((s : Text) × ¬ (Unshown (num 42))
        × (clean_executor_error_field (num 42) 1 ≡ some s)
        × (length s ≤ suc 1)
        × Clean s
        × (clean_executor_error_field (str s) 1 ≡ some s))
clean_executor_error_field_lem_example = clean_executor_error_field_lem (num 42) 1

gone-Clean : Clean (text "gone")
unfolding is_control
gone-Clean = (refl, (refl, (refl, (refl, tt))))

clean_executor_error_field-Clean_example :
    clean_executor_error_field (str (text "gone")) 500 ≡ some (text "gone")
clean_executor_error_field-Clean_example =
    clean_executor_error_field-Clean (text "gone") 500 gone-Clean (omega arith)

abbrev error : Object
error = (text "message", str (text "no such file")) ∷ (text "edit_index", num 3) ∷ []

sanitize_executor_error_lem_example :
    ((sanitize_executor_error error ≡ none) × (k : Text) × (sanitized error k ≡ none))
    ⊎ ((result : Object) × (sanitize_executor_error error ≡ some result)
        × ((k : Text) → sanitized error k ≡ some (own result k)))
sanitize_executor_error_lem_example = sanitize_executor_error_lem error

-- A call on a file, without filters.
abbrev quiet : Database
quiet = record one_share { find_filters = λ user executor. [] }

abbrev params : Object
params = (text "relative_path", str (text "a.md")) ∷ []

abbrev sent : RpcEnvelope
sent = envelope [] ann [] (text "r1") (text "read_file") (text "docs") (text "/docs") params

prepared :
    prepare literals quiet quiet quiet
      (λ id. true)
      0
      []
      (text "r1")
      ann
      (text "read_file")
      (text "docs")
      params
      none
    ≡ dispatches (text "e1") sent
unfolding prepare resolve_share effective_params is_transfer load_path_filter_sources checked
    check_candidates paths_to_filter join blocks compile_all own eq_text route_to
prepared = refl

prepare_lem_example :
    (r : RouteResult) × (resolve_share quiet ann (text "docs") none ≡ found r)
    × (text "e1" ≡ r.executor_id)
    × (true ≡ true)
    × (sent.absolute_root ≡ r.absolute_root)
    × (sent.user_sub ≡ ann.id)
    × (sent.user_groups ≡ ann.groups)
    × AreSources literals (quiet.find_filters ann.id (text "e1")) sent.path_filters
    × IsSent quiet ann (text "read_file") r params sent.params
    × ((path : Text)
        → IsNamed r.absolute_root sent.params path
        → Passes literals sent.path_filters path)
prepare_lem_example =
    prepare_lem literals quiet quiet quiet (λ id. true) 0 [] (text "r1") ann (text "read_file")
      (text "docs") params none (text "e1") sent prepared

-- An engine that knows of one regex, which finds something in every text.
abbrev all_or_nothing : Engine
all_or_nothing = record {
  Regex = Unit;
  compile = λ source. if eq_text source block_all_source then some tt else none;
  finds = λ re p. true;
}

finds_all : FindsAll all_or_nothing block_all_source
unfolding eq_text
finds_all = (tt, refl, λ p. refl)

empty_refused : (s : Text) → filter_source all_or_nothing [] (pattern_type (text "regex")) ≢ ok s
unfolding filter_source
empty_refused s e = cc e

load_path_filter_sources-invalid_example :
    blocks all_or_nothing
      (load_path_filter_sources all_or_nothing one_share (text "ann") (text "e1"))
      (text "/docs")
    ≡ true
load_path_filter_sources-invalid_example =
    load_path_filter_sources-invalid all_or_nothing one_share (text "ann") (text "e1")
      (record { pattern = []; pattern_type = text "regex" }) (text "/docs") finds_all
      (Memᴰ.head refl) empty_refused
