-- ===== src/Node/Rpc.antt =====
-- packages/node/src/rpc.ts: `handleRpc`, up to the executor, and the cache of the share registry.
pub mod Fresh
pub mod Confined
pub mod Tests
use constellation_mcp.Prelude.{
  Bool, true, false, ◌&&◌, List, [], ◌∷◌, Option, none, some, if◌then◌else◌, find,
}
use constellation_mcp.Prelude.Text.{Text, text, eq_text}
use constellation_mcp.Prelude.Table.{Table, put}
use constellation_mcp.Shared.Json.{Value}
use constellation_mcp.Shared.Executor.Filters.{parse_path_filters}
use constellation_mcp.Shared.Executor.Dispatch.{Root}
use constellation_mcp.Shared.Executor.Execute.{Registry, root_of}

pub record PathEntry : Type 0 where
  pub share : Text
  pub path : Text
  pub context_file : Option Text
  pub instructions : Option Text

-- `fs.realpath`; `none` if it throws.
abbrev pub Realpath : Type 0
Realpath = Text → Option Text

-- The loop over the paths; `registry` is what it has so far.
pub add_paths : Realpath → List PathEntry → Registry → Registry
add_paths realpath [] registry = registry
add_paths realpath (p ∷ ps) registry =
    add_paths realpath ps
      (elim (realpath p.path) [ none ↦ registry | some r ↦ put registry p.share r ])

same_option : Option Text → Option Text → Bool
same_option none none = true
same_option (some s) (some t) = eq_text s t
same_option _ _ = false

same_entry : PathEntry → PathEntry → Bool
unfolding same_option
same_entry p q =
    eq_text p.share q.share
    && (eq_text p.path q.path
        && (same_option p.context_file q.context_file && same_option p.instructions q.instructions))

-- Whether two lists of paths have the same JSON.
pub same_paths : List PathEntry → List PathEntry → Bool
unfolding same_entry
same_paths [] [] = true
same_paths (p ∷ ps) (q ∷ qs) = same_entry p q && same_paths ps qs
same_paths _ _ = false

-- `key` is the JSON of a list of paths, or at first the empty text, which is the JSON of none.
pub record ShareRegistryCache : Type 0 where
  pub key : Option (List PathEntry)
  pub cache : Registry

pub empty_cache : ShareRegistryCache
empty_cache = record { key = none; cache = [] }

has_key : Option (List PathEntry) → List PathEntry → Bool
has_key none paths = false
has_key (some known) paths = same_paths known paths

-- With the cache after the call; the registry that is returned is the one that it holds.
pub build : ShareRegistryCache → Realpath → List PathEntry → ShareRegistryCache
unfolding has_key add_paths
build c realpath paths =
    if has_key c.key paths
    then c
    else record { key = some paths; cache = add_paths realpath paths [] }

pub record RpcEnvelope : Type 0 where
  pub tool : Text
  pub absolute_root : Text
  pub params : Value
  pub path_filters : Value

-- An answer with an error, or the request that the executor is given.
pub data Decision : Type 0 where
  refused : Text → Decision
  runs : (registry : Registry) → (share : Text) → (filters : List Text) → Decision

pub handle_rpc :
    ShareRegistryCache → Realpath → List PathEntry → RpcEnvelope → ShareRegistryCache × Decision
unfolding build
handle_rpc c realpath paths e = elim (parse_path_filters e.path_filters) [
  | none ↦
      (c, refused (text "Malformed request: path_filters must be an array of at most 100 strings"))
  | some filters ↦ elim (find (λ (p : PathEntry). eq_text p.path e.absolute_root) paths) [
    | none ↦ (c, refused (text "Path rejected by node"))
    | some allowed ↦
        let built = build c realpath paths in
        elim (root_of built.cache allowed.share) [
          | none ↦ (built, refused (text "Path rejected by node"))
          | some root ↦ (built, runs built.cache allowed.share filters)
        ]
  ]
]
