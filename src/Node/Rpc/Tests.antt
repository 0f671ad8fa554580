-- ===== src/Node/Rpc/Tests.antt =====
-- packages/node/src/rpc.ts: examples.
use constellation_mcp.Prelude.{◌≡◌, refl, [], ◌∷◌, Memᴰ, none, some}
use constellation_mcp.Prelude.Text.{text, eq_text}
use constellation_mcp.Prelude.Table.{put}
use constellation_mcp.Shared.Json.{arr, nil, undefined, texts, own}
use constellation_mcp.Shared.Executor.Filters.{parse_path_filters}
use constellation_mcp.Shared.Executor.Execute.{Registry, root_of}
use constellation_mcp.Node.Rpc.{
  PathEntry, Realpath, add_paths, build, empty_cache, RpcEnvelope, runs, handle_rpc,
}
use constellation_mcp.Node.Rpc.Fresh.{Call, start, builds, IsBuilt, build-Reach}
use constellation_mcp.Node.Rpc.Confined.{DistinctShares, handle_rpc_lem}

abbrev docs : PathEntry
docs = record { share = text "docs"; path = text "/d"; context_file = none; instructions = none }

-- A path that is a link.
abbrev realpath : Realpath
realpath path = some (text "/real")

abbrev envelope : RpcEnvelope
envelope = record {
  tool = text "read_file";
  absolute_root = text "/d";
  params = undefined;
  path_filters = arr nil;
}

abbrev registry : Registry
registry = (text "docs", text "/real") ∷ []

docs-runs :
    (handle_rpc empty_cache realpath (docs ∷ []) envelope).1 ≡ runs registry (text "docs") []
unfolding handle_rpc build add_paths put root_of own eq_text parse_path_filters empty_cache
docs-runs = refl

distinct : DistinctShares (docs ∷ [])
distinct = (tt, tt)

handle_rpc_lem_example :
    (p : PathEntry) × Memᴰ p (docs ∷ [])
    × (p.path ≡ envelope.absolute_root)
    × (p.share ≡ text "docs")
    × (envelope.path_filters ≡ arr (texts []))
    × (answers : Realpath) × Memᴰ {A = Call} (answers, docs ∷ []) ((realpath, docs ∷ []) ∷ [])
    × (own registry (text "docs") ≡ answers p.path)
handle_rpc_lem_example =
    handle_rpc_lem [] empty_cache realpath (docs ∷ []) envelope registry (text "docs") [] start
      distinct docs-runs

abbrev notes : PathEntry
notes = record { share = text "notes"; path = text "/n"; context_file = none; instructions = none }

-- A cache that was asked for another list.
build-Reach_example :
    IsBuilt
      ((realpath, docs ∷ []) ∷ (realpath, notes ∷ []) ∷ [])
      (build (build empty_cache realpath (notes ∷ [])) realpath (docs ∷ []))
      (docs ∷ [])
build-Reach_example =
    build-Reach ((realpath, notes ∷ []) ∷ []) (build empty_cache realpath (notes ∷ [])) realpath
      (docs ∷ []) (builds realpath (notes ∷ []) start)
