-- ===== src/Relay/Routing/Call/Sources.antt =====
-- packages/relay/src/router.ts: the sources of the filters that are sent with an RPC.
use constellation_mcp.Prelude.{◌≡◌, refl, ◌⊎◌, inl, inr, List, [], ◌∷◌, map, ◌≢◌}
use constellation_mcp.Prelude.Text.{Text}
use constellation_mcp.Shared.PathFilter.{Engine, filter_source}
use constellation_mcp.Shared.PathFilter.Glob.{Result, InvalidFilter, ok, err}
use constellation_mcp.Relay.Routing.{Filter, Database}
use constellation_mcp.Relay.Routing.Call.{
  source_of, block_all_source, pattern_type, load_path_filter_sources,
}

result-cases : (r : Result Text) → ((s : Text) × (r ≡ ok s)) ⊎ ((e : InvalidFilter) × (r ≡ err e))
result-cases (ok s) = inl (s, refl)
result-cases (err e) = inr (e, refl)

module _ (engine : Engine) where
  -- The sources of a list of filters: one for each, of a filter that is not accepted the one that
  -- finds something in everything.
  pub data AreSources : List Filter → List Text → Type 0 where
    no_filters : AreSources [] []
    accepted :
        {f : Filter} {fs : List Filter} {sources : List Text} (source : Text)
        → filter_source engine f.pattern (pattern_type f.pattern_type) ≡ ok source
        → AreSources fs sources
        → AreSources (f ∷ fs) (source ∷ sources)
    not_accepted :
        {f : Filter} {fs : List Filter} {sources : List Text}
        → ((source : Text)
            → filter_source engine f.pattern (pattern_type f.pattern_type) ≢ ok source)
        → AreSources fs sources
        → AreSources (f ∷ fs) (block_all_source ∷ sources)

  map_source_of-AreSources : (fs : List Filter) → AreSources fs (map (source_of engine) fs)
  unfolding source_of
  map_source_of-AreSources [] = no_filters
  map_source_of-AreSources (f ∷ fs) =
      elim (result-cases (filter_source engine f.pattern (pattern_type f.pattern_type))) [
        | inl (source, e) ↦ rw (e, source_of) (accepted source e (map_source_of-AreSources fs))
        | inr (x, e) ↦
            rw (e, source_of) (not_accepted (λ source g. cc (e, g)) (map_source_of-AreSources fs))
      ]

  pub load_path_filter_sources-AreSources :
      (db : Database) (user_id executor_id : Text)
      → AreSources
          (db.find_filters user_id executor_id)
          (load_path_filter_sources engine db user_id executor_id)
  unfolding load_path_filter_sources
  load_path_filter_sources-AreSources db user_id executor_id =
      map_source_of-AreSources (db.find_filters user_id executor_id)
