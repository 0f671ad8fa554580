-- ===== src/Relay/Routing/Call/FailsClosed.antt =====
-- packages/relay/src/router.ts: a stored filter that cannot be enforced blocks every path.
use constellation_mcp.Prelude.{
  ◌≡◌, refl, ◌≢◌, inl, inr, true, List, [], ◌∷◌, Memᴰ, some, map, subst,
}
use constellation_mcp.Prelude.Text.{Text}
use constellation_mcp.Shared.PathFilter.{Engine, filter_source, blocks}
use constellation_mcp.Shared.PathFilter.Glob.{Result, ok, err}
use constellation_mcp.Shared.PathFilter.Blocks.{blocks_iff}
use constellation_mcp.Relay.Routing.{Filter, Database}
use constellation_mcp.Relay.Routing.Call.{
  block_all_source, pattern_type, source_of, load_path_filter_sources,
}

map-mem : {A B : Type 0} (f : A → B) (xs : List A) {a : A} → Memᴰ a xs → Memᴰ (f a) (map f xs)
map-mem f [] m = elim m [ ]
map-mem f (x ∷ xs) (Memᴰ.head e) = Memᴰ.head (rw e refl)
map-mem f (x ∷ xs) (Memᴰ.tail m) = Memᴰ.tail (map-mem f xs m)

module _ (engine : Engine) where
  open engine use {Regex, compile, finds}

  -- RE2 reads the source as the regex that finds something in any text.
  abbrev pub FindsAll : Text → Type 0
  FindsAll source = (re : Regex) × (compile source ≡ some re) × ((p : Text) → finds re p ≡ true)

  source_of-invalid :
      (f : Filter)
      → ((s : Text) → filter_source engine f.pattern (pattern_type f.pattern_type) ≢ ok s)
      → source_of engine f ≡ block_all_source
  unfolding source_of
  source_of-invalid f bad = go (filter_source engine f.pattern (pattern_type f.pattern_type)) refl
    where
      go :
          (r : Result Text)
          → filter_source engine f.pattern (pattern_type f.pattern_type) ≡ r
          → source_of engine f ≡ block_all_source
      go (ok s) e = absurd (bad s e)
      go (err x) e = rw (source_of, e) refl

  -- If RE2 reads the relay's source for all paths as meant, and one of the user's filters for the
  -- executor is not accepted any more, then the sources block every path.
  pub load_path_filter_sources-invalid :
      (db : Database) (user_id executor_id : Text) (f : Filter) (path : Text)
      → FindsAll block_all_source
      → Memᴰ f (db.find_filters user_id executor_id)
      → ((s : Text) → filter_source engine f.pattern (pattern_type f.pattern_type) ≢ ok s)
      → blocks engine (load_path_filter_sources engine db user_id executor_id) path ≡ true
  unfolding load_path_filter_sources
  load_path_filter_sources-invalid db user_id executor_id f path (re, e, all) m bad =
      let listed = map-mem (source_of engine) _ m in
      (blocks_iff engine _ path).1 (
        inr (
          path,
          inl refl,
          (
            block_all_source,
            subst (λ s. Memᴰ s (map (source_of engine) (db.find_filters user_id executor_id)))
                (source_of-invalid f bad) listed,
            re,
            e,
            all path,
          ),
        ))
