-- ===== src/Relay/Routing/Call/Named.antt =====
-- packages/relay/src/router.ts: the paths that an RPC names, which the relay checks.
use constellation_mcp.Prelude.{
  ◌≤◌, ◌≡◌, refl, sym, ◌⊎◌, inl, inr, false, List, [], ◌∷◌, Option, none, some, arith, Bool-cases,
  length, All, ltb, ◌≢◌,
}
use constellation_mcp.Prelude.Text.{Text, text}
use constellation_mcp.Shared.Json.{as_text, Value, str, Object, own}
use constellation_mcp.Shared.NodePath.{join}
use constellation_mcp.Shared.PathFilter.{Engine, blocks}
use mathlib.Core.Option.{some-injective}
use constellation_mcp.Relay.Routing.Call.{
  Candidate, max_checked_path_length, main_candidate, candidate, text_or, text_or_empty, or_share,
  paths_to_filter, check_candidates,
}

-- A path that the parameters of an RPC name: the root itself if they name no path in it, a path in
-- it, the source of a transfer, or its destination, in the destination's root if they name one.
pub data IsNamed (root : Text) (p : Object) : Text → Type 0 where
  the_root :
      {x : Text}
      → (as_text (own p (text "relative_path")) ≡ none)
        ⊎ (as_text (own p (text "relative_path")) ≡ some [])
      → x ≡ root
      → IsNamed root p x
  in_root :
      {x : Text} (t : Text)
      → as_text (own p (text "relative_path")) ≡ some t
      → t ≢ []
      → x ≡ join root t
      → IsNamed root p x
  transfer_source :
      {x : Text} (t : Text)
      → as_text (own p (text "src_relative_path")) ≡ some t
      → t ≢ []
      → x ≡ join root t
      → IsNamed root p x
  destination :
      {x : Text} (t d : Text)
      → as_text (own p (text "dst_relative_path")) ≡ some t
      → t ≢ []
      → (as_text (own p (text "dst_root")) ≡ some d)
        ⊎ ((as_text (own p (text "dst_root")) ≡ none) × (d ≡ root))
      → x ≡ join d t
      → IsNamed root p x

text_or_empty-some : (v : Option Value) (t : Text) → as_text v ≡ some t → text_or_empty v ≡ t
text_or_empty-some (some (str s)) t e = some-injective s t e
text_or_empty-some _ t e = cc e

module _ (engine : Engine) where
  -- Short enough to check, and not blocked.
  abbrev pub Passes : List Text → Text → Type 0
  Passes sources path =
      (length path ≤ max_checked_path_length) × (blocks engine sources path ≡ false)

  pub check_candidates-Passes :
      (sources : List Text) (cs : List Candidate)
      → check_candidates engine sources cs ≡ none
      → All (λ c. Passes sources c.absolute) cs
  unfolding check_candidates
  check_candidates-Passes sources [] e = tt
  check_candidates-Passes sources (c ∷ cs) e =
      elim (Bool-cases (ltb max_checked_path_length (length c.absolute))) [
        | inl long ↦ cc (rw (long, check_candidates) at e)
        | inr short ↦ elim (Bool-cases (blocks engine sources c.absolute)) [
          | inl blocked ↦ cc (rw (short, blocked, check_candidates) at e)
          | inr free ↦ (
            (ground (arith), free),
            check_candidates-Passes sources cs (rw (short, free, check_candidates) at e),
          )
        ]
      ]

  main-Passes :
      (sources : List Text) (root share t : Text)
      → t ≢ []
      → Passes sources (main_candidate root share t).absolute
      → Passes sources (join root t)
  main-Passes sources root share [] full p = absurd (full refl)
  main-Passes sources root share (c ∷ t) full p = p

  candidate-Passes :
      (sources : List Text) (root share t : Text) (rest : List Candidate)
      → t ≢ []
      → All (λ c. Passes sources c.absolute) (candidate root share t rest)
      → Passes sources (join root t)
  candidate-Passes sources root share [] rest full p = absurd (full refl)
  candidate-Passes sources root share (c ∷ t) rest full p = p.0

  candidate-rest :
      (sources : List Text) (root share t : Text) (rest : List Candidate)
      → All (λ c. Passes sources c.absolute) (candidate root share t rest)
      → All (λ c. Passes sources c.absolute) rest
  candidate-rest sources root share [] rest p = p
  candidate-rest sources root share (c ∷ t) rest p = p.1

  main_none-Passes :
      (sources : List Text) (root share : Text) (v : Option Value)
      → (as_text v ≡ none) ⊎ (as_text v ≡ some [])
      → Passes sources (main_candidate root share (text_or_empty v)).absolute
      → Passes sources root
  main_none-Passes sources root share v (inr e) p = rw (text_or_empty-some v [] e) at p
  main_none-Passes sources root share (some (str s)) (inl e) p = cc e
  main_none-Passes sources root share _ (inl e) p = p

  text_or_lem :
      (v : Option Value) (d root : Text)
      → (as_text v ≡ some d) ⊎ ((as_text v ≡ none) × (d ≡ root))
      → text_or v root ≡ d
  text_or_lem (some (str s)) d root (inl e) = some-injective s d e
  text_or_lem (some (str s)) d root (inr (e, f)) = cc e
  text_or_lem _ d root (inl e) = cc e
  text_or_lem _ d root (inr (e, f)) = sym f

  pub named-Passes :
      (sources : List Text) (root share : Text) (dst_share : Option Text) (p : Object)
      → All (λ c. Passes sources c.absolute) (paths_to_filter root share dst_share p)
      → (path : Text) → IsNamed root p path
      → Passes sources path
  unfolding paths_to_filter
  named-Passes sources root share dst_share p (a, all) path (the_root none_named e) =
      rw (e) (main_none-Passes sources root share (own p (text "relative_path")) none_named a)
  named-Passes sources root share dst_share p (a, all) path (in_root t f full e) = rw (e) (
      main-Passes sources root share t full
        (rw (text_or_empty-some (own p (text "relative_path")) t f) at a))
  named-Passes sources root share dst_share p (a, all) path (transfer_source t f full e) = rw (e) (
      candidate-Passes sources root share t _ full
        (rw (text_or_empty-some (own p (text "src_relative_path")) t f) at all))
  named-Passes sources root share dst_share p (a, all) path (destination t d f full dst e) =
      let last =
        candidate-rest sources root share (text_or_empty (own p (text "src_relative_path"))) _
          all in
      rw (e) (
        candidate-Passes sources d (or_share dst_share share) t [] full (
          rw
            (
              text_or_empty-some (own p (text "dst_relative_path")) t f,
              text_or_lem (own p (text "dst_root")) d root dst,
            )
            at last))
