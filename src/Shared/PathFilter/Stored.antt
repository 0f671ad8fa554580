-- ===== src/Shared/PathFilter/Stored.antt =====
-- The sources that are stored for the filters of a user.
use constellation_mcp.Prelude.{
  ◌≤◌, ◌<◌, ◌≡◌, refl, sym, ap, ◌∙◌, ◌⊎◌, inl, inr, ◌↔◌, true, false, List, ◌||◌, ◌==◌, ltb, none,
  some, ◌≢◌, subst, arith, Bool-cases, Option-cases, length, All, All-mem,
}
use constellation_mcp.Prelude.Text.{Text}
use constellation_mcp.Shared.PathFilter.{
  Engine, anchored, compiled, blocks, filter_source, FilterPatternType, glob, regex,
  max_filter_pattern_length,
}
use constellation_mcp.Shared.PathFilter.Glob.{InvalidFilter, Result, ok, err, glob_to_re2_source}
use constellation_mcp.Shared.PathFilter.Ancestors.{IsWithin}
use constellation_mcp.Shared.PathFilter.Blocks.{Finds, blocks_iff}

-- What a source is made from.
abbrev pub IsSourceOf : Text → FilterPatternType → Text → Type 0
IsSourceOf pattern regex source = source ≡ pattern
IsSourceOf pattern glob source = glob_to_re2_source (anchored pattern) ≡ ok source

result-cases : (r : Result Text) → ((e : InvalidFilter) × (r ≡ err e)) ⊎ ((s : Text) × (r ≡ ok s))
result-cases (err e) = inl (e, refl)
result-cases (ok s) = inr (s, refl)

module _ (engine : Engine) where
  open engine use {Regex, compile, finds}

  -- What is known of a pattern that is accepted.
  pub record IsAccepted (pattern : Text) (type : FilterPatternType) (source : Text) : Type 0 where
    pub not_empty : 0 < length pattern
    pub not_long : length pattern ≤ max_filter_pattern_length
    pub made : IsSourceOf pattern type source
    pub compiles : compile source ≢ none

  compiled_ok : (p s : Text) → compiled engine p ≡ ok s → (s ≡ p) × (compile s ≢ none)
  unfolding compiled
  compiled_ok p s e = elim (Option-cases (compile p)) [
    | inl f ↦ cc (rw (f, compiled) at e)
    | inr (re, f) ↦
        let same : p ≡ s = cc (rw (f, compiled) at e) in
        (sym same, λ bad. cc (subst (λ t. compile t ≡ some re) same f))
  ]

  compiled-ok : (s : Text) → compile s ≢ none → compiled engine s ≡ ok s
  unfolding compiled
  compiled-ok s n = elim (Option-cases (compile s)) [
    | inl f ↦ absurd (n f)
    | inr (re, f) ↦ rw (f, compiled)
  ]

  filter_source-IsAccepted :
      (p : Text) (type : FilterPatternType) (s : Text)
      → filter_source engine p type ≡ ok s
      → IsAccepted p type s
  unfolding filter_source
  filter_source-IsAccepted p regex s e =
      elim (Bool-cases (length p == 0 || ltb max_filter_pattern_length (length p))) [
        | inl bad ↦ cc (rw (bad, filter_source) at e)
        | inr good ↦
            let (same, ok_s) = compiled_ok p s (rw (good, filter_source) at e) in
            record {
              not_empty = ground arith;
              not_long = ground arith;
              made = same;
              compiles = ok_s;
            }
      ]
  filter_source-IsAccepted p glob s e =
      elim (Bool-cases (length p == 0 || ltb max_filter_pattern_length (length p))) [
        | inl bad ↦ cc (rw (bad, filter_source) at e)
        | inr good ↦ elim (result-cases (glob_to_re2_source (anchored p))) [
          | inl (why, f) ↦ cc (rw (good, f, filter_source) at e)
          | inr (t, f) ↦
              let (same, ok_s) = compiled_ok t s (rw (good, f, filter_source) at e) in
              record {
                not_empty = ground arith;
                not_long = ground arith;
                made = f ∙ ap ok (sym same);
                compiles = ok_s;
              }
        ]
      ]

  IsAccepted-filter_source :
      (p : Text) (type : FilterPatternType) (s : Text)
      → IsAccepted p type s
      → filter_source engine p type ≡ ok s
  unfolding filter_source
  IsAccepted-filter_source p regex s a =
      let good : (length p == 0 || ltb max_filter_pattern_length (length p)) ≡ false =
        ground (arith, a.not_empty, a.not_long) in
      rw (good, filter_source) (rw (← a.made) (compiled-ok s a.compiles))
  IsAccepted-filter_source p glob s a =
      let good : (length p == 0 || ltb max_filter_pattern_length (length p)) ≡ false =
        ground (arith, a.not_empty, a.not_long) in
      rw (good, a.made, filter_source) (compiled-ok s a.compiles)

  -- A pattern is accepted with a source exactly when it has 1 to 1000 code units, the source is the
  -- regex or what the glob translates to, and RE2 compiles the source.
  pub filter_source_iff :
      (pattern : Text) (type : FilterPatternType) (source : Text)
      → (filter_source engine pattern type ≡ ok source) ↔ IsAccepted pattern type source
  filter_source_iff pattern type source =
      (filter_source-IsAccepted pattern type source, IsAccepted-filter_source pattern type source)

  -- If every source of a filter was accepted for some pattern, then the filter blocks exactly
  -- the paths of which the whole or an ancestor other than the root has something that a source
  -- finds.
  pub blocks-accepted_iff :
      (sources : List Text) (path : Text)
      → All
          (λ s. (p : Text) × (type : FilterPatternType) × (filter_source engine p type ≡ ok s))
          sources
      → (blocks engine sources path ≡ true)
        ↔ ((q : Text) × IsWithin q path × Finds engine sources q)
  blocks-accepted_iff sources path h = (
    (λ e. elim ((blocks_iff engine sources path).0 e) [
      | inl (s, m, bad) ↦
          let (p, type, accepted) = All-mem _ sources h m in
          absurd ((filter_source-IsAccepted p type s accepted).compiles bad)
      | inr found ↦ found
    ]),
    (λ found. (blocks_iff engine sources path).1 (inr found)),
  )
