-- ===== src/Shared/PathFilter/Blocks.antt =====
-- packages/shared/src/path-filter.ts: what a filter blocks. The root is no ancestor here: the code's
-- loop over the ancestors stops before it.
use constellation_mcp.Prelude.{
  ℕ, zero, suc, ◌<◌, ◌≡◌, refl, ◌⊎◌, inl, inr, ◌≢◌, ◌↔◌, true, false, List, [], ◌∷◌, Memᴰ, none,
  some, arith, Bool-cases, Option-cases, any, length, if◌then◌else◌, subst,
}
use constellation_mcp.Prelude.Text.{Text}
use constellation_mcp.Shared.PathFilter.{Engine, parent, compile_all, blocks_from, blocks, is_empty}
use constellation_mcp.Shared.PathFilter.Ancestors.{
  IsUnder, IsWithin, parent-none, parent-some, IsWithin-under,
}

module _ (engine : Engine) where
  open engine use {Regex, compile, finds}

  -- Some source finds something in the path or in an ancestor other than the root.
  abbrev pub Hits : List Regex → Text → Type 0
  Hits res path = (q : Text) × IsWithin q path × (any (λ re. finds re q) res ≡ true)

  blocks_from-Hits :
      (fuel : ℕ) (res : List Regex) (p : Text)
      → length p < fuel
      → blocks_from engine fuel res p ≡ true
      → Hits res p
  unfolding blocks_from
  blocks_from-Hits zero res p h e = absurd (omega arith)
  blocks_from-Hits (suc fuel) res p h e = elim (Bool-cases (any (λ re. finds re p) res)) [
    | inl hit ↦ (p, inl refl, hit)
    | inr miss ↦ elim (Option-cases (parent p)) [
      | inl top ↦ cc (rw (miss, top, blocks_from) at e)
      | inr (q, f) ↦
          let up = parent-some p q f in
          let (x, w, hit) =
            blocks_from-Hits fuel res q (omega (arith, up.shorter))
              (rw (miss, f, blocks_from) at e) in
          (x, IsWithin-under x q p up.not_root up.under w, hit)
    ]
  ]

  Hits-blocks_from :
      (fuel : ℕ) (res : List Regex) (p : Text) → Hits res p → blocks_from engine fuel res p ≡ true
  unfolding blocks_from
  Hits-blocks_from zero res p hits = refl
  Hits-blocks_from (suc fuel) res p (x, w, hit) = elim (Bool-cases (any (λ re. finds re p) res)) [
    | inl here ↦ rw here
    | inr miss ↦ elim (Option-cases (parent p)) [
      | inl top ↦
          let same = parent-none p x top w in
          cc (subst (λ y. any (λ re. finds re y) res ≡ true) same hit)
      | inr (q, f) ↦
          rw (miss, f)
            (elim ((parent-some p q f).next x w) [
              | inl same ↦ cc (subst (λ y. any (λ re. finds re y) res ≡ true) same hit)
              | inr above ↦ Hits-blocks_from fuel res q (x, above, hit)
            ])
    ]
  ]

  compile_all-none :
      (ss : List Text) → compile_all engine ss ≡ none → (s : Text) × Memᴰ s ss × (compile s ≡ none)
  unfolding compile_all
  compile_all-none [] e = cc
  compile_all-none (s ∷ ss) e = elim (Option-cases (compile s)) [
    | inl f ↦ (s, Memᴰ.head refl, f)
    | inr (re, f) ↦ elim (Option-cases (compile_all engine ss)) [
      | inl g ↦ let (t, m, h) = compile_all-none ss g in (t, Memᴰ.tail m, h)
      | inr (res, g) ↦ cc (rw (f, g, compile_all) at e)
    ]
  ]

  not_compiled :
      (ss : List Text) (s : Text) → Memᴰ s ss → compile s ≡ none → compile_all engine ss ≡ none
  unfolding compile_all
  not_compiled [] s m e = elim m [ ]
  not_compiled (t ∷ ss) s (Memᴰ.head same) e = ground (arith, same)
  not_compiled (t ∷ ss) s (Memᴰ.tail m) e = ground (arith, not_compiled ss s m e)

  -- A source that compiles and finds something in `q`.
  abbrev pub Finds : List Text → Text → Type 0
  Finds ss q = (s : Text) × Memᴰ s ss × (re : Regex) × (compile s ≡ some re) × (finds re q ≡ true)

  compile_all-cons :
      (s : Text) (ss : List Text) (res : List Regex)
      → compile_all engine (s ∷ ss) ≡ some res
      → (re : Regex) × (rest : List Regex) × (compile s ≡ some re)
        × (compile_all engine ss ≡ some rest)
        × (res ≡ re ∷ rest)
  unfolding compile_all
  compile_all-cons s ss res e = elim (Option-cases (compile s)) [
    | inl f ↦ cc (rw (f, compile_all) at e)
    | inr (re, f) ↦ elim (Option-cases (compile_all engine ss)) [
      | inl g ↦ cc (rw (f, g, compile_all) at e)
      | inr (rest, g) ↦ (re, rest, f, g, cc (rw (f, g, compile_all) at e))
    ]
  ]

  any-Finds :
      (ss : List Text) (res : List Regex) (q : Text)
      → compile_all engine ss ≡ some res
      → any (λ re. finds re q) res ≡ true
      → Finds ss q
  unfolding compile_all
  any-Finds [] res q e h = ground arith
  any-Finds (s ∷ ss) res q e h =
      let (re, rest, f, g, whole) = compile_all-cons s ss res e in
      let found = subst (λ l. any (λ re. finds re q) l ≡ true) whole h in
      elim (Bool-cases (finds re q)) [
        | inl hit ↦ (s, Memᴰ.head refl, re, f, hit)
        | inr miss ↦
            let (t, m, re', f', hit) = any-Finds ss rest q g (rw miss at found) in
            (t, Memᴰ.tail m, re', f', hit)
      ]

  Finds-any :
      (ss : List Text) (res : List Regex) (q : Text)
      → compile_all engine ss ≡ some res
      → Finds ss q
      → any (λ re. finds re q) res ≡ true
  unfolding compile_all
  Finds-any [] res q e (s, m, re, f, hit) = elim m [ ]
  Finds-any (t ∷ ss) res q e (s, Memᴰ.head same, re, f, hit) =
      let (re', rest, f', g, whole) = compile_all-cons t ss res e in rw whole (ground (arith, same))
  Finds-any (t ∷ ss) res q e (s, Memᴰ.tail m, re, f, hit) =
      let (re', rest, f', g, whole) = compile_all-cons t ss res e in
      rw whole (rw (Finds-any ss rest q g (s, m, re, f, hit)) (ground arith))

  -- Why a path is blocked.
  abbrev pub IsBlocked : List Text → Text → Type 0
  IsBlocked sources path =
      ((s : Text) × Memᴰ s sources × (compile s ≡ none))
      ⊎ ((q : Text) × IsWithin q path × Finds sources q)

  module _ (sources : List Text) (path : Text) where
    blocks-IsBlocked : blocks engine sources path ≡ true → IsBlocked sources path
    unfolding blocks
    blocks-IsBlocked e = elim (Option-cases (compile_all engine sources)) [
      | inl f ↦ inl (compile_all-none sources f)
      | inr ([], f) ↦ cc (rw (f, blocks) at e)
      | inr (re ∷ res, f) ↦
          let (q, w, hit) =
            blocks_from-Hits (suc (length path)) (re ∷ res) path (omega arith)
              (rw (f, blocks) at e) in
          inr (q, w, any-Finds sources (re ∷ res) q f hit)
    ]

    IsBlocked-blocks : IsBlocked sources path → blocks engine sources path ≡ true
    unfolding blocks
    IsBlocked-blocks why = elim (Option-cases (compile_all engine sources)) [
      | inl f ↦ rw (f, blocks)
      | inr (res, f) ↦ elim why [
        | inl (s, m, bad) ↦ cc (not_compiled sources s m bad)
        | inr (q, w, found) ↦
            let hit = Finds-any sources res q f found in rw (f, blocks) (blocked_by res (q, w, hit))
      ]
    ]
      where
        blocked_by :
            (res : List Regex)
            → Hits res path
            → (if is_empty res then false else blocks_from engine (suc (length path)) res path)
              ≡ true
        blocked_by [] (q, w, hit) = cc
        blocked_by (re ∷ res) hits = Hits-blocks_from (suc (length path)) (re ∷ res) path hits

    -- A path is blocked exactly when some source does not compile, or a source finds something in
    -- the path or in one of its ancestors other than the root.
    pub blocks_iff : (blocks engine sources path ≡ true) ↔ IsBlocked sources path
    blocks_iff = (blocks-IsBlocked, IsBlocked-blocks)

  -- What is blocked with some sources is blocked with more of them.
  pub blocks_more :
      (sources more : List Text) (path : Text)
      → ((s : Text) → Memᴰ s sources → Memᴰ s more)
      → blocks engine sources path ≡ true
      → blocks engine more path ≡ true
  blocks_more sources more path sub e =
      (blocks_iff more path).1 (elim ((blocks_iff sources path).0 e) [
        | inl (s, m, bad) ↦ inl (s, sub s m, bad)
        | inr (q, w, (s, m, re, f, hit)) ↦ inr (q, w, (s, sub s m, re, f, hit))
      ])

  -- A filter that blocks a directory other than the root blocks all that is under it.
  pub blocks_under :
      (sources : List Text) (dir path : Text)
      → dir ≢ []
      → IsUnder dir path
      → blocks engine sources dir ≡ true
      → blocks engine sources path ≡ true
  blocks_under sources dir path n u e =
      (blocks_iff sources path).1 (elim ((blocks_iff sources dir).0 e) [
        | inl bad ↦ inl bad
        | inr (q, w, found) ↦ inr (q, IsWithin-under q dir path n u w, found)
      ])
