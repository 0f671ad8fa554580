-- ===== src/Shared/PathFilter.antt =====
-- packages/shared/src/path-filter.ts: the deny patterns on the paths of a share. RE2 is a library:
-- what it compiles to and what it finds are parameters.
pub mod Glob
pub mod Ancestors
pub mod Blocks
pub mod Stored
pub mod Tests
use constellation_mcp.Prelude.{
  ℕ, zero, suc, Bool, true, false, not, ◌&&◌, ◌||◌, List, [], ◌∷◌, ◌++◌, Option, none, some, any,
  if◌then◌else◌, ltb, leb, ◌==◌, length, take,
}
use constellation_mcp.Prelude.Text.{Text, text, starts_with}
use Glob.{Result, ok, err, InvalidFilter, glob_to_re2_source}

-- The RE2 library: `RE2JS.compile`, and `re.matcher(p).find()`.
pub record Engine : Type 1 where
  pub Regex : Type 0
  pub compile : Text → Option Regex
  pub finds : Regex → Text → Bool

pub data FilterPatternType : Type 0 where
  glob regex : FilterPatternType

abbrev pub max_filter_pattern_length : ℕ
max_filter_pattern_length = 1000

-- A glob that isn't absolute matches at any depth.
pub anchored : Text → Text
unfolding starts_with
anchored pattern =
    if starts_with (text "/") pattern || starts_with (text "**") pattern
    then pattern
    else text "**/" ++ pattern

-- `p.lastIndexOf("/")`; `none` is -1.
unfoldable pub last_slash : Text → Option ℕ
last_slash [] = none
last_slash (c ∷ s) = elim (last_slash s) [
  | some i ↦ some (suc i)
  | none ↦ if c == b'/' then some 0 else none
]

-- What `p` becomes for the next round; `none` if `cut <= 0`.
unfoldable pub parent : Text → Option Text
unfolding last_slash
parent p = elim (last_slash p) [
  | none ↦ none
  | some zero ↦ none
  | some (suc cut) ↦ some (take (suc cut) p)
]

abbrev pub is_empty {ℓ} : {A : Type ℓ} → List A → Bool
is_empty [] = true
is_empty (x ∷ xs) = false

-- `.active`.
unfoldable pub active : List Text → Bool
active sources = ltb 0 (length sources)

module _ (engine : Engine) where
  open engine use {Regex, compile, finds}

  compiled : Text → Result Text
  compiled source = elim (compile source) [ none ↦ err InvalidFilter.not_re2 | some re ↦ ok source ]

  unfoldable pub filter_source : Text → FilterPatternType → Result Text
  unfolding compiled
  filter_source pattern type =
      if length pattern == 0 || ltb max_filter_pattern_length (length pattern)
      then err InvalidFilter.bad_length
      else elim type [
        | regex ↦ compiled pattern
        | glob ↦ elim (glob_to_re2_source (anchored pattern)) [
          | err e ↦ err e
          | ok source ↦ compiled source
        ]
      ]

  -- The loop that compiles the sources; `none` is `null`.
  unfoldable pub compile_all : List Text → Option (List Regex)
  compile_all [] = some []
  compile_all (s ∷ ss) = elim (compile s) [
    | none ↦ none
    | some re ↦ elim (compile_all ss) [ none ↦ none | some res ↦ some (re ∷ res) ]
  ]

  -- The loop over the path and its ancestors. The fuel is more than the path has code units, and
  -- each round cuts at least one.
  unfoldable pub blocks_from : ℕ → List Regex → Text → Bool
  blocks_from zero res p = true
  blocks_from (suc fuel) res p =
      if any (λ re. finds re p) res
      then true
      else elim (parent p) [ none ↦ false | some q ↦ blocks_from fuel res q ]

  -- `createPathFilter(sources).blocks(path)`.
  unfoldable pub blocks : List Text → Text → Bool
  unfolding compile_all blocks_from
  blocks sources path = elim (compile_all sources) [
    | none ↦ true
    | some res ↦ if is_empty res then false else blocks_from (suc (length path)) res path
  ]
