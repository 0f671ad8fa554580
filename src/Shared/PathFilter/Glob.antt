-- ===== src/Shared/PathFilter/Glob.antt =====
-- packages/shared/src/path-filter.ts: the translation of a glob into an anchored RE2 source.
use constellation_mcp.Prelude.{
  ℕ, zero, suc, Bool, false, ◌&&◌, ◌||◌, [], ◌∷◌, ◌++◌, Option, none, some, any, if◌then◌else◌, ltb,
  ◌==◌, ◌-◌, take,
}
use mathlib.Core.Option
use mathlib.Core.Path.{◌≡◌, refl}
use constellation_mcp.Prelude.Text.{Text, text}

-- What `InvalidFilterError` says.
pub data InvalidFilter : Type 0 where
  bad_length unclosed_bracket unclosed_brace not_re2 : InvalidFilter

pub data Result {ℓ} (A : Type ℓ) : Type ℓ where
  ok : A → Result A
  err : InvalidFilter → Result A

-- `c.replace(/[.+^$()|\\{}[\]]/g, "\\$&")` on one code unit.
abbrev specials : Text
specials = text ".+^$()|\\{}[]"

pub escape : ℕ → Text
escape c = if any (◌==◌ c) specials then b'\\' ∷ c ∷ [] else c ∷ []

-- `body.replace(/[\\\]]/g, "\\$&")`.
pub escape_class : Text → Text
escape_class [] = []
escape_class (c ∷ s) =
    if c == b'\\' || c == b']' then b'\\' ∷ c ∷ escape_class s else c ∷ escape_class s

abbrev pub unit_at : ℕ → Text → Option ℕ
unit_at i [] = none
unit_at zero (c ∷ s) = some c
unit_at (suc i) (c ∷ s) = unit_at i s

abbrev pub is_unit : Option ℕ → ℕ → Bool
is_unit none c = false
is_unit (some d) c = d == c

-- `s.indexOf(c, from)`.
pub index_from : ℕ → ℕ → Text → Option ℕ
index_from c from [] = none
index_from c (suc from) (d ∷ s) = Option.map suc (index_from c from s)
index_from c zero (d ∷ s) =
    let later = index_from c zero s in if d == c then some 0 else Option.map suc later

-- One round of the loop: what is appended to `out`, the brace depth after it, and by how much more
-- than one `i` grows.
pub record Round : Type 0 where
  pub piece : Text
  pub depth : ℕ
  pub skip : ℕ

-- `[...]`, with the rest of the glob behind the bracket.
class_piece : Text → Text
unfolding escape_class
class_piece [] = text "[]"
class_piece (c ∷ body) =
    if c == b'!' || c == b'^'
    then text "[^" ++ (escape_class body ++ text "]")
    else text "[" ++ (escape_class (c ∷ body) ++ text "]")

pub round : ℕ → ℕ → Text → Result Round
unfolding escape index_from class_piece
round depth c rest =
    if c == b'*'
    then (if is_unit (unit_at 0 rest) b'*'
        then (if is_unit (unit_at 1 rest) b'/'
            then ok (record { piece = text "(?:.*/)?"; depth = depth; skip = 2 })
            else ok (record { piece = text ".*"; depth = depth; skip = 1 }))
        else ok (record { piece = text "[^/]*"; depth = depth; skip = 0 }))
    else if c == b'?'
    then ok (record { piece = text "[^/]"; depth = depth; skip = 0 })
    else if c == b'['
    then elim (index_from b']' 1 rest) [
      | none ↦ err unclosed_bracket
      | some end ↦
          ok (record { piece = class_piece (take end rest); depth = depth; skip = suc end })
    ]
    else if c == b'{'
    then ok (record { piece = text "(?:"; depth = suc depth; skip = 0 })
    else if c == b'}' && ltb 0 depth
    then ok (record { piece = text ")"; depth = depth - 1; skip = 0 })
    else if c == b',' && ltb 0 depth
    then ok (record { piece = text "|"; depth = depth; skip = 0 })
    else ok (record { piece = escape c; depth = depth; skip = 0 })

-- The loop; `skip` is the number of code units that it still has to pass over.
pub glob_loop : ℕ → ℕ → Text → Text → Result Text
glob_loop skip depth out [] =
    if depth == 0 then ok (text "^" ++ (out ++ text "$")) else err unclosed_brace
glob_loop (suc skip) depth out (c ∷ s) = glob_loop skip depth out s
glob_loop zero depth out (c ∷ s) = elim (round depth c s) [
  | err e ↦ err e
  | ok r ↦ glob_loop r.skip r.depth (out ++ r.piece) s
]

pub glob_to_re2_source : Text → Result Text
unfolding glob_loop round
glob_to_re2_source glob = glob_loop 0 0 [] glob

glob_tests :
    (glob_to_re2_source (text "a/**/b?.[!x]{c,d*}")
      ≡ ok (text "^a/(?:.*/)?b[^/]\\.[^x](?:c|d[^/]*)$"))
    × (glob_to_re2_source (text "a{b") ≡ err unclosed_brace)
    × (glob_to_re2_source (text "[]") ≡ err unclosed_bracket)
unfolding glob_to_re2_source
glob_tests = (refl, refl, refl)
