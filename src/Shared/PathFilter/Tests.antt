-- ===== src/Shared/PathFilter/Tests.antt =====
-- packages/shared/src/path-filter.ts: examples, with an engine whose regexes are anchored literals.
use constellation_mcp.Prelude.{
  ◌≡◌, refl, ◌↔◌, true, false, List, [], ◌∷◌, Option, none, some, if◌then◌else◌,
}
use constellation_mcp.Prelude.Text.{Text, text, eq_text}
use constellation_mcp.Shared.PathFilter.{Engine, glob, regex, filter_source, blocks, parent}
use constellation_mcp.Shared.PathFilter.Glob.{ok}
use constellation_mcp.Shared.PathFilter.Ancestors.{IsWithin}
use constellation_mcp.Shared.PathFilter.Blocks.{IsBlocked, Finds, blocks_iff, blocks_under}
use constellation_mcp.Shared.PathFilter.Stored.{IsAccepted, filter_source_iff, blocks-accepted_iff}

-- A source stands for itself; one that starts with `(` does not compile.
abbrev literal : Text → Option Text
literal [] = some []
literal (c ∷ s) = if eq_text (c ∷ []) (text "(") then none else some (c ∷ s)

abbrev pub literals : Engine
literals = record { Regex = Text; compile = literal; finds = eq_text }

abbrev secrets : List Text
secrets = text "/srv/.git" ∷ []

abbrev git : Text
git = text "/srv/.git"

abbrev config : Text
config = text "/srv/.git/config"

blocks_tests :
    (blocks literals secrets config ≡ true)
    × (blocks literals secrets (text "/srv/main.c") ≡ false)
    × (blocks literals (text "(" ∷ []) (text "/srv/main.c") ≡ true)
    × (blocks literals [] config ≡ false)
unfolding blocks eq_text parent
blocks_tests = (refl, refl, refl, refl)

git_blocked : blocks literals secrets git ≡ true
unfolding blocks eq_text parent
git_blocked = refl

git_made : filter_source literals (text "/srv/.git") regex ≡ ok (text "/srv/.git")
unfolding filter_source eq_text
git_made = refl

blocks_iff_example : (blocks literals secrets config ≡ true) ↔ IsBlocked literals secrets config
blocks_iff_example = blocks_iff literals secrets config

blocks_under_example : blocks literals secrets config ≡ true
blocks_under_example =
    blocks_under literals secrets git config (λ e. cc e) (text "config", refl) git_blocked

filter_source_iff_example :
    (filter_source literals (text "*.key") glob ≡ ok (text "^(?:.*/)?[^/]*\\.key$"))
    ↔ IsAccepted literals (text "*.key") glob (text "^(?:.*/)?[^/]*\\.key$")
filter_source_iff_example =
    filter_source_iff literals (text "*.key") glob (text "^(?:.*/)?[^/]*\\.key$")

blocks-accepted_iff_example :
    (blocks literals secrets config ≡ true)
    ↔ ((q : Text) × IsWithin q config × Finds literals secrets q)
blocks-accepted_iff_example =
    blocks-accepted_iff literals secrets config ((text "/srv/.git", regex, git_made), tt)
