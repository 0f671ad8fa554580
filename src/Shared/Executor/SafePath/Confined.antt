-- ===== src/Shared/Executor/SafePath/Confined.antt =====
-- What the test that a path is inside a root means.
use constellation_mcp.Prelude.{◌≡◌, ◌⊎◌, inl, inr, true, [], ◌∷◌, ◌++◌, arith, Bool-cases}
use constellation_mcp.Prelude.Text.{Text, text, eq_text→eq, starts_with}
use constellation_mcp.Shared.Executor.SafePath.{is_inside}

-- The root, or the root, a slash and something more.
abbrev pub IsInside : Text → Text → Type 0
IsInside root path = (path ≡ root) ⊎ ((rest : Text) × (path ≡ root ++ b'/' ∷ rest))

starts_with-slash :
    (root path : Text)
    → starts_with (root ++ text "/") path ≡ true
    → (rest : Text) × (path ≡ root ++ b'/' ∷ rest)
unfolding starts_with
starts_with-slash [] [] h = cc
starts_with-slash [] (c ∷ path) h = (path, ground arith)
starts_with-slash (d ∷ root) [] h = cc
starts_with-slash (d ∷ root) (c ∷ path) h =
    let (rest, e) = starts_with-slash root path (ground arith) in (rest, ground arith)

pub is_inside-IsInside : (root path : Text) → is_inside root path ≡ true → IsInside root path
unfolding is_inside
is_inside-IsInside root path h = elim (Bool-cases (starts_with (root ++ text "/") path)) [
  | inl under ↦ inr (starts_with-slash root path under)
  | inr other ↦ inl (eq_text→eq path root (ground arith))
]
