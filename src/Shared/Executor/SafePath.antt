-- ===== src/Shared/Executor/SafePath.antt =====
-- packages/shared/src/executor/tools/safe-path.ts: real paths of paths that may not exist yet.
pub mod Confined
use constellation_mcp.Prelude.{
  ℕ, zero, suc, Bool, true, false, not, ◌&&◌, ◌||◌, List, [], ◌∷◌, ◌++◌, Option, none, some,
  if◌then◌else◌,
}
use constellation_mcp.Prelude.Text.{Text, text, eq_text, starts_with}
use constellation_mcp.Shared.NodePath.{join, dirname, basename}

-- What `fs.realpath` answers: a real path, ENOENT, or another error.
pub data Answer : Type 0 where
  found : Text → Answer
  missing failed : Answer

-- The answers to the calls of one resolution, by the depth of the call. The file system may change
-- between two calls.
abbrev pub Realpath : Type 0
Realpath = ℕ → Text → Answer

-- `resolved.startsWith(root + sep) || resolved === root`.
unfoldable pub is_inside : Text → Text → Bool
is_inside root resolved = starts_with (root ++ text "/") resolved || eq_text resolved root

-- `fuel` is 51 less `_depth`; `none` is a thrown error.
unfoldable pub resolve : Realpath → ℕ → Text → Text → ℕ → Option Text
resolve realpath zero path root depth = none
resolve realpath (suc fuel) path root depth =
    let up = resolve realpath fuel (dirname path) root (suc depth) in
    elim (realpath depth path) [
      | found r ↦ some r
      | failed ↦ none
      | missing ↦ if eq_text (dirname path) path then none else elim up [
        | none ↦ none
        | some parent ↦ if is_inside root parent then some (join parent (basename path)) else none
      ]
    ]

unfoldable pub safe_realpath : Realpath → Text → Text → Option Text
unfolding resolve
safe_realpath realpath path root = resolve realpath 51 path root 0

-- `assertPathStable`; false is a thrown PATH_REJECTED. `now` is the answer of its own call of
-- `fs.realpath`, and `later` are those of the resolution that follows an ENOENT.
pub is_path_stable : Answer → Realpath → Text → Text → Bool
unfolding is_inside
is_path_stable now later path root = if eq_text (dirname path) path then true else elim now [
  | failed ↦ false
  | found r ↦ eq_text r (dirname path) && is_inside root r
  | missing ↦ elim (safe_realpath later (dirname path) root) [
    | none ↦ false
    | some r ↦ eq_text r (dirname path) && is_inside root r
  ]
]
