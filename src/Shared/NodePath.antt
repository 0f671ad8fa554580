-- ===== src/Shared/NodePath.antt =====
-- node:path on POSIX, where `sep` is "/": what the source uses of `join`, `dirname` and `basename`.
use mathlib.Core.List.{reverse}
use mathlib.Core.Path.{◌≡◌, refl}
use constellation_mcp.Prelude.{
  Bool, true, false, not, ◌&&◌, ◌||◌, List, [], ◌∷◌, ◌++◌, if◌then◌else◌, ◌==◌,
}
use constellation_mcp.Prelude.Text.{Text, text, eq_text, starts_with}

-- The parts between slashes; `cur` is the part that is being read.
split_from : Text → Text → List Text
split_from cur [] = cur ∷ []
split_from cur (c ∷ s) =
    let closed = split_from [] s in
    let longer = split_from (cur ++ c ∷ []) s in if c == b'/' then cur ∷ closed else longer

pub split_slash : Text → List Text
unfolding split_from
split_slash s = split_from [] s

abbrev dots : Text
dots = text ".."

-- One part of `normalizeString`; the stack has its top at the head.
resolve : Bool → List Text → Text → List Text
resolve above stack part =
    if eq_text part [] || eq_text part (text ".")
    then stack
    else if eq_text part dots
    then elim stack [
      | [] ↦ if above then dots ∷ [] else []
      | top ∷ rest ↦ if eq_text top dots then dots ∷ top ∷ rest else rest
    ]
    else part ∷ stack

resolve_all : Bool → List Text → List Text → List Text
unfolding resolve eq_text
resolve_all above stack [] = reverse stack
resolve_all above stack (part ∷ parts) = resolve_all above (resolve above stack part) parts

pub joined : List Text → Text
joined [] = []
joined (p ∷ []) = p
joined (p ∷ q ∷ ps) = p ++ b'/' ∷ joined (q ∷ ps)

ends_with_slash : Text → Bool
ends_with_slash [] = false
ends_with_slash (c ∷ []) = c == b'/'
ends_with_slash (c ∷ d ∷ s) = ends_with_slash (d ∷ s)

abbrev trailing : Bool → Text → Text
trailing false s = s
trailing true s = s ++ text "/"

-- `normalize`.
normalize : Text → Text
unfolding resolve_all joined ends_with_slash split_slash eq_text
normalize [] = text "."
normalize (c ∷ s) =
    let path = c ∷ s in
    let absolute = c == b'/' in
    let body = joined (resolve_all (not absolute) [] (split_slash path)) in
    if eq_text body []
    then (if absolute then text "/" else if ends_with_slash path then text "./" else text ".")
    else (if absolute
        then b'/' ∷ trailing (ends_with_slash path) body
        else trailing (ends_with_slash path) body)

-- `resolve(p)`, in the working directory `cwd`.
unfoldable pub resolve_path : (cwd p : Text) → Text
unfolding resolve_all joined split_slash eq_text starts_with
resolve_path cwd p =
    let whole = if starts_with (text "/") p then p else cwd ++ b'/' ∷ p in
    b'/' ∷ joined (resolve_all false [] (split_slash whole))

-- `join(a, b)`.
unfoldable pub join : Text → Text → Text
unfolding normalize
join [] [] = text "."
join [] b = normalize b
join a [] = normalize a
join a b = normalize (a ++ b'/' ∷ b)

-- A text without its trailing slashes.
strip : Text → Text
strip [] = []
strip (c ∷ s) = elim (strip s) [ [] ↦ if c == b'/' then [] else c ∷ [] | d ∷ t ↦ c ∷ d ∷ t ]

-- Up to the last slash, without it; `none` if there is no slash.
before_slash : Text → List Text
before_slash [] = []
before_slash (c ∷ s) = elim (before_slash s) [
  | [] ↦ if c == b'/' then [] ∷ [] else []
  | t ∷ ts ↦ (c ∷ t) ∷ []
]

after_slash : Text → Text → Text
after_slash cur [] = cur
after_slash cur (c ∷ s) = after_slash (if c == b'/' then [] else cur ++ c ∷ []) s

-- `dirname(path)`: the first code unit is the root and never a trailing slash.
unfoldable pub dirname : Text → Text
unfolding strip before_slash eq_text
dirname [] = text "."
dirname (c ∷ s) = elim (before_slash (c ∷ strip s)) [
  | [] ↦ text "."
  | [] ∷ ts ↦ text "/"
  | (d ∷ t) ∷ ts ↦ if c == b'/' && eq_text t [] then text "//" else d ∷ t
]

-- `basename(path)`.
unfoldable pub basename : Text → Text
unfolding strip after_slash
basename path = after_slash [] (strip path)

path_tests :
    (join (text "/a/b") (text "../c/./d/") ≡ text "/a/c/d/")
    × (join (text "/a") (text "../../x") ≡ text "/x")
    × (dirname (text "/a/b/") ≡ text "/a")
    × (dirname (text "/a") ≡ text "/")
    × (dirname (text "a") ≡ text ".")
    × (dirname (text "/") ≡ text "/")
    × (dirname (text "//a") ≡ text "//")
    × (basename (text "/a/b//") ≡ text "b")
unfolding join dirname basename
path_tests = (refl, refl, refl, refl, refl, refl, refl, refl)
