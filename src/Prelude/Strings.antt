-- ===== src/Prelude/Strings.antt =====
-- What the source uses of the methods of String, and `parseInt`.
use Prim.Native.Nat.{ℕ, ◌+◌, ◌-◌, ◌*◌}
use mathlib.Core.Path.{◌≡◌, refl}
use mathlib.Core.Bool.{Bool, ◌&&◌, ◌||◌}
use mathlib.Core.Option.{Option, none, some}
use mathlib.Core.List.{List, [], ◌∷◌, ◌++◌}
use constellation_mcp.Prelude.Tests.{leb, ◌==◌, if◌then◌else◌}
use constellation_mcp.Prelude.Text.{Text, text}

abbrev pub between : ℕ → ℕ → ℕ → Bool
between low high c = leb low c && leb c high

-- White space and line terminators.
unfoldable pub is_space : ℕ → Bool
is_space c =
    between 0x9 0xd c
    || (c == 0x20
        || (c == 0xa0
            || (c == 0x1680
                || (between 0x2000 0x200a c
                    || (c == 0x2028
                        || (c == 0x2029
                            || (c == 0x202f || (c == 0x205f || (c == 0x3000 || c == 0xfeff)))))))))

unfoldable pub trim_start : Text → Text
trim_start [] = []
trim_start (c ∷ s) = if is_space c then trim_start s else c ∷ s

-- Without the white space at the end.
unfoldable pub trim_end : Text → Text
trim_end [] = []
trim_end (c ∷ s) = elim (trim_end s) [ [] ↦ if is_space c then [] else c ∷ [] | d ∷ t ↦ c ∷ d ∷ t ]

unfoldable pub trim : Text → Text
trim s = trim_end (trim_start s)

unfoldable pub split_from : ℕ → Text → Text → List Text
split_from sep piece [] = piece ∷ []
split_from sep piece (c ∷ s) =
    if c == sep then piece ∷ split_from sep [] s else split_from sep (piece ++ c ∷ []) s

-- `s.split(sep)`, for a separator of one code unit.
unfoldable pub split_on : ℕ → Text → List Text
unfolding split_from
split_on sep s = split_from sep [] s

unfoldable pub is_digit : ℕ → Bool
is_digit c = between b'0' b'9' c

-- The value of the digits in front, after those that were read.
digits_value : ℕ → Text → ℕ
digits_value n [] = n
digits_value n (c ∷ s) =
    let rest = digits_value (n * 10 + (c - b'0')) s in if is_digit c then rest else n

-- An integer of the source.
pub data Integer : Type 0 where
  whole negative : ℕ → Integer

unsigned : (ℕ → Integer) → Text → Option Integer
unsigned made [] = none
unsigned made (c ∷ s) = if is_digit c then some (made (digits_value 0 (c ∷ s))) else none

signed : Text → Option Integer
signed [] = none
signed (c ∷ s) =
    if c == b'-'
    then unsigned negative s
    else if c == b'+'
    then unsigned whole s
    else unsigned whole (c ∷ s)

-- `parseInt(s, 10)`; `none` is NaN.
unfoldable pub parse_int : Text → Option Integer
unfolding digits_value unsigned signed
parse_int s = signed (trim_start s)

strings_tests :
    (split_on b':' (text "a::b") ≡ text "a" ∷ [] ∷ text "b" ∷ [])
    × (trim (text " a b\n") ≡ text "a b")
    × (parse_int (text " 12x") ≡ some (whole 12))
    × (parse_int (text "x") ≡ none)
    × (parse_int (text "-7") ≡ some (negative 7))
unfolding split_on trim trim_end trim_start is_space parse_int is_digit
strings_tests = (refl, refl, refl, refl, refl)
