-- ===== src/Relay/Routing/Errors.antt =====
-- packages/relay/src/router.ts: the errors of executors, as they are passed on.
pub mod Clean
pub mod Fields
use constellation_mcp.Prelude.{
  ℕ, Bool, true, false, not, ◌||◌, List, [], ◌∷◌, ◌++◌, Option, none, some, if◌then◌else◌, ltb,
  ◌==◌, length, take, keep,
}
use constellation_mcp.Prelude.Text.{Text, text, decimal, join_with}
use mathlib.Core.Option
use constellation_mcp.Prelude.Table.{put}
use constellation_mcp.Shared.Json.{
  Value, undefined, null, bool, num, str, arr, obj, Values, nil, cons, Object, own, entries,
}

-- A throw ends the block.
infixl 5 ◌>>=◌
abbrev pub ◌>>=◌ {ℓ κ} : {A : Type ℓ} {B : Type κ} → Option A → (A → Option B) → Option B
none >>= f = none
some x >>= f = f x

abbrev pub both : Option Text → Option (List Text) → Option (List Text)
both (some s) (some rest) = some (s ∷ rest)
both _ _ = none

abbrev pub max_executor_error_field_length : ℕ
max_executor_error_field_length = 500

-- An object's own `toString` is never a function, as it is read from JSON, and the other way to a
-- primitive, `valueOf`, leads to none: to show such an object throws.
abbrev pub shown_object : Option Value → Option Text
shown_object none = some (text "[object Object]")
shown_object (some v) = none

-- An element of an array that is shown as the given text, if it is one.
abbrev pub shown_item : Value → Option Text → Option Text
shown_item undefined t = some []
shown_item null t = some []
shown_item _ t = t

unfoldable mutual
  -- `String(value)`; none if it throws.
  pub shown : Value → Option Text
  shown undefined = some (text "undefined")
  shown null = some (text "null")
  shown (bool true) = some (text "true")
  shown (bool false) = some (text "false")
  shown (num n) = some (decimal n)
  shown (str s) = some s
  shown (arr vs) = Option.map (join_with (text ",")) (items vs)
  shown (obj fs) = shown_object (own (entries fs) (text "toString"))

  -- The elements of an array, as `join` shows them.
  pub items : Values → Option (List Text)
  items nil = some []
  items (cons v vs) = both (shown_item v (shown v)) (items vs)

-- `[\x00-\x1F\x7F]`.
unfoldable pub is_control : ℕ → Bool
is_control c = ltb c 0x20 || c == 0x7f

pub clipped : ℕ → Text → Text
clipped max s = if ltb max (length s) then take max s ++ text "…" else s

-- The text that is left of a text.
pub cleaned_text : ℕ → Text → Text
cleaned_text max s = clipped max (keep (λ c. not (is_control c)) s)

unfoldable pub clean_executor_error_field : Value → ℕ → Option Text
clean_executor_error_field value max = Option.map (cleaned_text max) (shown value)

-- A field that is replaced if it is there.
pub replace_field : Text → ℕ → Option Value → Object → Option Object
replace_field key max none result = some result
replace_field key max (some undefined) result = some result
replace_field key max (some v) result =
    Option.map (λ s. put result key (str s)) (clean_executor_error_field v max)

pub clean_if_present : Text → ℕ → Object → Object → Option Object
clean_if_present key max error result = replace_field key max (own error key) result

-- `error[key]`.
abbrev pub read : Object → Text → Value
read error key = elim (own error key) [ none ↦ undefined | some v ↦ v ]

-- None if a field cannot be shown, which throws.
pub sanitize_executor_error : Object → Option Object
sanitize_executor_error error = do
  m ← clean_executor_error_field (read error (text "message")) max_executor_error_field_length
  coded ← clean_if_present (text "code") 64 error (put error (text "message") (str m))
  clean_if_present (text "path") max_executor_error_field_length error coded
