-- ===== src/Shared/Permissions.antt =====
-- packages/shared/src/permissions.ts: the access level that a share's permission blob gives a user.
pub mod Best
pub mod Access
pub mod Overrides
pub mod Groups
pub mod Tests
use constellation_mcp.Prelude.{
  ℕ, Bool, true, false, ◌&&◌, ◌||◌, not, List, [], ◌∷◌, Option, none, some, if◌then◌else◌, ltb, any,
  find,
}
use constellation_mcp.Prelude.Text.{Text, text, eq_text}

-- Exactly one of `sub` and `group` is set.
pub data PermissionOverride : Type 0 where
  for_sub for_group : Text → Text → PermissionOverride

pub record PermissionBlob : Type 0 where
  pub default : Text
  pub overrides : Option (List PermissionOverride)

-- `null` for no subject.
pub record PermissionSubject : Type 0 where
  pub sub : Option Text
  pub groups : List Text

abbrev pub access : PermissionOverride → Text
access (for_sub _ a) = a
access (for_group _ a) = a

abbrev pub no_access : Text
no_access = text "none"

abbrev pub read_only : Text
read_only = text "read-only"

abbrev pub read_write : Text
read_write = text "read-write"

-- What `ACCESS_RANK[access] ?? 0` evaluates to: a number, or, for the name of a property of
-- `Object.prototype`, that property, which compares by the text that it converts to.
pub data Rank : Type 0 where
  number : ℕ → Rank
  inherited : Text → Rank

-- The properties of `Object.prototype`, with the text of each.
abbrev inherited_names : List (Text × Text)
inherited_names =
    (text "constructor", text "function Object() { [native code] }")
    ∷ (text "__proto__", text "[object Object]")
    ∷ (text "toString", text "function toString() { [native code] }")
    ∷ (text "toLocaleString", text "function toLocaleString() { [native code] }")
    ∷ (text "valueOf", text "function valueOf() { [native code] }")
    ∷ (text "hasOwnProperty", text "function hasOwnProperty() { [native code] }")
    ∷ (text "isPrototypeOf", text "function isPrototypeOf() { [native code] }")
    ∷ (text "propertyIsEnumerable", text "function propertyIsEnumerable() { [native code] }")
    ∷ (text "__defineGetter__", text "function __defineGetter__() { [native code] }")
    ∷ (text "__defineSetter__", text "function __defineSetter__() { [native code] }")
    ∷ (text "__lookupGetter__", text "function __lookupGetter__() { [native code] }")
    ∷ (text "__lookupSetter__", text "function __lookupSetter__() { [native code] }")
    ∷ []

inherited_rank : List (Text × Text) → Text → Rank
inherited_rank [] a = number 0
inherited_rank ((name, shown) ∷ rest) a =
    if eq_text a name then inherited shown else inherited_rank rest a

pub rank : Text → Rank
unfolding inherited_rank
rank a =
    if eq_text a no_access
    then number 0
    else if eq_text a read_only
    then number 1
    else if eq_text a read_write
    then number 2
    else inherited_rank inherited_names a

-- `<` on strings, by code units.
text_lt : Text → Text → Bool
text_lt s [] = false
text_lt [] (d ∷ t) = true
text_lt (c ∷ s) (d ∷ t) = ltb c d || (not (ltb d c) && text_lt s t)

-- `>` on what `rank` returns: a text that is no number compares with none.
pub outranks : Rank → Rank → Bool
unfolding text_lt
outranks (number a) (number b) = ltb b a
outranks (inherited s) (inherited t) = text_lt t s
outranks (number a) (inherited t) = false
outranks (inherited s) (number b) = false

-- `Object.hasOwn(ACCESS_RANK, access) ? access : "none"`.
pub known_access : Text → Text
known_access a =
    if eq_text a no_access || (eq_text a read_only || eq_text a read_write) then a else no_access

pub names_sub : Text → PermissionOverride → Bool
names_sub sub (for_sub s _) = eq_text s sub
names_sub sub (for_group _ _) = false

pub names_group : List Text → PermissionOverride → Bool
names_group groups (for_sub _ _) = false
names_group groups (for_group g _) = any (eq_text g) groups

-- `best === null || rank(o.access) > rank(best)`.
pub better : Option Text → Text → Text
better none a = a
better (some b) a = if outranks (rank a) (rank b) then a else b

-- The loop over the overrides that looks for the best group override.
unfoldable pub best_group : List Text → Option Text → List PermissionOverride → Option Text
best_group groups best [] = best
best_group groups best (o ∷ os) =
    best_group groups (if names_group groups o then some (better best (access o)) else best) os

-- `blob.default || "none"`.
abbrev pub or_none : Text → Text
or_none [] = no_access
or_none (c ∷ s) = c ∷ s

-- The `find` for an override that names the user; `null` and `""` are no subject.
unfoldable pub by_sub : Option Text → List PermissionOverride → Option PermissionOverride
by_sub none os = none
by_sub (some []) os = none
by_sub (some (c ∷ s)) os = find (names_sub (c ∷ s)) os

abbrev pub listed : Option (List PermissionOverride) → List PermissionOverride
listed none = []
listed (some os) = os

unfoldable pub resolve_access : PermissionBlob → PermissionSubject → Text
resolve_access blob subject = elim (by_sub subject.sub (listed blob.overrides)) [
  | some o ↦ access o
  | none ↦ elim (best_group subject.groups none (listed blob.overrides)) [
    | some best ↦ best
    | none ↦ or_none blob.default
  ]
]

unfoldable pub evaluate_permission_blob : PermissionBlob → PermissionSubject → Text
unfolding known_access resolve_access
evaluate_permission_blob blob subject = known_access (resolve_access blob subject)
