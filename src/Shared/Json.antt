-- ===== src/Shared/Json.antt =====
-- Parsed JSON, `unknown` in the source. Numbers are the non-negative integers.
use constellation_mcp.Prelude.{
  ℕ, Bool, true, false, List, [], ◌∷◌, Option, none, some, if◌then◌else◌, any,
}
use constellation_mcp.Prelude.Text.{Text, text, eq_text}

mutual
  pub data Value : Type 0 where
    undefined null : Value
    bool : Bool → Value
    num : ℕ → Value
    str : Text → Value
    arr : Values → Value
    obj : Fields → Value

  pub data Values : Type 0 where
    nil : Values
    cons : Value → Values → Values

  pub data Fields : Type 0 where
    end : Fields
    field : Text → Value → Fields → Fields

abbrev pub values : Values → List Value
values nil = []
values (cons v vs) = v ∷ values vs

-- An array of texts.
abbrev pub texts : List Text → Values
texts [] = nil
texts (t ∷ ts) = cons (str t) (texts ts)

abbrev pub from_list : List Value → Values
from_list [] = nil
from_list (v ∷ vs) = cons v (from_list vs)

-- An object of the source: its own properties, in order.
abbrev pub Object : Type 0
Object = List (Text × Value)

-- The properties of an object.
unfoldable pub entries : Fields → Object
entries end = []
entries (field k v fs) = (k, v) ∷ entries fs

-- An own property's value.
unfoldable pub own {ℓ} : {A : Type ℓ} → List (Text × A) → Text → Option A
own [] key = none
own ((k, v) ∷ rest) key = if eq_text k key then some v else own rest key

-- The names under which every object inherits a property.
abbrev inherited_names : List Text
inherited_names =
    text "constructor"
    ∷ text "__proto__"
    ∷ text "toString"
    ∷ text "toLocaleString"
    ∷ text "valueOf"
    ∷ text "hasOwnProperty"
    ∷ text "isPrototypeOf"
    ∷ text "propertyIsEnumerable"
    ∷ text "__defineGetter__"
    ∷ text "__defineSetter__"
    ∷ text "__lookupGetter__"
    ∷ text "__lookupSetter__"
    ∷ []

unfoldable pub is_inherited : Text → Bool
is_inherited key = any (eq_text key) inherited_names

-- `typeof v === "object" && v !== null`.
unfoldable pub is_object : Value → Bool
is_object (obj fs) = true
is_object (arr vs) = true
is_object _ = false

-- `typeof v === "string" ? v : undefined`, of a property.
abbrev pub as_text : Option Value → Option Text
as_text (some (str t)) = some t
as_text _ = none
