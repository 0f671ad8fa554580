-- ===== src/Hub/Identity.antt =====
-- packages/hub/src/identity.ts: the OS account that a request runs as. What `getent` prints is a
-- parameter.
pub mod Exact
pub mod Tiers
pub mod Tests
use constellation_mcp.Prelude.{
  ℕ, Bool, true, false, not, ◌&&◌, ◌||◌, List, [], ◌∷◌, Option, none, some, if◌then◌else◌, ltb, leb,
  ◌==◌, length, all, find,
}
use constellation_mcp.Prelude.Text.{Text, text, eq_text}
use constellation_mcp.Prelude.Strings.{trim, split_on, parse_int, Integer, is_digit}
use constellation_mcp.Shared.Json.{Value, str, undefined, Object, own}

-- `getent passwd -- name`; `none` if it fails.
abbrev pub Getent : Type 0
Getent = Text → Option Text

pub record Passwd : Type 0 where
  pub name : Text
  pub uid : Integer
  pub gid : Integer
  pub home : Text

abbrev or_slash : Text → Text
or_slash [] = text "/"
or_slash (c ∷ s) = c ∷ s

-- `parts[5] || "/"`, from the parts after the fourth.
abbrev home_of : List Text → Text
home_of (gecos ∷ home ∷ rest) = or_slash home
home_of _ = text "/"

abbrev both : Text → List Text → Option Integer → Option Integer → Option Passwd
both name rest (some uid) (some gid) =
    some (record { name = name; uid = uid; gid = gid; home = home_of rest })
both name rest _ _ = none

-- The fields of a passwd line.
parse_parts : List Text → Option Passwd
parse_parts (name ∷ password ∷ uid ∷ gid ∷ rest) = both name rest (parse_int uid) (parse_int gid)
parse_parts _ = none

parse_passwd : Text → Option Passwd
unfolding parse_parts
parse_passwd [] = none
parse_passwd (c ∷ out) = parse_parts (split_on b':' (c ∷ out))

unfoldable pub getpwnam : Getent → Text → Option Passwd
unfolding parse_passwd
getpwnam getent [] = none
getpwnam getent (c ∷ name) = elim (getent (c ∷ name)) [
  | none ↦ none
  | some out ↦ parse_passwd (trim out)
]

abbrev is_letter : ℕ → Bool
is_letter c = (leb b'A' c && leb c b'Z') || (leb b'a' c && leb c b'z')

abbrev pub is_name_start : ℕ → Bool
is_name_start c = is_letter c || c == b'_'

abbrev pub is_name_char : ℕ → Bool
is_name_char c = is_name_start c || (is_digit c || (c == b'.' || (c == b'@' || c == b'-')))

-- USERNAME_PATTERN.
unfoldable pub is_username : Text → Bool
unfolding is_digit
is_username [] = false
is_username (c ∷ s) = is_name_start c && (all is_name_char s && leb (length s) 255)

pub record ResolvedIdentity : Type 0 where
  pub username : Text
  pub uid : Integer
  pub gid : Integer
  pub home : Text

-- The account of an exact name.
exact : Text → Option Passwd → Option ResolvedIdentity
exact candidate none = none
exact candidate (some pw) =
    if not (eq_text pw.name candidate)
    then none
    else some (record { username = pw.name; uid = pw.uid; gid = pw.gid; home = pw.home })

unfoldable pub resolve_os_user : Getent → Value → Option ResolvedIdentity
unfolding exact
resolve_os_user getent (str candidate) =
    if not (is_username candidate) then none else exact candidate (getpwnam getent candidate)
resolve_os_user getent _ = none

pub record UserMapEntry : Type 0 where
  pub sub : Text
  pub local_username : Text

pub record IdentityConfig : Type 0 where
  pub claims : List Text
  pub user_map : List UserMapEntry

pub data Resolution : Type 0 where
  resolved : ResolvedIdentity → Resolution
  refused : Resolution

abbrev or_refused : Option ResolvedIdentity → Resolution
or_refused none = refused
or_refused (some id) = resolved id

-- The first claim, in the order of the configuration, that has a value.
unfoldable pub first_claim : Object → List Text → Option Value
first_claim claims [] = none
first_claim claims (name ∷ names) = elim (own claims name) [
  | none ↦ first_claim claims names
  | some undefined ↦ first_claim claims names
  | some v ↦ some v
]

-- The tier of the user map.
by_map : Getent → Text → List UserMapEntry → Resolution
by_map getent [] map = refused
by_map getent (c ∷ sub) map = elim (find (λ e. eq_text e.sub (c ∷ sub)) map) [
  | none ↦ refused
  | some e ↦ or_refused (resolve_os_user getent (str e.local_username))
]

unfoldable pub resolve_identity : Getent → Object → Text → IdentityConfig → Resolution
unfolding by_map
resolve_identity getent claims sub config = elim (first_claim claims config.claims) [
  | some v ↦ or_refused (resolve_os_user getent v)
  | none ↦ by_map getent sub config.user_map
]
