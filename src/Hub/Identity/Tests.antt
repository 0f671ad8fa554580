-- ===== src/Hub/Identity/Tests.antt =====
-- packages/hub/src/identity.ts: examples.
use constellation_mcp.Prelude.{◌≡◌, refl, ◌↔◌, [], ◌∷◌, none, some, if◌then◌else◌}
use constellation_mcp.Prelude.Text.{text, eq_text}
use constellation_mcp.Prelude.Strings.{
  whole, split_on, trim, trim_end, trim_start, is_space, parse_int, is_digit,
}
use constellation_mcp.Shared.Json.{str, Object, own}
use constellation_mcp.Hub.Identity.{
  Getent, ResolvedIdentity, IdentityConfig, getpwnam, is_username, first_claim, resolve_os_user,
  resolve_identity, resolved,
}
use constellation_mcp.Hub.Identity.Exact.{IsAccount, resolve_os_user_iff}
use constellation_mcp.Hub.Identity.Tiers.{RunsAs, resolve_identity_iff}

-- An answer for the name and for the UID of one account.
abbrev pub getent : Getent
getent name =
    if eq_text name (text "bob")
    then some (text "bob:x:1000:1000:Bob:/home/bob:/bin/sh\n")
    else if eq_text name (text "1000")
    then some (text "bob:x:1000:1000:Bob:/home/bob:/bin/sh\n")
    else none

abbrev pub bob : ResolvedIdentity
bob = record { username = text "bob"; uid = whole 1000; gid = whole 1000; home = text "/home/bob" }

abbrev pub config : IdentityConfig
config = record { claims = text "constellation_username" ∷ []; user_map = [] }

abbrev claims : Object
claims = (text "constellation_username", str (text "bob")) ∷ []

bob_resolves :
    (resolve_identity getent claims (text "s1") config ≡ resolved bob)
    × (resolve_os_user getent (str (text "1000")) ≡ none)
unfolding resolve_identity resolve_os_user first_claim getpwnam is_username own eq_text split_on
    trim trim_end trim_start is_space parse_int is_digit
bob_resolves = (refl, refl)

resolve_os_user_iff_example :
    (resolve_os_user getent (str (text "bob")) ≡ some bob) ↔ IsAccount getent (str (text "bob")) bob
resolve_os_user_iff_example = resolve_os_user_iff getent (str (text "bob")) bob

resolve_identity_iff_example :
    (resolve_identity getent claims (text "s1") config ≡ resolved bob)
    ↔ RunsAs getent claims (text "s1") config bob
resolve_identity_iff_example = resolve_identity_iff getent claims (text "s1") config bob
