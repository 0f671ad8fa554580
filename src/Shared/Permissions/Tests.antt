-- ===== src/Shared/Permissions/Tests.antt =====
-- packages/shared/src/permissions.ts: examples.
use constellation_mcp.Prelude.{◌≡◌, refl, ◌↔◌, true, [], ◌∷◌, Memᴰ, none, some}
use constellation_mcp.Prelude.Text.{Text, text, eq_text}
use constellation_mcp.Shared.Json.{Object, str, arr, from_list, own}
use constellation_mcp.Shared.Permissions.{
  PermissionOverride, for_group, PermissionBlob, PermissionSubject, no_access, read_only,
  read_write, by_sub, names_sub, best_group, better, outranks, names_group, rank,
  evaluate_permission_blob,
}
use constellation_mcp.Shared.Permissions.Best.{ArePlain}
use constellation_mcp.Shared.Permissions.Access.{NoneFor, Grants, evaluate_iff}
use constellation_mcp.Shared.Permissions.Overrides.{
  SameOverrides, IsInherited, evaluate_same, evaluate_inherited,
}
use constellation_mcp.Shared.Permissions.Groups.{
  groups_from_claims, groups_from_claims_iff, ok, Reads,
}

abbrev alice : PermissionSubject
alice = record { sub = some (text "alice"); groups = text "staff" ∷ text "dev" ∷ [] }

abbrev staff : PermissionOverride
staff = for_group (text "staff") read_only

abbrev dev : PermissionOverride
dev = for_group (text "dev") read_write

abbrev blob : PermissionBlob
blob = record { default = no_access; overrides = some (staff ∷ dev ∷ []) }

-- An override with an access that is no level, before one that grants.
abbrev shadowed : PermissionBlob
shadowed = record {
  default = read_only;
  overrides = some (for_group (text "staff") (text "constructor") ∷ dev ∷ []);
}

evaluate_tests :
    (evaluate_permission_blob blob alice ≡ read_write)
    × (evaluate_permission_blob blob (record { sub = none; groups = [] }) ≡ no_access)
unfolding evaluate_permission_blob eq_text by_sub names_sub best_group names_group better outranks
    rank
evaluate_tests = (refl, refl)

is_plain : (a : Text) → (names_group alice.groups (for_group (text "staff") a) ≡ true)
unfolding names_group eq_text
is_plain a = refl

NoneFor-alice : NoneFor alice.sub (staff ∷ dev ∷ [])
NoneFor-alice s e n a (Memᴰ.head f) = cc f
NoneFor-alice s e n a (Memᴰ.tail (Memᴰ.head f)) = cc f
NoneFor-alice s e n a (Memᴰ.tail (Memᴰ.tail m)) = elim m [ ]

NoneFor-shadowed : NoneFor alice.sub (for_group (text "staff") (text "constructor") ∷ dev ∷ [])
NoneFor-shadowed s e n a (Memᴰ.head f) = cc f
NoneFor-shadowed s e n a (Memᴰ.tail (Memᴰ.head f)) = cc f
NoneFor-shadowed s e n a (Memᴰ.tail (Memᴰ.tail m)) = elim m [ ]

plain : ArePlain alice.groups (staff ∷ dev ∷ [])
unfolding rank eq_text
plain = ((λ m. tt), ((λ m. tt), tt))

swapped : SameOverrides (staff ∷ dev ∷ []) (dev ∷ staff ∷ [])
swapped = (there, back)
  where
    there : (o : PermissionOverride) → Memᴰ o (staff ∷ dev ∷ []) → Memᴰ o (dev ∷ staff ∷ [])
    there o (Memᴰ.head e) = Memᴰ.tail (Memᴰ.head e)
    there o (Memᴰ.tail (Memᴰ.head e)) = Memᴰ.head e
    there o (Memᴰ.tail (Memᴰ.tail m)) = elim m [ ]

    back : (o : PermissionOverride) → Memᴰ o (dev ∷ staff ∷ []) → Memᴰ o (staff ∷ dev ∷ [])
    back o (Memᴰ.head e) = Memᴰ.tail (Memᴰ.head e)
    back o (Memᴰ.tail (Memᴰ.head e)) = Memᴰ.head e
    back o (Memᴰ.tail (Memᴰ.tail m)) = elim m [ ]

inherits : IsInherited (rank (text "constructor"))
unfolding rank eq_text
inherits = tt

evaluate_iff_example :
    (evaluate_permission_blob blob alice ≡ read_write) ↔ Grants blob alice read_write
evaluate_iff_example = evaluate_iff blob alice plain read_write

evaluate_same_example :
    evaluate_permission_blob (record blob { overrides = some (dev ∷ staff ∷ []) }) alice
    ≡ evaluate_permission_blob blob alice
evaluate_same_example = evaluate_same blob alice (dev ∷ staff ∷ []) plain NoneFor-alice swapped

evaluate_inherited_example : evaluate_permission_blob shadowed alice ≡ no_access
evaluate_inherited_example =
    evaluate_inherited shadowed alice (text "staff") (text "constructor") (dev ∷ [])
      NoneFor-shadowed refl (is_plain (text "constructor")) inherits

abbrev claims : Object
claims = (text "groups", arr (from_list (str (text "staff") ∷ []))) ∷ []

groups_from_claims_iff_example :
    (groups_from_claims claims ≡ ok (text "staff" ∷ []))
    ↔ Reads (own claims (text "groups")) (text "staff" ∷ [])
groups_from_claims_iff_example = groups_from_claims_iff claims (text "staff" ∷ [])
