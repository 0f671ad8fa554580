-- ===== src/Shared/Permissions/Groups.antt =====
-- packages/shared/src/permissions.ts: the `groups` claim of an access token.
use constellation_mcp.Prelude.{
  ℕ, ◌≤◌, ◌<◌, ◌≡◌, refl, sym, ap, inl, inr, ◌↔◌, Bool, true, false, not, ◌&&◌, List, [], ◌∷◌,
  Option, none, some, arith, Bool-cases, Option-cases, All, ltb-false, ap₂, if◌then◌else◌, ltb,
  ◌==◌, length,
}
use constellation_mcp.Prelude.Text.{Text, text}
use constellation_mcp.Shared.Json.{
  Value, undefined, null, bool, num, str, arr, obj, Values, nil, cons, values, texts, Object, own,
}

abbrev pub max_groups : ℕ
max_groups = 256

abbrev pub max_group_length : ℕ
max_group_length = 256

-- What `InvalidGroupsError` says.
pub data InvalidGroups : Type 0 where
  not_an_array too_many bad_entry : InvalidGroups

pub data Result : Type 0 where
  ok : List Text → Result
  refused : InvalidGroups → Result

-- One round of the loop over the entries: `typeof g === "string"`, and its length.
abbrev pub entry_ok : Value → Bool
entry_ok (str g) = not (length g == 0) && not (ltb max_group_length (length g))
entry_ok _ = false

abbrev pub as_text : Value → Text
as_text (str g) = g
as_text _ = []

-- The loop that checks the entries, with the copy that it is followed by.
check_entries : List Value → Option (List Text)
check_entries [] = some []
check_entries (v ∷ vs) =
    if entry_ok v
    then elim (check_entries vs) [ none ↦ none | some gs ↦ some (as_text v ∷ gs) ]
    else none

unfoldable pub read_groups : Value → Result
unfolding check_entries
read_groups undefined = ok []
read_groups (arr vs) =
    if ltb max_groups (length (values vs))
    then refused too_many
    else elim (check_entries (values vs)) [ none ↦ refused bad_entry | some gs ↦ ok gs ]
read_groups _ = refused not_an_array

unfoldable pub groups_from_claims : Object → Result
unfolding read_groups own
groups_from_claims claims = elim (own claims (text "groups")) [
  | none ↦ ok []
  | some raw ↦ read_groups raw
]

-- A group name that a claim may hold.
abbrev pub IsGroup : Text → Type 0
IsGroup g = (0 < length g) × (length g ≤ max_group_length)

-- What the claim is read as: an absent or undefined one is no groups, any other one is an array of
-- at most 256 names, each of 1 to 256 code units, and is read as it stands.
pub data Reads (claim : Option Value) (gs : List Text) : Type 0 where
  absent : claim ≡ none → gs ≡ [] → Reads claim gs
  unset : claim ≡ some undefined → gs ≡ [] → Reads claim gs
  listed : claim ≡ some (arr (texts gs)) → length gs ≤ max_groups → All IsGroup gs → Reads claim gs

entry_ok-IsGroup : (v : Value) → entry_ok v ≡ true → (v ≡ str (as_text v)) × IsGroup (as_text v)
entry_ok-IsGroup (str g) h = (refl, (ground arith, ground arith))
entry_ok-IsGroup undefined h = cc
entry_ok-IsGroup null h = cc
entry_ok-IsGroup (bool b) h = cc
entry_ok-IsGroup (num n) h = cc
entry_ok-IsGroup (arr vs) h = cc
entry_ok-IsGroup (obj fs) h = cc

check_entries_sound :
    (vs : Values) (gs : List Text)
    → check_entries (values vs) ≡ some gs
    → (vs ≡ texts gs) × All IsGroup gs
unfolding check_entries
check_entries_sound nil [] e = (refl, tt)
check_entries_sound nil (g ∷ gs) e = cc
check_entries_sound (cons v vs) gs e = elim (Bool-cases (entry_ok v)) [
  | inr bad ↦ cc (rw (bad, check_entries) at e)
  | inl good ↦ elim (Option-cases (check_entries (values vs))) [
    | inl f ↦ cc (rw (good, f, check_entries) at e)
    | inr (rest, f) ↦
        let (same, ok_rest) = check_entries_sound vs rest f in
        let (same_v, ok_v) = entry_ok-IsGroup v good in
        let whole : as_text v ∷ rest ≡ gs = cc (rw (good, f, check_entries) at e) in
        rw (← whole) (ap₂ cons same_v same, (ok_v, ok_rest))
  ]
]

check_entries_complete :
    (gs : List Text) → All IsGroup gs → check_entries (values (texts gs)) ≡ some gs
unfolding check_entries
check_entries_complete [] h = refl
check_entries_complete (g ∷ gs) h = ground (arith, check_entries_complete gs h.1)

length-texts : (gs : List Text) → length (values (texts gs)) ≡ length gs
length-texts [] = refl
length-texts (g ∷ gs) = omega (arith, length-texts gs)

read_groups-Reads : (v : Value) (gs : List Text) → read_groups v ≡ ok gs → Reads (some v) gs
unfolding read_groups
read_groups-Reads undefined gs e = unset refl (ground arith)
read_groups-Reads (arr vs) gs e = elim (Bool-cases (ltb max_groups (length (values vs)))) [
  | inl many ↦ cc (rw (many, read_groups) at e)
  | inr few ↦ elim (Option-cases (check_entries (values vs))) [
    | inl f ↦ cc (rw (few, f, read_groups) at e)
    | inr (hs, f) ↦
        let (same, good) = check_entries_sound vs hs f in
        let whole : hs ≡ gs = cc (rw (few, f, read_groups) at e) in
        rw (← whole) (
          listed (ap (λ ws. some (arr ws)) same)
            (omega (arith, length-texts hs, ap (λ ws. length (values ws)) same, ltb-false _ _ few))
            good)
  ]
]
read_groups-Reads null gs e = cc
read_groups-Reads (bool b) gs e = cc
read_groups-Reads (num n) gs e = cc
read_groups-Reads (str s) gs e = cc
read_groups-Reads (obj fs) gs e = cc

read_groups-texts :
    (gs : List Text)
    → length gs ≤ max_groups
    → All IsGroup gs
    → read_groups (arr (texts gs)) ≡ ok gs
unfolding read_groups
read_groups-texts gs few good = rw (length-texts gs, check_entries_complete gs good) (ground arith)

-- The claim is accepted exactly when it reads as a list of groups, and gives that list whole.
pub groups_from_claims_iff :
    (claims : Object) (gs : List Text)
    → (groups_from_claims claims ≡ ok gs) ↔ Reads (own claims (text "groups")) gs
unfolding groups_from_claims
groups_from_claims_iff claims gs = (forth, back)
  where
    forth : groups_from_claims claims ≡ ok gs → Reads (own claims (text "groups")) gs
    forth e = elim (Option-cases (own claims (text "groups"))) [
      | inl f ↦ absent f (cc (rw (f, groups_from_claims) at e))
      | inr (raw, f) ↦ rw f (read_groups-Reads raw gs (rw (f, groups_from_claims) at e))
    ]

    back : Reads (own claims (text "groups")) gs → groups_from_claims claims ≡ ok gs
    back (absent f e) = rw (f, groups_from_claims) (ap ok (sym e))
    back (unset f e) = rw (f, groups_from_claims) (ap ok (sym e))
    back (listed f few good) = rw (f, groups_from_claims) (read_groups-texts gs few good)
