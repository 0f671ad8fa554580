-- ===== src/Shared/Permissions/Overrides.antt =====
-- What the order of a blob's group overrides matters, and what an access value can do to the others.
use constellation_mcp.Prelude.{
  ◌≡◌, refl, inl, inr, true, List, [], ◌∷◌, Memᴰ, Option, none, some, Bool-cases, Option-cases,
  All-mem, All-of_mem,
}
use constellation_mcp.Prelude.Text.{Text}
use constellation_mcp.Shared.Permissions.{
  PermissionOverride, for_group, PermissionBlob, PermissionSubject, access, no_access, rank, Rank,
  number, inherited, outranks, better, known_access, names_group, best_group, by_sub, listed,
  resolve_access, evaluate_permission_blob,
}
use constellation_mcp.Shared.Permissions.Best.{ArePlain, level, IsBest, known_access-rank}
use constellation_mcp.Shared.Permissions.Access.{
  NoneFor, Grants, by_user, by_group, by_default, evaluate_iff, FirstFor-NoneFor, by_sub-FirstFor,
}

-- Two lists have the same overrides, in any order and any number.
abbrev pub SameOverrides : List PermissionOverride → List PermissionOverride → Type 0
SameOverrides os ps =
    ((o : PermissionOverride) → Memᴰ o os → Memᴰ o ps)
    × ((o : PermissionOverride) → Memᴰ o ps → Memᴰ o os)

IsBest-same :
    {groups : List Text} {os ps : List PermissionOverride} {a : Text}
    → SameOverrides os ps
    → IsBest groups os a
    → IsBest groups ps a
IsBest-same h b = record {
  from = let (o, m, k, e) = b.from in (o, h.0 o m, k, e);
  highest = λ o m k. b.highest o (h.1 o m) k;
}

Grants-same :
    (blob : PermissionBlob) (subject : PermissionSubject) (ps : List PermissionOverride) {l : Text}
    → NoneFor subject.sub (listed blob.overrides)
    → SameOverrides (listed blob.overrides) ps
    → Grants blob subject l
    → Grants (record blob { overrides = some ps }) subject l
Grants-same blob subject ps none_for h (by_user s a e n f p) = FirstFor-NoneFor e n f none_for
Grants-same blob subject ps none_for h (by_group a _ best p) =
    by_group a (λ s e n b m. none_for s e n b (h.1 _ m)) (IsBest-same h best) p
Grants-same blob subject ps none_for h (by_default _ misses p) =
    by_default (λ s e n b m. none_for s e n b (h.1 _ m))
      (All-of_mem _ ps (λ o m. All-mem _ _ misses (h.1 o m))) p

-- If no override names the user, and no matching group override has the name of a property of
-- every object for its access, then neither the order nor a repetition of overrides matters.
pub evaluate_same :
    (blob : PermissionBlob) (subject : PermissionSubject) (ps : List PermissionOverride)
    → ArePlain subject.groups (listed blob.overrides)
    → NoneFor subject.sub (listed blob.overrides)
    → SameOverrides (listed blob.overrides) ps
    → evaluate_permission_blob (record blob { overrides = some ps }) subject
      ≡ evaluate_permission_blob blob subject
evaluate_same blob subject ps plain none_for h =
    (evaluate_iff (record blob { overrides = some ps }) subject
        (All-of_mem _ ps (λ o m. All-mem _ _ plain (h.1 o m))) _).1
      (Grants-same blob subject ps none_for h ((evaluate_iff blob subject plain _).0 refl))

abbrev pub IsInherited : Rank → Type 0
IsInherited (number n) = ⊥
IsInherited (inherited s) = Unit

outranks-IsInherited : (q r : Rank) → IsInherited r → outranks q r ≡ true → IsInherited q
unfolding outranks
outranks-IsInherited (number a) (number b) h e = h
outranks-IsInherited (inherited s) r h e = tt
outranks-IsInherited (number a) (inherited t) h e = cc

better-IsInherited : (b a : Text) → IsInherited (rank b) → IsInherited (rank (better (some b) a))
unfolding better
better-IsInherited b a h = elim (Bool-cases (outranks (rank a) (rank b))) [
  | inl e ↦ rw e (outranks-IsInherited (rank a) (rank b) h e)
  | inr e ↦ rw e h
]

best_group-IsInherited :
    (groups : List Text) (b : Text) (os : List PermissionOverride)
    → IsInherited (rank b)
    → (c : Text) × (best_group groups (some b) os ≡ some c) × IsInherited (rank c)
unfolding best_group
best_group-IsInherited groups b [] h = (b, refl, h)
best_group-IsInherited groups b (o ∷ os) h = elim (Bool-cases (names_group groups o)) [
  | inl hit ↦ rw hit (
      best_group-IsInherited groups (better (some b) (access o)) os
        (better-IsInherited b (access o) h))
  | inr miss ↦ rw miss (best_group-IsInherited groups b os h)
]

by_sub-none :
    (sub : Option Text) (os : List PermissionOverride) → NoneFor sub os → by_sub sub os ≡ none
by_sub-none sub os none_for = elim (Option-cases (by_sub sub os)) [
  | inl e ↦ e
  | inr (o, e) ↦
      let (s, named, n, first) = by_sub-FirstFor sub os o e in
      FirstFor-NoneFor named n first none_for
]

level-inherited : (r : Rank) → IsInherited r → level r ≡ 0
level-inherited (number n) h = absurd h
level-inherited (inherited s) h = refl

known_access-inherited : (a : Text) → IsInherited (rank a) → known_access a ≡ no_access
known_access-inherited a h = rw (known_access-rank a) (rw (level-inherited (rank a) h))

-- If no override names the user and the first override is one for a group of the user's, with the
-- name of a property of every object for its access, then the user gets nothing, whatever the
-- overrides after it grant.
pub evaluate_inherited :
    (blob : PermissionBlob) (subject : PermissionSubject) (g a : Text)
    (os : List PermissionOverride)
    → NoneFor subject.sub (listed blob.overrides)
    → blob.overrides ≡ some (for_group g a ∷ os)
    → names_group subject.groups (for_group g a) ≡ true
    → IsInherited (rank a)
    → evaluate_permission_blob blob subject ≡ no_access
unfolding evaluate_permission_blob resolve_access best_group better
evaluate_inherited blob subject g a os none_for e hit h =
    let (c, best, k) = best_group-IsInherited subject.groups a os h in
    let ends : best_group subject.groups none (listed blob.overrides) ≡ some c =
      rw e (rw (hit, best_group) best) in
    let found = by_sub-none subject.sub (listed blob.overrides) none_for in
    let resolved : resolve_access blob subject ≡ c = rw (found, ends, resolve_access) in
    rw resolved (known_access-inherited c k)
