-- ===== src/Shared/Permissions/Access.antt =====
-- The access level that a blob gives a user, against the rules that the source states.
use constellation_mcp.Prelude.{
  ◌≡◌, refl, sym, ◌∙◌, ap, ◌⊎◌, inl, inr, ◌≢◌, ◌↔◌, true, false, List, [], ◌∷◌, Memᴰ, Option, none,
  some, arith, Bool-cases, Option-cases, All, All-mem, find, subst,
}
use constellation_mcp.Prelude.Text.{Text, eq_text→eq, eq_text_refl}
use constellation_mcp.Shared.Permissions.{
  PermissionOverride, for_sub, for_group, PermissionBlob, PermissionSubject, access, no_access,
  read_only, read_write, known_access, names_sub, names_group, by_sub, listed, or_none,
  resolve_access, evaluate_permission_blob,
}
use constellation_mcp.Shared.Permissions.Best.{ArePlain, IsBest, best_group-cases, IsBest-unique}

-- The first override that names the user `s` gives access `a`.
pub data FirstFor (s a : Text) : List PermissionOverride → Type 0 where
  here :
      {o : PermissionOverride} {os : List PermissionOverride}
      → o ≡ for_sub s a
      → FirstFor s a (o ∷ os)
  there :
      {o : PermissionOverride} {os : List PermissionOverride}
      → ((b : Text) → o ≢ for_sub s b)
      → FirstFor s a os
      → FirstFor s a (o ∷ os)

-- No override names the user.
abbrev pub NoneFor : Option Text → List PermissionOverride → Type 0
NoneFor sub os = (s : Text) → sub ≡ some s → s ≢ [] → (a : Text) → ¬ Memᴰ (for_sub s a) os

-- The rules: an override for the user, else the best one for a group, else the default.
pub data Grants (blob : PermissionBlob) (subject : PermissionSubject) (level : Text) : Type 0 where
  by_user :
      (s a : Text)
      → subject.sub ≡ some s
      → s ≢ []
      → FirstFor s a (listed blob.overrides)
      → level ≡ known_access a
      → Grants blob subject level
  by_group :
      (a : Text)
      → NoneFor subject.sub (listed blob.overrides)
      → IsBest subject.groups (listed blob.overrides) a
      → level ≡ known_access a
      → Grants blob subject level
  by_default :
      NoneFor subject.sub (listed blob.overrides)
      → All (λ o. names_group subject.groups o ≡ false) (listed blob.overrides)
      → level ≡ known_access (or_none blob.default)
      → Grants blob subject level

names_sub_other :
    (s : Text) (o : PermissionOverride) → names_sub s o ≡ false → (b : Text) → o ≢ for_sub s b
unfolding names_sub
names_sub_other s (for_sub t a) h b e = ground (arith, eq_text_refl s)
names_sub_other s (for_group g a) h b e = cc

names_sub_same :
    (s : Text) (o : PermissionOverride) → names_sub s o ≡ true → o ≡ for_sub s (access o)
unfolding names_sub
names_sub_same s (for_sub t a) h = rw (eq_text→eq t s h)
names_sub_same s (for_group g a) h = cc

find-FirstFor :
    (s : Text) (os : List PermissionOverride) (o : PermissionOverride)
    → find (names_sub s) os ≡ some o
    → FirstFor s (access o) os
find-FirstFor s [] o e = cc
find-FirstFor s (p ∷ os) o e = elim (Bool-cases (names_sub s p)) [
  | inl hit ↦
      let same : p ≡ o = ground arith in
      here (same ∙ names_sub_same s o (subst (λ q. names_sub s q ≡ true) same hit))
  | inr miss ↦ there (names_sub_other s p miss) (find-FirstFor s os o (ground arith))
]

find-none :
    (s : Text) (os : List PermissionOverride)
    → find (names_sub s) os ≡ none
    → (a : Text) → ¬ Memᴰ (for_sub s a) os
find-none s [] e a m = elim m [ ]
find-none s (p ∷ os) e a m = elim (Bool-cases (names_sub s p)) [
  | inl hit ↦ ground arith
  | inr miss ↦ elim m [
    | Memᴰ.head q ↦ names_sub_other s p miss a (sym q)
    | Memᴰ.tail n ↦ find-none s os (ground arith) a n
  ]
]

pub by_sub-FirstFor :
    (sub : Option Text) (os : List PermissionOverride) (o : PermissionOverride)
    → by_sub sub os ≡ some o
    → (s : Text) × (sub ≡ some s) × (s ≢ []) × FirstFor s (access o) os
unfolding by_sub
by_sub-FirstFor none os o e = cc
by_sub-FirstFor (some []) os o e = cc
by_sub-FirstFor (some (c ∷ s)) os o e = (c ∷ s, refl, (λ q. cc), find-FirstFor (c ∷ s) os o e)

by_sub-NoneFor :
    (sub : Option Text) (os : List PermissionOverride) → by_sub sub os ≡ none → NoneFor sub os
unfolding by_sub
by_sub-NoneFor none os e s q n a m = cc
by_sub-NoneFor (some []) os e s q n a m = n (ground arith)
by_sub-NoneFor (some (c ∷ t)) os e s q n a m = find-none s os (ground arith) a m

FirstFor-unique :
    {s a b : Text} {os : List PermissionOverride} → FirstFor s a os → FirstFor s b os → a ≡ b
FirstFor-unique (here e) (here f) = cc
FirstFor-unique {b = b} (here e) (there n g) = absurd (n _ e)
FirstFor-unique (there n f) (here e) = absurd (n _ e)
FirstFor-unique (there n f) (there m g) = FirstFor-unique f g

FirstFor-mem : {s a : Text} {os : List PermissionOverride} → FirstFor s a os → Memᴰ (for_sub s a) os
FirstFor-mem (here e) = Memᴰ.head (sym e)
FirstFor-mem (there n f) = Memᴰ.tail (FirstFor-mem f)

pub FirstFor-NoneFor {ℓ} :
    {R : Type ℓ} {s a : Text} {sub : Option Text} {os : List PermissionOverride}
    → sub ≡ some s
    → s ≢ []
    → FirstFor s a os
    → NoneFor sub os
    → R
FirstFor-NoneFor {s} {a} e n f none_for = absurd (none_for s e n a (FirstFor-mem f))

IsBest-none {ℓ} :
    {R : Type ℓ} {groups : List Text} {os : List PermissionOverride} {best : Text}
    → IsBest groups os best
    → All (λ o. names_group groups o ≡ false) os
    → R
IsBest-none {os} b h = let (o, m, k, e) = b.from in absurd (cc (All-mem _ os h m))

module _ (blob : PermissionBlob) (subject : PermissionSubject) where
  abbrev pub Plain : Type 0
  Plain = ArePlain subject.groups (listed blob.overrides)

  evaluate-Grants : Plain → Grants blob subject (evaluate_permission_blob blob subject)
  unfolding evaluate_permission_blob resolve_access
  evaluate-Grants plain = elim (Option-cases (by_sub subject.sub (listed blob.overrides))) [
    | inr (o, e) ↦
        let (s, named, n, first) = by_sub-FirstFor subject.sub (listed blob.overrides) o e in
        by_user s (access o) named n first (rw (e, resolve_access))
    | inl e ↦
        let none_for = by_sub-NoneFor subject.sub (listed blob.overrides) e in
        elim (best_group-cases subject.groups (listed blob.overrides) plain) [
          | inl (misses, f) ↦ by_default none_for misses (rw (e, f, resolve_access))
          | inr (best, f, b) ↦ by_group best none_for b (rw (e, f, resolve_access))
        ]
  ]

  Grants-unique : (l m : Text) → Grants blob subject l → Grants blob subject m → l ≡ m
  Grants-unique l m (by_user s a e n f p) (by_user t b e' n' f' q) =
      let same : s ≡ t = ground arith in
      p
      ∙ ap known_access
          (FirstFor-unique (subst (λ u. FirstFor u a (listed blob.overrides)) same f) f')
      ∙ sym q
  Grants-unique l m (by_user s a e n f p) (by_group b none_for best q) =
      FirstFor-NoneFor e n f none_for
  Grants-unique l m (by_user s a e n f p) (by_default none_for misses q) =
      FirstFor-NoneFor e n f none_for
  Grants-unique l m (by_group b none_for best q) (by_user s a e n f p) =
      FirstFor-NoneFor e n f none_for
  Grants-unique l m (by_group a _ best p) (by_group b _ best' q) =
      p ∙ IsBest-unique best best' ∙ sym q
  Grants-unique l m (by_group a _ best p) (by_default _ misses q) = IsBest-none best misses
  Grants-unique l m (by_default none_for misses q) (by_user s a e n f p) =
      FirstFor-NoneFor e n f none_for
  Grants-unique l m (by_default _ misses q) (by_group a _ best p) = IsBest-none best misses
  Grants-unique l m (by_default _ _ p) (by_default _ _ q) = p ∙ sym q

  -- If no matching group override has the name of a property of every object for its access, the
  -- blob gives the user a level exactly when the rules do.
  pub evaluate_iff :
      Plain → (l : Text) → (evaluate_permission_blob blob subject ≡ l) ↔ Grants blob subject l
  evaluate_iff plain l = (
    λ e. subst (Grants blob subject) e (evaluate-Grants plain),
    λ g. Grants-unique _ l (evaluate-Grants plain) g,
  )

  -- The result is one of the three levels, whatever the blob holds.
  pub evaluate_known :
      let l = evaluate_permission_blob blob subject in
      (l ≡ no_access) ⊎ (l ≡ read_only) ⊎ (l ≡ read_write)
  unfolding evaluate_permission_blob known_access
  evaluate_known =
      let a = resolve_access blob subject in
      ground (arith, eq_text→eq a no_access, eq_text→eq a read_only, eq_text→eq a read_write)
