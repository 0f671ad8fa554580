-- ===== src/Shared/Permissions/Best.antt =====
-- The best group override: what the loop over the overrides of a blob ends with.
use constellation_mcp.Prelude.{
  zero, suc, ℕ, ◌≤◌, ◌<◌, ◌≡◌, refl, sym, ◌∙◌, ◌⊎◌, inl, inr, true, false, ◌||◌, List, [], ◌∷◌,
  Memᴰ, Option, none, some, arith, subst, Bool-cases, All,
}
use constellation_mcp.Prelude.Text.{Text, eq_text, eq_text→eq}
use constellation_mcp.Shared.Permissions.{
  inherited_rank, inherited_names, PermissionOverride, access, Rank, number, inherited, rank,
  outranks, no_access, read_only, read_write, known_access, names_group, better, best_group,
}

-- A rank as a number; what compares with nothing counts as 0.
abbrev pub level : Rank → ℕ
level (number n) = n
level (inherited s) = 0

abbrev pub IsNumber : Rank → Type 0
IsNumber (number n) = Unit
IsNumber (inherited s) = ⊥

outranks-level : (r q : Rank) → IsNumber r → IsNumber q → outranks r q ≡ false → level r ≤ level q
unfolding outranks
outranks-level (number a) (number b) h k e = ground arith
outranks-level (number a) (inherited t) h k e = absurd k
outranks-level (inherited s) q h k e = absurd h

outranks-level_lt : (r q : Rank) → IsNumber r → IsNumber q → outranks r q ≡ true → level q < level r
unfolding outranks
outranks-level_lt (number a) (number b) h k e = ground arith
outranks-level_lt (number a) (inherited t) h k e = absurd k
outranks-level_lt (inherited s) q h k e = absurd h

abbrev pub Matching : List Text → PermissionOverride → Type 0
Matching groups o = names_group groups o ≡ true

-- Each of the three levels is ranked by a number.
pub rank-IsNumber :
    (a : Text)
    → eq_text a no_access || (eq_text a read_only || eq_text a read_write) ≡ true
    → IsNumber (rank a)
unfolding rank
rank-IsNumber a h = elim (Bool-cases (eq_text a no_access)) [
  | inl e ↦ rw e tt
  | inr e ↦ elim (Bool-cases (eq_text a read_only)) [
    | inl f ↦ rw (e, f) tt
    | inr f ↦ elim (Bool-cases (eq_text a read_write)) [
      | inl g ↦ rw (e, f, g) tt
      | inr g ↦ cc (rw (e, f, g) at h)
    ]
  ]
]

-- The access of every override that names one of the groups is ranked by a number.
abbrev pub ArePlain : List Text → List PermissionOverride → Type 0
ArePlain groups = All λ o. Matching groups o → IsNumber (rank (access o))

-- `best` is the access of a matching override, and no matching override ranks higher.
pub record IsBest (groups : List Text) (os : List PermissionOverride) (best : Text) : Type 0 where
  pub from : (o : PermissionOverride) × Memᴰ o os × Matching groups o × (access o ≡ best)
  pub highest :
      (o : PermissionOverride)
      → Memᴰ o os
      → Matching groups o
      → level (rank (access o)) ≤ level (rank best)

better_lem :
    (b a : Text)
    → IsNumber (rank b)
    → IsNumber (rank a)
    → IsNumber (rank (better (some b) a))
      × ((better (some b) a ≡ b) ⊎ (better (some b) a ≡ a))
      × (level (rank b) ≤ level (rank (better (some b) a)))
      × (level (rank a) ≤ level (rank (better (some b) a)))
unfolding better
better_lem b a p q = elim (Bool-cases (outranks (rank a) (rank b))) [
  | inl e ↦
      rw e (q, inr refl, omega (arith, outranks-level_lt (rank a) (rank b) q p e), omega arith)
  | inr e ↦ rw e (p, inl refl, omega arith, outranks-level (rank a) (rank b) q p e)
]

-- What the loop ends with when it has `b` and still has to see `os`.
record Ends (groups : List Text) (b : Text) (os : List PermissionOverride) (best : Text)
    : Type 0 where
  source :
      (b ≡ best) ⊎ ((o : PermissionOverride) × Memᴰ o os × Matching groups o × (access o ≡ best))
  above : level (rank b) ≤ level (rank best)
  highest :
      (o : PermissionOverride)
      → Memᴰ o os
      → Matching groups o
      → level (rank (access o)) ≤ level (rank best)

abbrev Reaches : List Text → Text → List PermissionOverride → Type 0
Reaches groups b os =
    (best : Text) × (best_group groups (some b) os ≡ some best) × Ends groups b os best

module _ (groups : List Text) (b : Text) (o : PermissionOverride)
    (os : List PermissionOverride) where
  passed : names_group groups o ≡ false → Reaches groups b os → Reaches groups b (o ∷ os)
  unfolding best_group
  passed miss (best, e, ends) = (
    best,
    rw (miss, best_group) e,
    record {
      source = elim ends.source [
        | inl same ↦ inl same
        | inr (p, m, k, q) ↦ inr (p, Memᴰ.tail m, k, q)
      ];
      above = ends.above;
      highest = λ p m k. elim m [ Memᴰ.head q ↦ cc | Memᴰ.tail n ↦ ends.highest p n k ];
    },
  )

  taken :
      names_group groups o ≡ true
      → ((better (some b) (access o) ≡ b) ⊎ (better (some b) (access o) ≡ access o))
      → level (rank b) ≤ level (rank (better (some b) (access o)))
      → level (rank (access o)) ≤ level (rank (better (some b) (access o)))
      → Reaches groups (better (some b) (access o)) os
      → Reaches groups b (o ∷ os)
  unfolding best_group
  taken hit which le_b le_o (best, e, ends) = (
    best,
    rw (hit, best_group) e,
    record {
      source = elim ends.source [
        | inl same ↦ elim which [
          | inl q ↦ inl (sym q ∙ same)
          | inr q ↦ inr (o, Memᴰ.head refl, hit, sym q ∙ same)
        ]
        | inr (p, m, k, q) ↦ inr (p, Memᴰ.tail m, k, q)
      ];
      above = omega (arith, ends.above);
      highest = λ p m k. elim m [
        | Memᴰ.head q ↦ rw q (omega (arith, ends.above))
        | Memᴰ.tail n ↦ ends.highest p n k
      ];
    },
  )

reaches :
    (groups : List Text) (b : Text) (os : List PermissionOverride)
    → IsNumber (rank b)
    → ArePlain groups os
    → Reaches groups b os
unfolding best_group
reaches groups b [] h plain =
    (b, refl, record { source = inl refl; above = omega arith; highest = λ p m k. elim m [ ] })
reaches groups b (o ∷ os) h plain = elim (Bool-cases (names_group groups o)) [
  | inr miss ↦ passed groups b o os miss (reaches groups b os h plain.1)
  | inl hit ↦
      let (num, which, le_b, le_o) = better_lem b (access o) h (plain.0 hit) in
      taken groups b o os hit which le_b le_o
        (reaches groups (better (some b) (access o)) os num plain.1)
]

-- Without a matching override the loop ends as it began.
pub best_group-none :
    (groups : List Text) (os : List PermissionOverride) (start : Option Text)
    → All (λ o. names_group groups o ≡ false) os
    → best_group groups start os ≡ start
unfolding best_group
best_group-none groups [] start h = refl
best_group-none groups (o ∷ os) start h = rw h.0 (best_group-none groups os start h.1)

IsBest-tail :
    {groups : List Text} {o : PermissionOverride} {os : List PermissionOverride} {best : Text}
    → names_group groups o ≡ false
    → IsBest groups os best
    → IsBest groups (o ∷ os) best
IsBest-tail miss b = record {
  from = let (p, m, k, q) = b.from in (p, Memᴰ.tail m, k, q);
  highest = λ p m k. elim m [ Memᴰ.head q ↦ cc | Memᴰ.tail n ↦ b.highest p n k ];
}

IsBest-head :
    {groups : List Text} {o : PermissionOverride} {os : List PermissionOverride} {best : Text}
    → names_group groups o ≡ true
    → Ends groups (access o) os best
    → IsBest groups (o ∷ os) best
IsBest-head {o} hit ends = record {
  from = elim ends.source [
    | inl same ↦ (o, Memᴰ.head refl, hit, same)
    | inr (p, m, k, q) ↦ (p, Memᴰ.tail m, k, q)
  ];
  highest = λ p m k. elim m [ Memᴰ.head q ↦ rw q ends.above | Memᴰ.tail n ↦ ends.highest p n k ];
}

-- Either no override names one of the groups, or the loop ends with the best access of those.
pub best_group-cases :
    (groups : List Text) (os : List PermissionOverride)
    → ArePlain groups os
    → (All (λ o. names_group groups o ≡ false) os × (best_group groups none os ≡ none))
      ⊎ ((best : Text) × (best_group groups none os ≡ some best) × IsBest groups os best)
unfolding best_group better
best_group-cases groups [] plain = inl (tt, refl)
best_group-cases groups (o ∷ os) plain = elim (Bool-cases (names_group groups o)) [
  | inl hit ↦
      let (best, e, ends) = reaches groups (access o) os (plain.0 hit) plain.1 in
      inr (best, rw (hit, best_group) e, IsBest-head hit ends)
  | inr miss ↦ elim (best_group-cases groups os plain.1) [
    | inl (misses, e) ↦ inl ((miss, misses), rw (miss, best_group) e)
    | inr (best, e, b) ↦ inr (best, rw (miss, best_group) e, IsBest-tail miss b)
  ]
]

-- The access level of a rank.
abbrev pub name_of : ℕ → Text
name_of zero = no_access
name_of (suc zero) = read_only
name_of (suc (suc n)) = read_write

inherited_rank-level : (l : List (Text × Text)) (a : Text) → level (inherited_rank l a) ≡ 0
unfolding inherited_rank
inherited_rank-level [] a = refl
inherited_rank-level ((name, shown) ∷ l) a = ground (arith, inherited_rank-level l a)

pub known_access-rank : (a : Text) → known_access a ≡ name_of (level (rank a))
unfolding known_access rank
known_access-rank a = elim (Bool-cases (eq_text a no_access)) [
  | inl e ↦ rw (e, known_access, rank) (eq_text→eq a no_access e)
  | inr e ↦ elim (Bool-cases (eq_text a read_only)) [
    | inl f ↦ rw (e, f, known_access, rank) (eq_text→eq a read_only f)
    | inr f ↦ elim (Bool-cases (eq_text a read_write)) [
      | inl g ↦ rw (e, f, g, known_access, rank) (eq_text→eq a read_write g)
      | inr g ↦ rw (e, f, g, known_access, rank) (rw (inherited_rank-level inherited_names a))
    ]
  ]
]

IsBest-le :
    {groups : List Text} {os : List PermissionOverride} {a b : Text}
    → IsBest groups os a
    → IsBest groups os b
    → level (rank a) ≤ level (rank b)
IsBest-le {b} p q =
    let (o, m, k, e) = p.from in subst (λ c. level (rank c) ≤ level (rank b)) e (q.highest o m k)

-- The best access is unique as a level.
pub IsBest-unique :
    {groups : List Text} {os : List PermissionOverride} {a b : Text}
    → IsBest groups os a
    → IsBest groups os b
    → known_access a ≡ known_access b
IsBest-unique {a} {b} p q =
    let same : level (rank a) ≡ level (rank b) = omega (arith, IsBest-le p q, IsBest-le q p) in
    rw (known_access-rank a, known_access-rank b, same)
