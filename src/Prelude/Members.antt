-- ===== src/Prelude/Members.antt =====
-- What stands in a list that was built from others.
use mathlib.Core.Path.{◌≡◌, refl, sym, ap, subst}
use mathlib.Core.Logic.{◌⊎◌, inl, inr}
use mathlib.Core.Bool.{Bool}
use mathlib.Core.List.{List, [], ◌∷◌, ◌++◌, map, Memᴰ}
use constellation_mcp.Prelude.Tests.{Bool-cases}
use constellation_mcp.Prelude.Lists.{remove_first}

module _ {ℓ} {A : Type ℓ} where
  pub mem-append : (xs ys : List A) {a : A} → Memᴰ a (xs ++ ys) → Memᴰ a xs ⊎ Memᴰ a ys
  mem-append [] ys m = inr m
  mem-append (x ∷ xs) ys (Memᴰ.head e) = inl (Memᴰ.head e)
  mem-append (x ∷ xs) ys (Memᴰ.tail m) = elim (mem-append xs ys m) [
    | inl n ↦ inl (Memᴰ.tail n)
    | inr n ↦ inr n
  ]

  pub mem-append_left : (xs ys : List A) {a : A} → Memᴰ a xs → Memᴰ a (xs ++ ys)
  mem-append_left [] ys m = elim m [ ]
  mem-append_left (x ∷ xs) ys (Memᴰ.head e) = Memᴰ.head e
  mem-append_left (x ∷ xs) ys (Memᴰ.tail m) = Memᴰ.tail (mem-append_left xs ys m)

  pub mem-append_right : (xs ys : List A) {a : A} → Memᴰ a ys → Memᴰ a (xs ++ ys)
  mem-append_right [] ys m = m
  mem-append_right (x ∷ xs) ys m = Memᴰ.tail (mem-append_right xs ys m)

  pub mem-last : (xs : List A) (a : A) → Memᴰ a (xs ++ a ∷ [])
  mem-last [] a = Memᴰ.head refl
  mem-last (x ∷ xs) a = Memᴰ.tail (mem-last xs a)

  mem-cons :
      (x : A) {xs ys : List A} {a : A} → (Memᴰ a xs → Memᴰ a ys) → Memᴰ a (x ∷ xs) → Memᴰ a (x ∷ ys)
  mem-cons x f (Memᴰ.head e) = Memᴰ.head e
  mem-cons x f (Memᴰ.tail m) = Memᴰ.tail (f m)

  pub mem-remove_first :
      (p : A → Bool) (xs : List A) {a : A} → Memᴰ a (remove_first p xs) → Memᴰ a xs
  mem-remove_first p [] m = m
  mem-remove_first p (x ∷ xs) m = elim (Bool-cases (p x)) [
    | inl e ↦ Memᴰ.tail (rw e at m)
    | inr e ↦ mem-cons x (mem-remove_first p xs) (rw e at m)
  ]

pub mem-map {ℓ κ} :
    {A : Type ℓ} {B : Type κ} (f : A → B) (xs : List A) {b : B}
    → Memᴰ b (map f xs)
    → (a : A) × Memᴰ a xs × (b ≡ f a)
mem-map f [] m = elim m [ ]
mem-map f (x ∷ xs) (Memᴰ.head e) = (x, Memᴰ.head refl, e)
mem-map f (x ∷ xs) (Memᴰ.tail m) = let (a, n, e) = mem-map f xs m in (a, Memᴰ.tail n, e)

-- A property of all that stand in a list, with one more at its end.
pub every-append {ℓ κ} :
    {A : Type ℓ} (P : A → Type κ) (xs : List A) (x : A)
    → ((a : A) → Memᴰ a xs → P a)
    → P x
    → (a : A) → Memᴰ a (xs ++ x ∷ [])
    → P a
every-append P xs x h k a m = elim (mem-append xs (x ∷ []) m) [
  | inl n ↦ h a n
  | inr (Memᴰ.head e) ↦ subst P (sym e) k
  | inr (Memᴰ.tail n) ↦ elim n [ ]
]

pub mem-of_map {ℓ κ} :
    {A : Type ℓ} {B : Type κ} (f : A → B) (xs : List A) {a : A} → Memᴰ a xs → Memᴰ (f a) (map f xs)
mem-of_map f [] m = elim m [ ]
mem-of_map f (x ∷ xs) (Memᴰ.head e) = Memᴰ.head (ap f e)
mem-of_map f (x ∷ xs) (Memᴰ.tail m) = Memᴰ.tail (mem-of_map f xs m)
