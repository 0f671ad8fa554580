-- ===== src/Prelude/Tally.antt =====
-- How often a number stands for an element of a list.
use Prim.Native.Nat.{ℕ, ◌+◌}
use mathlib.Core.Path.{◌≡◌, refl, sym, ap, ◌∙◌}
use mathlib.Core.Bool.{Bool, true, not}
use mathlib.Core.Logic.{inl, inr}
use mathlib.Core.List.{List, [], ◌∷◌, ◌++◌, map, Memᴰ}
use mathlib.Core.Option.{some}
use native.Mathlib.Omega.{arith}
use constellation_mcp.Prelude.Tests.{◌==◌, if◌then◌else◌, Bool-cases}
use constellation_mcp.Prelude.Lists.{keep, remove_first, find}

module _ {ℓ} {A : Type ℓ} where
  unfoldable pub tally : (A → ℕ) → ℕ → List A → ℕ
  tally f i [] = 0
  tally f i (x ∷ xs) = (if f x == i then 1 else 0) + tally f i xs

  pub tally-append :
      (f : A → ℕ) (i : ℕ) (xs ys : List A) → tally f i (xs ++ ys) ≡ tally f i xs + tally f i ys
  unfolding tally
  tally-append f i [] ys = omega arith
  tally-append f i (x ∷ xs) ys = omega (arith, tally-append f i xs ys)

  pub tally-keep :
      (f : A → ℕ) (i : ℕ) (p : A → Bool) (xs : List A)
      → tally f i (keep p xs) + tally f i (keep (λ x. not (p x)) xs) ≡ tally f i xs
  unfolding tally
  tally-keep f i p [] = refl
  tally-keep f i p (x ∷ xs) = elim (Bool-cases (p x)) [
    | inl e ↦ rw e (omega (arith, tally-keep f i p xs))
    | inr e ↦ rw e (omega (arith, tally-keep f i p xs))
  ]

  pub tally-remove_first :
      (f : A → ℕ) (i : ℕ) (xs : List A) {e : A}
      → Memᴰ e xs
      → tally f i (remove_first (λ x. f x == f e) xs) + (if f e == i then 1 else 0) ≡ tally f i xs
  unfolding tally
  tally-remove_first f i [] m = elim m [ ]
  tally-remove_first f i (x ∷ xs) {e} (Memᴰ.head h) = ground (arith, ap f h)
  tally-remove_first f i (x ∷ xs) {e} (Memᴰ.tail m) = ground (arith, tally-remove_first f i xs m)

  pub find-Mem : (p : A → Bool) (xs : List A) {e : A} → find p xs ≡ some e → Memᴰ e xs
  find-Mem p [] h = cc h
  find-Mem p (x ∷ xs) h = elim (Bool-cases (p x)) [
    | inl e ↦ Memᴰ.head (cc (rw e at h))
    | inr e ↦ Memᴰ.tail (find-Mem p xs (rw e at h))
  ]

  pub find-holds : (p : A → Bool) (xs : List A) {e : A} → find p xs ≡ some e → p e ≡ true
  find-holds p [] h = cc h
  find-holds p (x ∷ xs) {e} h = elim (Bool-cases (p x)) [
    | inl k ↦ let same : x ≡ e = cc (rw k at h) in ap p (sym same) ∙ k
    | inr k ↦ find-holds p xs (rw k at h)
  ]

pub tally-map {ℓ κ} :
    {A : Type ℓ} {B : Type κ} (g : A → B) (f : B → ℕ) (i : ℕ) (xs : List A)
    → tally f i (map g xs) ≡ tally (λ x. f (g x)) i xs
unfolding tally
tally-map g f i [] = refl
tally-map g f i (x ∷ xs) = omega (arith, tally-map g f i xs)
