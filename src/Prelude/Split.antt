-- ===== src/Prelude/Split.antt =====
-- What `split` gives of lines that were joined.
use Prim.Native.Nat.{ℕ}
use mathlib.Core.Path.{◌≡◌, refl, ap, ◌∙◌}
use mathlib.Core.Bool.{false}
use mathlib.Core.Logic.{inl, inr}
use mathlib.Core.List.{List, [], ◌∷◌, ◌++◌, append_assoc, append-nil}
use native.Mathlib.Omega.{arith}
use constellation_mcp.Prelude.Tests.{◌==◌, Bool-cases}
use constellation_mcp.Prelude.Lists.{any, All}
use constellation_mcp.Prelude.Text.{Text, join_with}
use constellation_mcp.Prelude.Strings.{split_from, split_on}

module _ (sep : ℕ) where
  -- The separator is not in the text.
  abbrev pub IsPiece : Text → Type 0
  IsPiece s = any (λ c. c == sep) s ≡ false

  pub append-IsPiece : (p l : Text) → IsPiece p → IsPiece l → IsPiece (p ++ l)
  append-IsPiece [] l hp hl = hl
  append-IsPiece (c ∷ p) l hp hl = ground (arith, append-IsPiece p l)

  split_from-append :
      (p l rest : Text)
      → IsPiece l
      → split_from sep p (l ++ (sep ∷ rest)) ≡ (p ++ l) ∷ split_from sep [] rest
  unfolding split_from
  split_from-append p [] rest h = rw (append-nil p) (ground arith)
  split_from-append p (c ∷ l) rest h = elim (Bool-cases (c == sep)) [
    | inl e ↦ ground arith
    | inr e ↦ rw e (
        split_from-append (p ++ c ∷ []) l rest (ground arith)
        ∙ ap (λ q. q ∷ split_from sep [] rest) (append_assoc p (c ∷ []) l))
  ]

  pub split_from-IsPiece : (p s : Text) → IsPiece p → All IsPiece (split_from sep p s)
  unfolding split_from
  split_from-IsPiece p [] h = (h, tt)
  split_from-IsPiece p (c ∷ s) h = elim (Bool-cases (c == sep)) [
    | inl e ↦ rw e (h, split_from-IsPiece [] s refl)
    | inr e ↦ rw e (split_from-IsPiece (p ++ c ∷ []) s (append-IsPiece p (c ∷ []) h (ground arith)))
  ]

  -- Lines that are joined, with a separator after the last.
  pub split_on-join :
      (l : Text) (ls : List Text)
      → All IsPiece (l ∷ ls)
      → split_on sep (join_with (sep ∷ []) (l ∷ ls) ++ sep ∷ []) ≡ (l ∷ ls) ++ [] ∷ []
  unfolding split_on join_with
  split_on-join l [] h = split_from-append [] l [] h.0 ∙ ap (λ r. l ∷ r) (unfold split_from in refl)
  split_on-join l (m ∷ ls) h =
      ap (split_from sep []) (append_assoc l (sep ∷ join_with (sep ∷ []) (m ∷ ls)) (sep ∷ []))
      ∙ split_from-append [] l _ h.0
      ∙ ap (λ r. l ∷ r) (split_on-join m ls h.1)
