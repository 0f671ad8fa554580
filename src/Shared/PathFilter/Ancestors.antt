-- ===== src/Shared/PathFilter/Ancestors.antt =====
-- The loop over a path and its ancestors visits each of them.
use mathlib.Core.List.{append_assoc}
use constellation_mcp.Prelude.{
  ℕ, zero, suc, ◌<◌, ◌≡◌, refl, sym, ap, ◌∙◌, ◌⊎◌, inl, inr, ◌≢◌, [], ◌∷◌, ◌++◌, none, some, arith,
  Option-cases, length, take, subst, length-append,
}
use constellation_mcp.Prelude.Text.{Text}
use constellation_mcp.Shared.PathFilter.{last_slash, parent}

-- `path` is `q`, a slash and something more.
abbrev pub IsUnder : Text → Text → Type 0
IsUnder q path = (rest : Text) × (path ≡ q ++ b'/' ∷ rest)

abbrev pub NoSlash : Text → Type 0
NoSlash [] = Unit
NoSlash (c ∷ s) = (c ≢ b'/') × NoSlash s

pub last_slash-none : (p : Text) → last_slash p ≡ none → NoSlash p
unfolding last_slash
last_slash-none [] e = tt
last_slash-none (c ∷ s) e = ground (arith, last_slash-none s)

pub last_slash-some :
    (p : Text) (i : ℕ)
    → last_slash p ≡ some i
    → (b : Text) × (p ≡ take i p ++ b'/' ∷ b) × NoSlash b × (length (take i p) ≡ i)
unfolding last_slash
last_slash-some [] i e = cc
last_slash-some (c ∷ s) i e = elim (Option-cases (last_slash s)) [
  | inr (j, f) ↦
      let at : suc j ≡ i = ground arith in
      let (b, split, n, l) = last_slash-some s j f in
      rw (← at) (b, ap (◌∷◌ c) split, n, omega arith)
  | inl f ↦
      let slash : c ≡ b'/' = ground arith in
      let at : 0 ≡ i = ground arith in
      rw (← at) (s, ap (λ d. d ∷ s) slash, last_slash-none s f, refl)
]

pub NoSlash-not-IsUnder : (q s : Text) → NoSlash s → ¬ IsUnder q s
NoSlash-not-IsUnder [] [] h (r, e) = cc
NoSlash-not-IsUnder [] (c ∷ s) h (r, e) = h.0 (ground arith)
NoSlash-not-IsUnder (d ∷ q) [] h (r, e) = cc
NoSlash-not-IsUnder (d ∷ q) (c ∷ s) h (r, e) = NoSlash-not-IsUnder q s h.1 (r, ground arith)

-- Where a path has a slash, either it is the last one or it lies before that.
pub IsUnder-cases : (a b q : Text) → NoSlash b → IsUnder q (a ++ b'/' ∷ b) → (q ≡ a) ⊎ IsUnder q a
IsUnder-cases [] b [] h u = inl refl
IsUnder-cases [] b (d ∷ q) h (r, e) = absurd (NoSlash-not-IsUnder q b h (r, ground arith))
IsUnder-cases (c ∷ a) b [] h (r, e) = inr (a, ground arith)
IsUnder-cases (c ∷ a) b (d ∷ q) h (r, e) = elim (IsUnder-cases a b q h (r, ground arith)) [
  | inl f ↦ inl (ground arith)
  | inr (r', f) ↦ inr (r', ground arith)
]

-- The path or one of its ancestors; the root is none.
abbrev pub IsWithin : Text → Text → Type 0
IsWithin q path = (q ≡ path) ⊎ (IsUnder q path × (q ≢ []))

length-slash : (q b : Text) → length q < length (q ++ b'/' ∷ b)
length-slash q b = rw (length-append q (b'/' ∷ b)) (omega arith)

pub parent-none : (p q : Text) → parent p ≡ none → IsWithin q p → q ≡ p
unfolding parent
parent-none p q e (inl same) = same
parent-none p q e (inr (u, n)) = elim (Option-cases (last_slash p)) [
  | inl f ↦ absurd (NoSlash-not-IsUnder q p (last_slash-none p f) u)
  | inr (suc i, f) ↦ cc (rw (f, parent) at e)
  | inr (zero, f) ↦
      let (b, split, plain, _) = last_slash-some p 0 f in
      elim (IsUnder-cases [] b q plain (subst (IsUnder q) split u)) [
        | inl empty ↦ absurd (n empty)
        | inr before ↦ absurd (NoSlash-not-IsUnder q [] tt before)
      ]
]

-- What the next round's path is.
pub record IsParent (q p : Text) : Type 0 where
  pub under : IsUnder q p
  pub not_root : q ≢ []
  pub shorter : length q < length p
  pub next : (x : Text) → IsWithin x p → (x ≡ p) ⊎ IsWithin x q

IsWithin-next :
    (q b x : Text) {p : Text}
    → NoSlash b
    → IsWithin x (q ++ b'/' ∷ b)
    → q ++ b'/' ∷ b ≡ p
    → (x ≡ p) ⊎ IsWithin x q
IsWithin-next q b x plain (inl same) whole = inl (same ∙ whole)
IsWithin-next q b x plain (inr (u, n)) whole = elim (IsUnder-cases q b x plain u) [
  | inl same ↦ inr (inl same)
  | inr before ↦ inr (inr (before, n))
]

pub parent-some : (p q : Text) → parent p ≡ some q → IsParent q p
unfolding parent
parent-some p q e = elim (Option-cases (last_slash p)) [
  | inl f ↦ cc (rw (f, parent) at e)
  | inr (zero, f) ↦ cc (rw (f, parent) at e)
  | inr (suc i, f) ↦
      let (b, split, plain, len) = last_slash-some p (suc i) f in
      let same : take (suc i) p ≡ q = cc (rw (f, parent) at e) in
      let whole : p ≡ q ++ b'/' ∷ b = split ∙ ap (λ a. a ++ b'/' ∷ b) same in
      record {
        under = (b, whole);
        not_root = λ empty. ground (arith, ap length (same ∙ empty), len);
        shorter = rw whole (length-slash q b);
        next = λ x w. IsWithin-next q b x plain (subst (IsWithin x) whole w) (sym whole);
      }
]

-- An ancestor's ancestor is an ancestor.
pub IsWithin-under : (x q p : Text) → q ≢ [] → IsUnder q p → IsWithin x q → IsWithin x p
IsWithin-under x q p n u (inl same) = rw same (inr (u, n))
IsWithin-under x q p n (r, e) (inr ((r', f), m)) =
    inr ((r' ++ b'/' ∷ r, e ∙ ap (λ a. a ++ b'/' ∷ r) f ∙ append_assoc x (b'/' ∷ r') (b'/' ∷ r)), m)
