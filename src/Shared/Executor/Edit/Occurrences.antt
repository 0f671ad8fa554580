-- ===== src/Shared/Executor/Edit/Occurrences.antt =====
-- packages/shared/src/executor/tools/fs-edit.ts: where a text occurs, and how often.
use constellation_mcp.Prelude.{
  ◌≡◌, ◌≢◌, ◌↔◌, refl, sym, ap, ◌∙◌, inl, inr, ◌≤◌, ◌<◌, ℕ, zero, suc, [], ◌∷◌, ◌++◌, none, some,
  arith, Option-cases, length, length-append, subst,
}
use mathlib.Core.Option.{some-injective}
use constellation_mcp.Prelude.Text.{Text}
use constellation_mcp.Shared.Executor.Edit.{strip_prefix, cut, count_from, count_occurrences}

strip_prefix-append : (p r : Text) → strip_prefix p (p ++ r) ≡ some r
unfolding strip_prefix
strip_prefix-append [] r = refl
strip_prefix-append (c ∷ p) r = ground (arith, strip_prefix-append p r)

strip_prefix-some : (p s r : Text) → strip_prefix p s ≡ some r → s ≡ p ++ r
unfolding strip_prefix
strip_prefix-some [] s r e = some-injective s r e
strip_prefix-some (c ∷ p) [] r e = cc e
strip_prefix-some (c ∷ p) (d ∷ s) r e = ground (arith, strip_prefix-some p s r)

-- The needle stands nowhere in the text.
abbrev pub Absent : Text → Text → Type 0
Absent needle s = (a b : Text) → s ≢ a ++ (needle ++ b)

-- No occurrence starts before the one that `pre` is before.
abbrev pub IsFirst : Text → Text → Text → Type 0
IsFirst needle pre post =
    (a b : Text) → pre ++ (needle ++ post) ≡ a ++ (needle ++ b) → length pre ≤ length a

cut-here : (n s r : Text) → strip_prefix n s ≡ some r → cut n s ≡ some ([], r)
unfolding cut
cut-here n [] r e = rw (cut, e) refl
cut-here n (c ∷ s) r e = rw (cut, e) refl

pub cut-at :
    (n pre post : Text) → IsFirst n pre post → cut n (pre ++ (n ++ post)) ≡ some (pre, post)
unfolding cut
cut-at n [] post first = cut-here n (n ++ post) post (strip_prefix-append n post)
cut-at n (c ∷ pre) post first = elim (Option-cases (strip_prefix n (c ∷ (pre ++ (n ++ post))))) [
  | inl f ↦
      rw (cut, f, cut-at n pre post λ a b e. let h = first (c ∷ a) b (ap (c ∷◌) e) in omega arith)
        refl
  | inr (r, f) ↦
      let h = first [] r (strip_prefix-some n (c ∷ (pre ++ (n ++ post))) r f) in
      absurd (omega arith)
]

cut-Absent : (n s : Text) → Absent n s → cut n s ≡ none
unfolding cut
cut-Absent n [] far = elim (Option-cases (strip_prefix n [])) [
  | inl f ↦ rw (cut, f) refl
  | inr (r, f) ↦ absurd (far [] r (strip_prefix-some n [] r f))
]
cut-Absent n (c ∷ s) far = elim (Option-cases (strip_prefix n (c ∷ s))) [
  | inl f ↦ rw (cut, f, cut-Absent n s λ a b e. far (c ∷ a) b (ap (c ∷◌) e)) refl
  | inr (r, f) ↦ absurd (far [] r (strip_prefix-some n (c ∷ s) r f))
]

cut-here→ :
    (n s pre post : Text)
    → strip_prefix n s ≡ some post
    → [] ≡ pre
    → (s ≡ pre ++ (n ++ post)) × IsFirst n pre post
cut-here→ n s pre post f e = rw (← e) (strip_prefix-some n s post f, λ a b k. omega arith)

cut-later :
    (n s pre post : Text) (c : ℕ)
    → strip_prefix n (c ∷ s) ≡ none
    → s ≡ pre ++ (n ++ post)
    → IsFirst n pre post
    → (c ∷ s ≡ (c ∷ pre) ++ (n ++ post)) × IsFirst n (c ∷ pre) post
cut-later n s pre post c f whole first = (ap (c ∷◌) whole, next)
  where
    next : IsFirst n (c ∷ pre) post
    next [] b k = cc (f, strip_prefix-append n b, ap (strip_prefix n) (ap (c ∷◌) whole ∙ k))
    next (d ∷ a) b k = let h : length pre ≤ length a = first a b (cc k) in omega arith

cut-some :
    (n s pre post : Text)
    → cut n s ≡ some (pre, post)
    → (s ≡ pre ++ (n ++ post)) × IsFirst n pre post
unfolding cut
cut-some n [] pre post e = elim (Option-cases (strip_prefix n [])) [
  | inl f ↦ cc (rw (cut, f) at e)
  | inr (r, f) ↦
      let k : ([], r) ≡ (pre, post) = some-injective ([], r) (pre, post) (rw (cut, f) at e) in
      cut-here→ n [] pre post (f ∙ ap (λ x. some x.1) k) (ap (λ x. x.0) k)
]
cut-some n (c ∷ s) pre post e = elim (Option-cases (strip_prefix n (c ∷ s))) [
  | inr (r, f) ↦
      let k : ([], r) ≡ (pre, post) = some-injective ([], r) (pre, post) (rw (cut, f) at e) in
      cut-here→ n (c ∷ s) pre post (f ∙ ap (λ x. some x.1) k) (ap (λ x. x.0) k)
  | inl f ↦ elim (Option-cases (cut n s)) [
    | inl g ↦ cc (rw (cut, f, g) at e)
    | inr (r, g) ↦
        let k : (c ∷ r.0, r.1) ≡ (pre, post) =
          some-injective (c ∷ r.0, r.1) (pre, post) (rw (cut, f, g) at e) in
        subst (λ (x : Text × Text). (c ∷ s ≡ x.0 ++ (n ++ x.1)) × IsFirst n x.0 x.1) k
          (let (whole, first) = cut-some n s r.0 r.1 g in cut-later n s r.0 r.1 c f whole first)
  ]
]

-- The number of occurrences that do not overlap, taken from the left.
pub data Count (needle : Text) : Text → ℕ → Type 0 where
  no_more : {s : Text} → Absent needle s → Count needle s 0
  one_more :
      (pre : Text) {post : Text} {n : ℕ}
      → IsFirst needle pre post
      → Count needle post n
      → Count needle (pre ++ (needle ++ post)) (suc n)

Absent-cut : (n s : Text) → cut n s ≡ none → Absent n s
unfolding cut
Absent-cut n s e [] b k = cc (e, cut-here n s b (ap (strip_prefix n) k ∙ strip_prefix-append n b))
Absent-cut n [] e (d ∷ a) b k = cc k
Absent-cut n (c ∷ s) e (d ∷ a) b k = elim (Option-cases (strip_prefix n (c ∷ s))) [
  | inr (r, f) ↦ cc (rw (cut, f) at e)
  | inl f ↦ elim (Option-cases (cut n s)) [
    | inl g ↦ Absent-cut n s g a b (cc k)
    | inr (r, g) ↦ cc (rw (cut, f, g) at e)
  ]
]

count_from-Count :
    (c : ℕ) (needle s : Text) (fuel : ℕ)
    → length s < fuel
    → Count (c ∷ needle) s (count_from fuel (c ∷ needle) s)
unfolding count_from
count_from-Count c needle s zero h = absurd (omega arith)
count_from-Count c needle s (suc fuel) h = elim (Option-cases (cut (c ∷ needle) s)) [
  | inl f ↦ rw (count_from, f) (no_more (Absent-cut (c ∷ needle) s f))
  | inr (r, f) ↦
      let (whole, first) = cut-some (c ∷ needle) s r.0 r.1 f in
      let shorter : length r.1 < fuel = omega (
        arith,
        ap length whole,
        length-append r.0 (c ∷ (needle ++ r.1)),
        length-append needle r.1,
      ) in
      rw (count_from, f)
        (subst (λ t. Count (c ∷ needle) t (suc (count_from fuel (c ∷ needle) r.1))) (sym whole)
          (one_more r.0 first (count_from-Count c needle r.1 fuel shorter)))
]

Count-count_from :
    (c : ℕ) (needle : Text) {s : Text} {n : ℕ} (fuel : ℕ)
    → Count (c ∷ needle) s n
    → length s < fuel
    → count_from fuel (c ∷ needle) s ≡ n
unfolding count_from
Count-count_from c needle zero k h = absurd (omega arith)
Count-count_from c needle {s} (suc fuel) (no_more far) h =
    rw (count_from, cut-Absent (c ∷ needle) s far) refl
Count-count_from c needle (suc fuel) (one_more pre {post} first k) h =
    let shorter : length post < fuel =
      omega (arith, length-append pre (c ∷ (needle ++ post)), length-append needle post) in
    rw (count_from, cut-at (c ∷ needle) pre post first)
      (ap suc (Count-count_from c needle fuel k shorter))

-- With a needle that is not empty, the count is the number of occurrences that do not overlap,
-- counted from the left.
pub count_occurrences_iff :
    (s needle : Text) (n : ℕ) → needle ≢ [] → (count_occurrences s needle ≡ n) ↔ Count needle s n
unfolding count_occurrences
count_occurrences_iff s [] n full = absurd (full refl)
count_occurrences_iff s (c ∷ needle) n full = (
  λ e.
      subst (λ k. Count (c ∷ needle) s k) e
        (count_from-Count c needle s (suc (length s)) (omega arith)),
  λ k. Count-count_from c needle (suc (length s)) k (omega arith),
)
