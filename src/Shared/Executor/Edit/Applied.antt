-- ===== src/Shared/Executor/Edit/Applied.antt =====
-- packages/shared/src/executor/tools/fs-edit.ts: what a list of edits makes of a text.
use constellation_mcp.Prelude.{
  ◌≡◌, ◌≢◌, ◌↔◌, refl, sym, ap, ◌∙◌, ◌⊎◌, inl, inr, ◌<◌, ℕ, suc, List, [], ◌∷◌, ◌++◌, arith, subst,
}
use constellation_mcp.Prelude.Text.{Text}
use constellation_mcp.Shared.Executor.Edit.{
  Edit, count_occurrences, replace_first, edit_no_match, edit_ambiguous, returns, throws,
  apply_edits,
}
use constellation_mcp.Shared.Executor.Edit.Occurrences.{
  Absent, IsFirst, cut-at, Count, no_more, one_more, count_occurrences_iff,
}

-- Each edit in turn replaces the one occurrence of its text.
pub data Edits : List Edit → Text → Text → Type 0 where
  done : {t : Text} → Edits [] t t
  next :
      (e : Edit) (pre post : Text) {es : List Edit} {t : Text}
      → e.old_text ≢ []
      → IsFirst e.old_text pre post
      → Absent e.old_text post
      → Edits es (pre ++ (e.new_text ++ post)) t
      → Edits (e ∷ es) (pre ++ (e.old_text ++ post)) t

-- A text that occurs once.
abbrev pub Once : Text → Text → Type 0
Once old s =
    (pre : Text) × (post : Text) × (s ≡ pre ++ (old ++ post))
    × IsFirst old pre post
    × Absent old post

Count-Once : (old : Text) {s : Text} {n : ℕ} → Count old s n → n ≡ 1 → Once old s
Count-Once old (no_more far) e = absurd (omega arith)
Count-Once old (one_more pre {post} first (no_more far)) e = (pre, post, refl, first, far)
Count-Once old (one_more pre first (one_more pre' first' k)) e = absurd (omega arith)

count-empty : (s old : Text) → old ≡ [] → count_occurrences s old ≡ 0
unfolding count_occurrences
count-empty s [] e = refl
count-empty s (c ∷ old) e = cc e

pub count-full : (s old : Text) → (count_occurrences s old ≡ 0 → ⊥) → old ≢ []
count-full s old h e = h (count-empty s old e)

count-once :
    (s old pre post : Text)
    → old ≢ []
    → s ≡ pre ++ (old ++ post)
    → IsFirst old pre post
    → Absent old post
    → count_occurrences s old ≡ 1
count-once s old pre post full whole first far =
    (count_occurrences_iff s old 1 full).1
      (subst (λ t. Count old t 1) (sym whole) (one_more pre first (no_more far)))

pub replace_first-at :
    (old new pre post : Text)
    → IsFirst old pre post
    → replace_first (pre ++ (old ++ post)) old new ≡ pre ++ (new ++ post)
unfolding replace_first
replace_first-at old new pre post first = rw (replace_first, cut-at old pre post first) refl

-- An edit is made exactly if its text occurs once.
pub apply_edits-once :
    (i : ℕ) (e : Edit) (es : List Edit) (s : Text)
    → count_occurrences s e.old_text ≡ 1
    → apply_edits i (e ∷ es) s ≡ apply_edits (suc i) es (replace_first s e.old_text e.new_text)
unfolding apply_edits
apply_edits-once i e es s one = rw (one) refl

pub step-cases :
    (i : ℕ) (e : Edit) (es : List Edit) (s : Text)
    → (count_occurrences s e.old_text ≡ 1)
      ⊎ (((count_occurrences s e.old_text ≡ 0)
            × (apply_edits i (e ∷ es) s ≡ throws (edit_no_match i)))
          ⊎ ((1 < count_occurrences s e.old_text)
              × (apply_edits i (e ∷ es) s
                  ≡ throws (edit_ambiguous i (count_occurrences s e.old_text)))))
unfolding apply_edits
step-cases i e es s = ground arith

pub edit-Once :
    (s : Text) (e : Edit)
    → count_occurrences s e.old_text ≡ 1
    → (e.old_text ≢ []) × Once e.old_text s
edit-Once s e one =
    let full : e.old_text ≢ [] = count-full s e.old_text λ z. omega arith in
    (full, Count-Once e.old_text ((count_occurrences_iff s e.old_text 1 full).0 one) refl)

apply_edits-Edits :
    (i : ℕ) (es : List Edit) (s t : Text) → apply_edits i es s ≡ returns t → Edits es s t
unfolding apply_edits
apply_edits-Edits i [] s t h = subst (λ x. Edits [] s x) (cc h) done
apply_edits-Edits i (e ∷ es) s t h = elim (step-cases i e es s) [
  | inr (inl (z, f)) ↦ cc (f, h)
  | inr (inr (z, f)) ↦ cc (f, h)
  | inl one ↦
      let (full, (pre, post, whole, first, far)) = edit-Once s e one in
      let replaced : replace_first s e.old_text e.new_text ≡ pre ++ (e.new_text ++ post) =
        ap (λ x. replace_first x e.old_text e.new_text) whole
        ∙ replace_first-at e.old_text e.new_text pre post first in
      let rest : apply_edits (suc i) es (replace_first s e.old_text e.new_text) ≡ returns t =
        sym (apply_edits-once i e es s one) ∙ h in
      let later : Edits es (pre ++ (e.new_text ++ post)) t =
        subst (λ x. Edits es x t) replaced
          (apply_edits-Edits (suc i) es (replace_first s e.old_text e.new_text) t rest) in
      subst (λ x. Edits (e ∷ es) x t) (sym whole) (next e pre post full first far later)
]

Edits-apply_edits :
    (i : ℕ) {es : List Edit} {s t : Text} → Edits es s t → apply_edits i es s ≡ returns t
unfolding apply_edits
Edits-apply_edits i done = refl
Edits-apply_edits i (next e pre post {es} {t} full first far k) =
    apply_edits-once i e es (pre ++ (e.old_text ++ post))
      (count-once (pre ++ (e.old_text ++ post)) e.old_text pre post full refl first far)
    ∙ (ap (λ x. apply_edits (suc i) es x) (replace_first-at e.old_text e.new_text pre post first)
        ∙ Edits-apply_edits (suc i) k)

-- The edits give a text exactly when each in turn has a text to replace that is not empty and
-- occurs once in what the edits before it made, occurrences that overlap an earlier one not counted,
-- and the text is what the replacements make.
pub apply_edits_iff :
    (i : ℕ) (es : List Edit) (s t : Text) → (apply_edits i es s ≡ returns t) ↔ Edits es s t
apply_edits_iff i es s t = (apply_edits-Edits i es s t, λ k. Edits-apply_edits i k)
