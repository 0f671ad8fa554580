-- ===== src/Shared/Executor/Edit/Fails.antt =====
-- packages/shared/src/executor/tools/fs-edit.ts: the edit at which a list of edits fails.
use constellation_mcp.Prelude.{
  ◌≡◌, ◌≢◌, refl, sym, ap, ◌∙◌, ◌⊎◌, inl, inr, ◌<◌, ◌+◌, ℕ, suc, List, [], ◌∷◌, ◌++◌, arith, length,
  subst,
}
use constellation_mcp.Prelude.Text.{Text}
use constellation_mcp.Shared.Executor.Edit.{
  Edit, count_occurrences, replace_first, Thrown, edit_no_match, edit_ambiguous, throws,
  apply_edits,
}
use constellation_mcp.Shared.Executor.Edit.Occurrences.{
  Absent, Count, no_more, one_more, count_occurrences_iff,
}
use constellation_mcp.Shared.Executor.Edit.Applied.{
  Edits, done, next, count-full, replace_first-at, apply_edits-once, step-cases, edit-Once,
}

-- The edit that has `index`, applied to `s`, has no text to replace or has more than one.
pub data Fails (e : Edit) (s : Text) (index : ℕ) : Thrown → Type 0 where
  is_empty : e.old_text ≡ [] → Fails e s index (edit_no_match index)
  is_absent : Absent e.old_text s → Fails e s index (edit_no_match index)
  is_repeated :
      {n : ℕ}
      → e.old_text ≢ []
      → Count e.old_text s n
      → 1 < n
      → Fails e s index (edit_ambiguous index n)

Count-Absent : (old : Text) {s : Text} {n : ℕ} → Count old s n → n ≡ 0 → Absent old s
Count-Absent old (no_more far) e = far
Count-Absent old (one_more pre first k) e = absurd (omega arith)

no_match-Fails :
    (e : Edit) (s : Text) (i : ℕ)
    → count_occurrences s e.old_text ≡ 0
    → Fails e s i (edit_no_match i)
no_match-Fails e s i z = elim (list-cases e.old_text) [
  | inl empty ↦ is_empty empty
  | inr full ↦
      is_absent (Count-Absent e.old_text ((count_occurrences_iff s e.old_text 0 full).0 z) refl)
]
  where
    list-cases : (t : Text) → (t ≡ []) ⊎ (t ≢ [])
    list-cases [] = inl refl
    list-cases (c ∷ t) = inr λ k. cc k

ambiguous-Fails :
    (e : Edit) (s : Text) (i : ℕ)
    → 1 < count_occurrences s e.old_text
    → Fails e s i (edit_ambiguous i (count_occurrences s e.old_text))
ambiguous-Fails e s i more =
    let full : e.old_text ≢ [] = count-full s e.old_text λ z. omega arith in
    is_repeated full
      ((count_occurrences_iff s e.old_text (count_occurrences s e.old_text) full).0 refl) more

-- The loop, with the index of its first edit.
apply_edits-error :
    (i : ℕ) (es : List Edit) (s : Text) (t : Thrown)
    → apply_edits i es s ≡ throws t
    → (before : List Edit) × (e : Edit) × (after : List Edit) × (u : Text) × (es
        ≡ before ++ (e ∷ after))
      × Edits before s u
      × Fails e u (i + length before) t
unfolding apply_edits
apply_edits-error i [] s t h = cc h
apply_edits-error i (e ∷ es) s t h = elim (step-cases i e es s) [
  | inr (inl (z, f)) ↦
      let same : edit_no_match i ≡ t = cc (f, h) in
      (
        [],
        e,
        es,
        s,
        refl,
        done,
        subst (λ x. Fails e s (i + 0) x) (ap edit_no_match (omega arith) ∙ same)
            (no_match-Fails e s (i + 0) z),
      )
  | inr (inr (more, f)) ↦
      let same : edit_ambiguous i (count_occurrences s e.old_text) ≡ t = cc (f, h) in
      (
        [],
        e,
        es,
        s,
        refl,
        done,
        subst (λ x. Fails e s (i + 0) x)
            (ap (λ k. edit_ambiguous k (count_occurrences s e.old_text)) (omega arith) ∙ same)
            (ambiguous-Fails e s (i + 0) more),
      )
  | inl one ↦
      let (full, (pre, post, whole, first, far)) = edit-Once s e one in
      let replaced : replace_first s e.old_text e.new_text ≡ pre ++ (e.new_text ++ post) =
        ap (λ x. replace_first x e.old_text e.new_text) whole
        ∙ replace_first-at e.old_text e.new_text pre post first in
      let rest : apply_edits (suc i) es (pre ++ (e.new_text ++ post)) ≡ throws t =
        ap (λ x. apply_edits (suc i) es x) (sym replaced)
        ∙ (sym (apply_edits-once i e es s one) ∙ h) in
      let (before, f, after, u, split, made, fails) =
        apply_edits-error (suc i) es (pre ++ (e.new_text ++ post)) t rest in
      (
        e ∷ before,
        f,
        after,
        u,
        ap (e ∷◌) split,
        subst (λ x. Edits (e ∷ before) x u) (sym whole) (next e pre post full first far made),
        subst (λ k. Fails f u k t) (omega arith) fails,
      )
]

-- An error names the first edit that cannot be made: the edits before it are made, and in what they
-- give its text is empty or absent, or occurs as often as the error says, which is more than once.
pub apply_edits_error :
    (es : List Edit) (s : Text) (t : Thrown)
    → apply_edits 0 es s ≡ throws t
    → (before : List Edit) × (e : Edit) × (after : List Edit) × (u : Text) × (es
        ≡ before ++ (e ∷ after))
      × Edits before s u
      × Fails e u (length before) t
apply_edits_error es s t h =
    let (before, e, after, u, split, made, fails) = apply_edits-error 0 es s t h in
    (before, e, after, u, split, made, subst (λ k. Fails e u k t) (omega arith) fails)
