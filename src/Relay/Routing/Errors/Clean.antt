-- ===== src/Relay/Routing/Errors/Clean.antt =====
-- packages/relay/src/router.ts: what is known of a field of an executor's error after cleaning.
use constellation_mcp.Prelude.{
  ℕ, zero, suc, ◌≤◌, ◌<◌, ◌≡◌, refl, ap, ◌∙◌, inl, inr, true, false, not, [], ◌∷◌, ◌++◌, arith,
  Bool-cases, Option, Option-cases, none, some, ◌⊎◌, ltb, length, take, keep, All, All-append,
  length-append,
}
use constellation_mcp.Prelude.Text.{Text, text}
use constellation_mcp.Shared.Json.{
  Value, undefined, null, bool, num, str, arr, obj, Values, nil, cons, Fields, own, entries,
}
use constellation_mcp.Relay.Routing.Errors.{
  is_control, shown, items, shown_item, clipped, cleaned_text, clean_executor_error_field,
}

abbrev pub Clean : Text → Type 0
Clean = All (λ c. is_control c ≡ false)

keep-Clean : (s : Text) → Clean (keep (λ c. not (is_control c)) s)
keep-Clean [] = tt
keep-Clean (c ∷ s) = elim (Bool-cases (is_control c)) [
  | inl e ↦ rw e (keep-Clean s)
  | inr e ↦ rw e (e, keep-Clean s)
]

Clean-keep : (s : Text) → Clean s → keep (λ c. not (is_control c)) s ≡ s
Clean-keep [] h = refl
Clean-keep (c ∷ s) h = rw (h.0) (ap (◌∷◌ c) (Clean-keep s h.1))

take-Clean : (n : ℕ) (s : Text) → Clean s → Clean (take n s)
take-Clean zero s h = tt
take-Clean (suc n) [] h = tt
take-Clean (suc n) (c ∷ s) h = (h.0, take-Clean n s h.1)

length-take : (n : ℕ) (s : Text) → n < length s → length (take n s) ≡ n
length-take zero s h = refl
length-take (suc n) [] h = omega arith
length-take (suc n) (c ∷ s) h = omega (arith, length-take n s (omega arith))

take-append : (n : ℕ) (s t : Text) → n < length s → take n (take n s ++ t) ≡ take n s
take-append zero s t h = refl
take-append (suc n) [] t h = absurd (omega arith)
take-append (suc n) (c ∷ s) t h = ap (◌∷◌ c) (take-append n s t (omega arith))

ellipsis-Clean : Clean (text "…")
unfolding is_control
ellipsis-Clean = (refl, tt)

clipped-Clean : (max : ℕ) (s : Text) → Clean s → Clean (clipped max s)
unfolding clipped
clipped-Clean max s h = elim (Bool-cases (ltb max (length s))) [
  | inl e ↦ rw e (All-append _ (take max s) (text "…") (take-Clean max s h) ellipsis-Clean)
  | inr e ↦ rw e h
]

length-clipped : (max : ℕ) (s : Text) → length (clipped max s) ≤ suc max
unfolding clipped
length-clipped max s = elim (Bool-cases (ltb max (length s))) [
  | inl e ↦
      rw (clipped, e)
        (omega (arith, length-append (take max s) (text "…"), length-take max s (ground arith)))
  | inr e ↦ rw (clipped, e) (ground arith)
]

clipped-clipped : (max : ℕ) (s : Text) → clipped max (clipped max s) ≡ clipped max s
unfolding clipped
clipped-clipped max s = elim (Bool-cases (ltb max (length s))) [
  | inl e ↦
      let long : ltb max (length (take max s ++ text "…")) ≡ true =
        ground (arith, length-append (take max s) (text "…"), length-take max s (ground arith)) in
      rw (clipped, e, clipped, long, take-append max s (text "…") (ground arith)) refl
  | inr e ↦ rw (clipped, e, clipped, e) refl
]

mutual
  -- A value that cannot be shown: an object with a `toString` of its own, or an array with such a
  -- value in it.
  pub data Unshown : Value → Type 0 where
    an_object :
        {fs : Fields} (v : Value) → own (entries fs) (text "toString") ≡ some v → Unshown (obj fs)
    an_array : {vs : Values} → AnyUnshown vs → Unshown (arr vs)

  pub data AnyUnshown : Values → Type 0 where
    first : {v : Value} {vs : Values} → Unshown v → AnyUnshown (cons v vs)
    later : {v : Value} {vs : Values} → AnyUnshown vs → AnyUnshown (cons v vs)

shown_item-none : (v : Value) (t : Option Text) → shown_item v t ≡ none → t ≡ none
shown_item-none undefined t e = cc e
shown_item-none null t e = cc e
shown_item-none _ t e = e

Unshown-shown_item : (v : Value) (t : Option Text) → Unshown v → t ≡ none → shown_item v t ≡ none
Unshown-shown_item _ t (an_object v f) e = e
Unshown-shown_item _ t (an_array u) e = e

mutual
  unfolding shown

  shown-Unshown : (v : Value) → shown v ≡ none → Unshown v
  shown-Unshown undefined e = cc e
  shown-Unshown null e = cc e
  shown-Unshown (bool true) e = cc e
  shown-Unshown (bool false) e = cc e
  shown-Unshown (num n) e = cc e
  shown-Unshown (str s) e = cc e
  shown-Unshown (arr vs) e = elim (Option-cases (items vs)) [
    | inl f ↦ an_array (items-AnyUnshown vs f)
    | inr (ts, f) ↦ cc (rw (f) at e)
  ]
  shown-Unshown (obj fs) e = elim (Option-cases (own (entries fs) (text "toString"))) [
    | inl f ↦ cc (rw (f) at e)
    | inr (v, f) ↦ an_object v f
  ]

  items-AnyUnshown : (vs : Values) → items vs ≡ none → AnyUnshown vs
  items-AnyUnshown nil e = cc e
  items-AnyUnshown (cons v vs) e = elim (Option-cases (shown_item v (shown v))) [
    | inl f ↦ first (shown-Unshown v (shown_item-none v (shown v) f))
    | inr (t, f) ↦ elim (Option-cases (items vs)) [
      | inl g ↦ later (items-AnyUnshown vs g)
      | inr (ts, g) ↦ cc (rw (f, g) at e)
    ]
  ]

mutual
  unfolding shown

  Unshown-shown : (v : Value) → Unshown v → shown v ≡ none
  Unshown-shown _ (an_object {fs} v e) = rw (e) refl
  Unshown-shown _ (an_array {vs} some_unshown) = rw (AnyUnshown-items vs some_unshown) refl

  AnyUnshown-items : (vs : Values) → AnyUnshown vs → items vs ≡ none
  AnyUnshown-items _ (first {v} {vs} u) =
      rw (Unshown-shown_item v (shown v) u (Unshown-shown v u)) refl
  AnyUnshown-items _ (later {v} {vs} u) = elim (Option-cases (shown_item v (shown v))) [
    | inl f ↦ rw (f) refl
    | inr (t, f) ↦ rw (f, AnyUnshown-items vs u) refl
  ]

cleaned_text_lem :
    (max : ℕ) (t : Text)
    → let s = cleaned_text max t in (length s ≤ suc max) × Clean s × (cleaned_text max s ≡ s)
unfolding cleaned_text
cleaned_text_lem max t =
    let kept = keep (λ c. not (is_control c)) t in
    let clean = clipped-Clean max kept (keep-Clean t) in
    (
      length-clipped max kept,
      clean,
      ap (clipped max) (Clean-keep (clipped max kept) clean) ∙ clipped-clipped max kept,
    )

-- To clean a field either throws, as the value is or has in it an object with a `toString` of its
-- own, or gives a text of at most one code unit more than the maximum and without control
-- characters, which cleaning again does not change.
pub clean_executor_error_field_lem :
    (value : Value) (max : ℕ)
    → (Unshown value × (clean_executor_error_field value max ≡ none))
      ⊎ ((s : Text) × ¬ (Unshown value)
          × (clean_executor_error_field value max ≡ some s)
          × (length s ≤ suc max)
          × Clean s
          × (clean_executor_error_field (str s) max ≡ some s))
unfolding clean_executor_error_field shown
clean_executor_error_field_lem value max = elim (Option-cases (shown value)) [
  | inl e ↦ inl (shown-Unshown value e, rw (e) refl)
  | inr (t, e) ↦
      let (short, clean, again) = cleaned_text_lem max t in
      inr (
        cleaned_text max t,
        (λ u. cc (e, Unshown-shown value u)),
        rw (e) refl,
        short,
        clean,
        ap some again,
      )
]

-- A text that is short enough and has no control characters is passed on as it is.
pub clean_executor_error_field-Clean :
    (t : Text) (max : ℕ)
    → Clean t
    → length t ≤ max
    → clean_executor_error_field (str t) max ≡ some t
unfolding clean_executor_error_field shown clipped cleaned_text
clean_executor_error_field-Clean t max h short =
    let e : ltb max (length t) ≡ false = ground arith in
    ap some (ap (clipped max) (Clean-keep t h) ∙ rw (clipped, e) refl)
