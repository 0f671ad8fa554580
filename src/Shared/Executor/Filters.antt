-- ===== src/Shared/Executor/Filters.antt =====
-- packages/shared/src/executor/index.ts: the path filters of an envelope.
use constellation_mcp.Prelude.{
  ℕ, ◌≤◌, ◌≡◌, refl, ap, ◌↔◌, inl, inr, false, List, [], ◌∷◌, Option, none, some, arith, Bool-cases,
  Option-cases, ltb, ltb-false, length, if◌then◌else◌,
}
use mathlib.Core.Option.{some-injective}
use constellation_mcp.Prelude.Text.{Text}
use constellation_mcp.Shared.Json.{Value, str, arr, Values, nil, cons, values, texts}

abbrev pub max_envelope_path_filters : ℕ
max_envelope_path_filters = 100

-- The array, if every element is a text.
all_texts : Values → Option (List Text)
all_texts nil = some []
all_texts (cons (str s) vs) = elim (all_texts vs) [ none ↦ none | some ts ↦ some (s ∷ ts) ]
all_texts (cons v vs) = none

unfoldable pub parse_path_filters : Value → Option (List Text)
unfolding all_texts
parse_path_filters (arr vs) =
    if ltb max_envelope_path_filters (length (values vs)) then none else all_texts vs
parse_path_filters _ = none

all_texts_sound : (vs : Values) (ts : List Text) → all_texts vs ≡ some ts → vs ≡ texts ts
unfolding all_texts
all_texts_sound nil ts e = rw (← some-injective [] ts e) refl
all_texts_sound (cons (str s) vs) ts e = elim (Option-cases (all_texts vs)) [
  | inl f ↦ cc (rw (f, all_texts) at e)
  | inr (us, f) ↦
      let same : s ∷ us ≡ ts = some-injective (s ∷ us) ts (rw (f, all_texts) at e) in
      rw (← same) (ap (cons (str s)) (all_texts_sound vs us f))
]
all_texts_sound (cons v vs) ts e = cc e

all_texts_complete : (ts : List Text) → all_texts (texts ts) ≡ some ts
unfolding all_texts
all_texts_complete [] = refl
all_texts_complete (t ∷ ts) = rw (all_texts, all_texts_complete ts) refl

length-texts : (ts : List Text) → length (values (texts ts)) ≡ length ts
length-texts [] = refl
length-texts (t ∷ ts) = omega (arith, length-texts ts)

-- The filters are accepted exactly when they are an array of at most 100 texts, and all of them are
-- taken: none is dropped.
pub parse_path_filters_iff :
    (v : Value) (ts : List Text)
    → (parse_path_filters v ≡ some ts)
      ↔ ((v ≡ arr (texts ts)) × (length ts ≤ max_envelope_path_filters))
unfolding parse_path_filters
parse_path_filters_iff v ts = (forth v, back)
  where
    forth :
        (w : Value)
        → parse_path_filters w ≡ some ts
        → (w ≡ arr (texts ts)) × (length ts ≤ max_envelope_path_filters)
    forth (arr vs) e = elim (Bool-cases (ltb max_envelope_path_filters (length (values vs)))) [
      | inl many ↦ cc (rw (many, parse_path_filters) at e)
      | inr few ↦
          let same = all_texts_sound vs ts (rw (few, parse_path_filters) at e) in
          (
            ap arr same,
            omega (arith, length-texts ts, ap (λ ws. length (values ws)) same, ltb-false _ _ few),
          )
    ]
    forth w e = cc e

    back :
        (v ≡ arr (texts ts)) × (length ts ≤ max_envelope_path_filters)
        → parse_path_filters v ≡ some ts
    back (e, short) =
        let few : ltb max_envelope_path_filters (length ts) ≡ false = ground arith in
        rw (e, parse_path_filters, length-texts ts, few) (all_texts_complete ts)
