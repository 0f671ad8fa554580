-- ===== src/Relay/Routing/Errors/Fields.antt =====
-- packages/relay/src/router.ts: an executor's error, field by field, after it was sanitised.
use constellation_mcp.Prelude.{
  ℕ, ◌≡◌, refl, sym, ◌⊎◌, Option-cases, ap, ◌∙◌, inl, inr, [], ◌∷◌, Option, none, some, arith,
  Bool-cases, if◌then◌else◌,
}
use mathlib.Core.Option
use mathlib.Core.Option.{some-injective}
use constellation_mcp.Prelude.Text.{Text, text, eq_text, eq_text→eq, eq_text_iff}
use constellation_mcp.Prelude.Table.{put}
use constellation_mcp.Shared.Json.{Value, undefined, str, Object, own}
use constellation_mcp.Relay.Routing.Errors.{
  max_executor_error_field_length, clean_executor_error_field, replace_field, clean_if_present,
  read, sanitize_executor_error,
}

own-put :
    (o : Object) (key k : Text) (v : Value)
    → own (put o key v) k ≡ (if eq_text key k then some v else own o k)
unfolding own put
own-put [] key k v = refl
own-put ((j, w) ∷ o) key k v =
    ground (arith, eq_text_iff j key, eq_text_iff key k, eq_text_iff j k, own-put o key k v)

-- A field that is cleaned if it is there; none if that throws.
pub cleaned : ℕ → Option Value → Option (Option Value)
cleaned max none = some none
cleaned max (some undefined) = some (some undefined)
cleaned max (some v) = Option.map (λ s. some (str s)) (clean_executor_error_field v max)

-- Either a field's replacement throws, or the result has the cleaned field and all others.
Replaced : Text → ℕ → Option Value → Object → Type 0
Replaced key max v result =
    ((replace_field key max v result ≡ none) × (cleaned max v ≡ none))
    ⊎ ((r : Object) × (replace_field key max v result ≡ some r)
        × ((k : Text)
            → (if eq_text key k then cleaned max v else some (own result k)) ≡ some (own r k)))

untouched-Replaced :
    (key : Text) (v : Option Value) (result : Object) (k : Text)
    → own result key ≡ v
    → (if eq_text key k then some v else some (own result k)) ≡ some (own result k)
untouched-Replaced key v result k e = elim (Bool-cases (eq_text key k)) [
  | inl here ↦ rw (here, ← eq_text→eq key k here) (ap some (sym e))
  | inr far ↦ rw far refl
]

put-Replaced :
    (key s : Text) (result : Object) (k : Text)
    → (if eq_text key k then some (some (str s)) else some (own result k))
      ≡ some (own (put result key (str s)) k)
put-Replaced key s result k =
    rw (own-put result key k (str s))
      (elim (Bool-cases (eq_text key k)) [ inl e ↦ rw e refl | inr e ↦ rw e refl ])

replace-Replaced :
    (key : Text) (max : ℕ) (v : Option Value) (result : Object)
    → own result key ≡ v
    → Replaced key max v result
unfolding replace_field cleaned Replaced
replace-Replaced key max none result same =
    inr (result, refl, λ k. untouched-Replaced key none result k same)
replace-Replaced key max (some undefined) result same =
    inr (result, refl, λ k. untouched-Replaced key (some undefined) result k same)
replace-Replaced key max (some v) result same =
    elim (Option-cases (clean_executor_error_field v max)) [
      | inl e ↦ inl (rw (e, replace_field) refl, rw (e, cleaned) refl)
      | inr (s, e) ↦ inr (
        put result key (str s),
        rw (e, replace_field) refl,
        λ k. rw (e, cleaned) (put-Replaced key s result k),
      )
    ]

-- The fields of the result, by name; none if to clean it throws.
pub sanitized : Object → Text → Option (Option Value)
sanitized error k =
    if eq_text (text "path") k
    then cleaned max_executor_error_field_length (own error (text "path"))
    else if eq_text (text "code") k
    then cleaned 64 (own error (text "code"))
    else if eq_text (text "message") k
    then Option.map (λ s. some (str s))
        (clean_executor_error_field (read error (text "message")) max_executor_error_field_length)
    else some (own error k)

-- The fields of the result, if the message, the code and the path are cleaned.
module _ (error : Object) (m : Text)
    (cleans : clean_executor_error_field
        (read error (text "message"))
        max_executor_error_field_length
      ≡ some m)
    (coded result : Object)
    (code : (k : Text)
      → (if eq_text (text "code") k
          then cleaned 64 (own error (text "code"))
          else some (own (put error (text "message") (str m)) k))
        ≡ some (own coded k))
    (path : (k : Text)
      → (if eq_text (text "path") k
          then cleaned max_executor_error_field_length (own error (text "path"))
          else some (own coded k))
        ≡ some (own result k)) where
  sanitized_lem : (k : Text) → sanitized error k ≡ some (own result k)
  unfolding sanitized
  sanitized_lem k =
      ap
        (λ other.
          if eq_text (text "path") k
          then cleaned max_executor_error_field_length (own error (text "path"))
          else other)
        (ap
            (λ other.
              if eq_text (text "code") k then cleaned 64 (own error (text "code")) else other)
            (rw (cleans) (put-Replaced (text "message") m error k))
          ∙ code k)
      ∙ path k

-- Either a field cannot be cleaned, which throws, or the message is there and clean, the code and
-- the path are clean if they are there, and any other field is as it was.
pub sanitize_executor_error_lem :
    (error : Object)
    → ((sanitize_executor_error error ≡ none) × (k : Text) × (sanitized error k ≡ none))
      ⊎ ((result : Object) × (sanitize_executor_error error ≡ some result)
          × ((k : Text) → sanitized error k ≡ some (own result k)))
unfolding sanitize_executor_error sanitized clean_if_present eq_text Replaced
sanitize_executor_error_lem error =
    elim (Option-cases
      (clean_executor_error_field (read error (text "message")) max_executor_error_field_length)) [
        | inl e ↦ inl (rw (e) refl, text "message", rw (e) refl)
        | inr (m, e) ↦ with_message m e
      ]
  where
    with_message :
        (m : Text)
        → clean_executor_error_field (read error (text "message")) max_executor_error_field_length
          ≡ some m
        → ((sanitize_executor_error error ≡ none) × (k : Text) × (sanitized error k ≡ none))
          ⊎ ((result : Object) × (sanitize_executor_error error ≡ some result)
              × ((k : Text) → sanitized error k ≡ some (own result k)))
    with_message m e =
        let named = put error (text "message") (str m) in
        elim (replace-Replaced (text "code") 64 (own error (text "code")) named
          (own-put error (text "message") (text "code") (str m))) [
            | inl (f, g) ↦ inl (rw (e, f) refl, text "code", g)
            | inr (coded, f, code) ↦
                elim (replace-Replaced (text "path") max_executor_error_field_length
                  (own error (text "path")) coded
                  (some-injective _ _ (sym (code (text "path")))
                    ∙ own-put error (text "message") (text "path") (str m))) [
                      | inl (g, h) ↦ inl (rw (e, f, g) refl, text "path", h)
                      | inr (result, g, path) ↦ inr (
                        result,
                        rw (e, f, g) refl,
                        sanitized_lem error m e coded result code path,
                      )
                    ]
          ]
