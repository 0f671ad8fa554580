-- ===== src/Shared/EnvFile/Assignment.antt =====
-- packages/shared/src/env-file.ts: a line is an assignment to one variable at most.
use constellation_mcp.Prelude.{
  ◌≡◌, refl, ap, ap₂, ◌∙◌, ◌≢◌, inl, inr, true, false, [], ◌∷◌, ◌++◌, none, some, ℕ, all, ◌==◌,
  ==_iff, arith, Bool-cases, Option-cases,
}
use constellation_mcp.Prelude.Text.{Text}
use constellation_mcp.Prelude.Split.{IsPiece}
use constellation_mcp.Prelude.Strings.{is_space, is_digit, trim_start}
use constellation_mcp.Shared.EnvFile.{
  is_key_start, is_key_part, is_env_key, skip_equals, after_key, assigned, assignment,
}

key_part-plain : (c : ℕ) → is_key_part c ≡ true → (is_space c ≡ false) × ((c == b'=') ≡ false)
unfolding is_key_part is_key_start is_digit is_space
key_part-plain c h = (ground arith, ground arith)

after_key-append : (key s : Text) → after_key key (key ++ s) ≡ skip_equals (trim_start s)
unfolding after_key
after_key-append [] s = refl
after_key-append (k ∷ ks) s = ground (arith, after_key-append ks s)

parts-of : (key : Text) → is_env_key key ≡ true → all is_key_part key ≡ true
unfolding is_env_key is_key_part
parts-of [] h = refl
parts-of (c ∷ s) h = ground arith

trim_start-key : (c : ℕ) (s : Text) → is_key_part c ≡ true → trim_start (c ∷ s) ≡ c ∷ s
unfolding trim_start
trim_start-key c s h = rw (key_part-plain c h).0 refl

pub assigned-assignment :
    (key value : Text) → is_env_key key ≡ true → assigned key (assignment key value) ≡ some value
unfolding assigned assignment is_env_key
assigned-assignment [] value h = cc h
assigned-assignment (c ∷ s) value h =
    ap (after_key (c ∷ s))
      (trim_start-key c (s ++ (b'=' ∷ value)) (unfold is_key_part in ground arith))
    ∙ after_key-append (c ∷ s) (b'=' ∷ value)
    ∙ (unfold trim_start is_space skip_equals in refl)

pub assigned-empty : (key : Text) → assigned key [] ≡ none
unfolding assigned after_key trim_start skip_equals
assigned-empty [] = refl
assigned-empty (c ∷ s) = refl

parts-IsPiece : (s : Text) → all is_key_part s ≡ true → IsPiece 0xa s
unfolding is_key_part is_key_start is_digit
parts-IsPiece [] h = refl
parts-IsPiece (c ∷ s) h = ground (arith, parts-IsPiece s)

pub key-IsPiece : (key : Text) → is_env_key key ≡ true → IsPiece 0xa key
key-IsPiece key h = parts-IsPiece key (parts-of key h)

longer :
    (k : ℕ) (ks s r t : Text)
    → is_key_part k ≡ true
    → after_key [] s ≡ some r
    → after_key (k ∷ ks) s ≡ some t
    → ⊥
unfolding after_key skip_equals trim_start
longer k ks [] r t part e f = cc f
longer k ks (c ∷ s) r t part e f = ground (arith, key_part-plain k part, ==_iff k c)

after_key-same :
    (j k s r t : Text)
    → all is_key_part j ≡ true
    → all is_key_part k ≡ true
    → after_key j s ≡ some r
    → after_key k s ≡ some t
    → j ≡ k
unfolding after_key
after_key-same [] [] s r t hj hk e f = refl
after_key-same [] (k ∷ ks) s r t hj hk e f = absurd (longer k ks s r t (ground arith) e f)
after_key-same (j ∷ js) [] s r t hj hk e f = absurd (longer j js s t r (ground arith) f e)
after_key-same (j ∷ js) (k ∷ ks) [] r t hj hk e f = cc e
after_key-same (j ∷ js) (k ∷ ks) (c ∷ s) r t hj hk e f = elim (Bool-cases (j == c)) [
  | inr x ↦ cc (rw x at e)
  | inl x ↦ elim (Bool-cases (k == c)) [
    | inr y ↦ cc (rw y at f)
    | inl y ↦
        ap₂ (λ a b. a ∷ b) (ground (arith, ==_iff j c, ==_iff k c))
          (after_key-same js ks s r t (ground arith) (ground arith) (rw x at e) (rw y at f))
  ]
]

-- A line that assigns to one variable assigns to no other.
pub assigned-other :
    (j k line r : Text)
    → is_env_key j ≡ true
    → is_env_key k ≡ true
    → k ≢ j
    → assigned k line ≡ some r
    → assigned j line ≡ none
unfolding assigned
assigned-other j k line r hj hk n e = elim (Option-cases (assigned j line)) [
  | inl f ↦ f
  | inr (t, f) ↦
      absurd (n (after_key-same k j (trim_start line) r t (parts-of k hk) (parts-of j hj) e f))
]
