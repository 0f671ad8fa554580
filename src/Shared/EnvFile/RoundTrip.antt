-- ===== src/Shared/EnvFile/RoundTrip.antt =====
-- packages/shared/src/env-file.ts: what is read after a write.
use constellation_mcp.Prelude.{
  ◌≡◌, refl, sym, ap, ◌∙◌, ◌≢◌, inl, inr, Bool, true, false, List, [], ◌∷◌, ◌++◌, Option, none,
  some, if◌then◌else◌, All, arith, Bool-cases, Option-cases, subst,
}
use constellation_mcp.Prelude.Text.{Text, text, join_with, eq_text, eq_text_iff}
use constellation_mcp.Prelude.Strings.{split_on}
use constellation_mcp.Prelude.Split.{IsPiece, append-IsPiece, split_from-IsPiece, split_on-join}
use constellation_mcp.Shared.EnvFile.{
  is_env_key, is_forbidden, assigned, assignment, value_of, or_value, latest, Contents, missing,
  fails, holds, reads, read_contents, read_env_file_value, replace_lines, pop_empty, Written,
  write_throws, writes, write_contents, write_env_file_value,
}
use constellation_mcp.Shared.EnvFile.Assignment.{
  assigned-assignment, assigned-empty, assigned-other, key-IsPiece,
}

value-IsPiece : (value : Text) → is_forbidden value ≡ false → IsPiece 0xa (b'=' ∷ value)
unfolding is_forbidden
value-IsPiece [] h = refl
value-IsPiece (c ∷ s) h = ground (arith, value-IsPiece s)

module _ (j : Text) where
  skips :
      (a : Option Text) (l : Text) → assigned j l ≡ none → or_value (value_of (assigned j l)) a ≡ a
  unfolding value_of
  skips a l e = rw e refl

  latest-skips :
      (a : Option Text) (l : Text) (ls : List Text)
      → assigned j l ≡ none
      → latest j a (l ∷ ls) ≡ latest j a ls
  unfolding latest
  latest-skips a l ls e = ap (λ b. latest j b ls) (skips a l e)

  latest-last_empty :
      (a : Option Text) (ls : List Text) → latest j a (ls ++ [] ∷ []) ≡ latest j a ls
  unfolding latest
  latest-last_empty a [] = skips a [] (assigned-empty j)
  latest-last_empty a (l ∷ ls) = latest-last_empty (or_value (value_of (assigned j l)) a) ls

  latest-pop_empty : (a : Option Text) (ls : List Text) → latest j a (pop_empty ls) ≡ latest j a ls
  unfolding latest pop_empty
  latest-pop_empty a [] = refl
  latest-pop_empty a ([] ∷ []) = sym (skips a [] (assigned-empty j))
  latest-pop_empty a ((c ∷ s) ∷ []) = refl
  latest-pop_empty a (l ∷ m ∷ ls) = latest-pop_empty (or_value (value_of (assigned j l)) a) (m ∷ ls)

module _ (key value : Text) (valid : is_env_key key ≡ true) where
  -- The other variables keep their values.
  module _ (j : Text) (hj : is_env_key j ≡ true) (n : key ≢ j) where
    skips-assignment :
        (a : Option Text) → or_value (value_of (assigned j (assignment key value))) a ≡ a
    skips-assignment a = skips j a (assignment key value) (
        assigned-other j key (assignment key value) value hj valid n
          (assigned-assignment key value valid))

    latest-other :
        (a : Option Text) (replaced : Bool) (ls : List Text)
        → latest j a (replace_lines key value replaced ls) ≡ latest j a ls
    unfolding replace_lines latest
    latest-other a true [] = refl
    latest-other a false [] = skips-assignment a
    latest-other a true (l ∷ ls) = elim (Option-cases (assigned key l)) [
      | inl e ↦ rw e (latest-other (or_value (value_of (assigned j l)) a) true ls)
      | inr (r, e) ↦
          rw (e, skips j a l (assigned-other j key l r hj valid n e)) (latest-other a true ls)
    ]
    latest-other a false (l ∷ ls) = elim (Option-cases (assigned key l)) [
      | inl e ↦ rw e (latest-other (or_value (value_of (assigned j l)) a) false ls)
      | inr (r, e) ↦
          rw (e, skips j a l (assigned-other j key l r hj valid n e), skips-assignment a)
            (latest-other a true ls)
    ]

  latest-replaced :
      (a : Option Text) (ls : List Text) → latest key a (replace_lines key value true ls) ≡ a
  unfolding replace_lines latest value_of
  latest-replaced a [] = refl
  latest-replaced a (l ∷ ls) = elim (Option-cases (assigned key l)) [
    | inl e ↦ rw e (latest-skips key a l (replace_lines key value true ls) e ∙ latest-replaced a ls)
    | inr (r, e) ↦ rw e (latest-replaced a ls)
  ]

  -- The variable itself has what was written.
  latest-same :
      (a : Option Text) (ls : List Text)
      → latest key a (replace_lines key value false ls) ≡ or_value (value_of (some value)) a
  unfolding replace_lines latest value_of
  latest-same a [] = rw (assigned-assignment key value valid) refl
  latest-same a (l ∷ ls) = elim (Option-cases (assigned key l)) [
    | inl e ↦ rw e (latest-skips key a l (replace_lines key value false ls) e ∙ latest-same a ls)
    | inr (r, e) ↦ rw (e, assigned-assignment key value valid) (latest-replaced _ ls)
  ]

  replace_lines-nonempty : (ls : List Text) → replace_lines key value false ls ≢ []
  unfolding replace_lines
  replace_lines-nonempty [] e = cc e
  replace_lines-nonempty (l ∷ ls) e = elim (Option-cases (assigned key l)) [
    | inl f ↦ cc (rw f at e)
    | inr (r, f) ↦ cc (rw f at e)
  ]

  module _ (fits : is_forbidden value ≡ false) where
    assignment-IsPiece : IsPiece 0xa (assignment key value)
    unfolding assignment
    assignment-IsPiece =
        append-IsPiece 0xa key (b'=' ∷ value) (key-IsPiece key valid) (value-IsPiece value fits)

    replace_lines-IsPiece :
        (replaced : Bool) (ls : List Text)
        → All (IsPiece 0xa) ls
        → All (IsPiece 0xa) (replace_lines key value replaced ls)
    unfolding replace_lines
    replace_lines-IsPiece true [] h = tt
    replace_lines-IsPiece false [] h = (assignment-IsPiece, tt)
    replace_lines-IsPiece true (l ∷ ls) h = elim (Option-cases (assigned key l)) [
      | inl e ↦ rw e (h.0, replace_lines-IsPiece true ls h.1)
      | inr (r, e) ↦ rw e (replace_lines-IsPiece true ls h.1)
    ]
    replace_lines-IsPiece false (l ∷ ls) h = elim (Option-cases (assigned key l)) [
      | inl e ↦ rw e (h.0, replace_lines-IsPiece false ls h.1)
      | inr (r, e) ↦ rw e (assignment-IsPiece, replace_lines-IsPiece true ls h.1)
    ]

  -- The lines of the rewritten file are those that were joined.
  split-rewritten :
      (ls : List Text)
      → All (IsPiece 0xa) ls
      → is_forbidden value ≡ false
      → split_on 0xa (join_with (text "\n") (replace_lines key value false ls) ++ text "\n")
        ≡ replace_lines key value false ls ++ [] ∷ []
  split-rewritten ls h fits = go (replace_lines key value false ls) refl
    where
      go :
          (ms : List Text)
          → replace_lines key value false ls ≡ ms
          → split_on 0xa (join_with (text "\n") (replace_lines key value false ls) ++ text "\n")
            ≡ replace_lines key value false ls ++ [] ∷ []
      go [] e = absurd (replace_lines-nonempty ls e)
      go (m ∷ ms) e = rw e (
          split_on-join 0xa m ms
            (subst (All (IsPiece 0xa)) e (replace_lines-IsPiece fits false ls h)))

  or_none : (o : Option Text) → or_value o none ≡ o
  or_none none = refl
  or_none (some v) = refl

  read-rewritten :
      (j : Text) (ls : List Text)
      → is_env_key j ≡ true
      → All (IsPiece 0xa) ls
      → is_forbidden value ≡ false
      → latest j none
          (split_on 0xa (join_with (text "\n") (replace_lines key value false ls) ++ text "\n"))
        ≡ (if eq_text key j then value_of (some value) else latest j none ls)
  read-rewritten j ls hj h fits =
      ap (latest j none) (split-rewritten ls h fits)
      ∙ latest-last_empty j none (replace_lines key value false ls)
      ∙ elim (Bool-cases (eq_text key j)) [
        | inl e ↦
            rw (e, sym ((eq_text_iff key j).0 e))
              (latest-same none ls ∙ or_none (value_of (some value)))
        | inr e ↦ rw e (latest-other j hj (λ f. cc ((eq_text_iff key j).1 f, e)) none false ls)
      ]

pop_empty-IsPiece : (ls : List Text) → All (IsPiece 0xa) ls → All (IsPiece 0xa) (pop_empty ls)
unfolding pop_empty
pop_empty-IsPiece [] h = tt
pop_empty-IsPiece ([] ∷ []) h = tt
pop_empty-IsPiece ((c ∷ s) ∷ []) h = h
pop_empty-IsPiece (l ∷ m ∷ ls) h = (h.0, pop_empty-IsPiece (m ∷ ls) h.1)

abbrev text_of : Written → Contents
text_of write_throws = fails
text_of (writes t) = holds t

read-write_contents :
    (key j value : Text) (contents : Contents) (t : Text)
    → is_env_key key ≡ true
    → is_env_key j ≡ true
    → is_forbidden value ≡ false
    → write_contents key value contents ≡ writes t
    → read_contents j (holds t)
      ≡ (if eq_text key j then reads (value_of (some value)) else read_contents j contents)
unfolding read_contents write_contents
read-write_contents key j value missing t hk hj fits e =
    ap (read_contents j) (sym (ap text_of e))
    ∙ ap reads (read-rewritten key value hk j [] hj tt fits)
    ∙ (unfold latest in ground arith)
read-write_contents key j value fails t hk hj fits e = cc e
read-write_contents key j value (holds u) t hk hj fits e =
    let lines : List Text = split_on 0xa u in
    let pieces : All (IsPiece 0xa) (pop_empty lines) =
      pop_empty-IsPiece lines (unfold split_on in split_from-IsPiece 0xa [] u refl) in
    ap (read_contents j) (sym (ap text_of e))
    ∙ ap reads (read-rewritten key value hk j (pop_empty lines) hj pieces fits)
    ∙ rw (latest-pop_empty j none lines) (ground arith)

accepted :
    (key value : Text) (contents : Contents) (t : Text)
    → write_env_file_value key value contents ≡ writes t
    → (is_env_key key ≡ true)
      × (is_forbidden value ≡ false)
      × (write_contents key value contents ≡ writes t)
unfolding write_env_file_value
accepted key value contents t e = elim (Bool-cases (is_env_key key)) [
  | inr f ↦ cc (rw f at e)
  | inl f ↦ elim (Bool-cases (is_forbidden value)) [
    | inl g ↦ cc (rw (f, g) at e)
    | inr g ↦ (f, g, rw (f, g) at e)
  ]
]

-- After a write to an env file, a read of that variable gives the value without the white space and
-- the pair of quotes around it, or nothing if the value has a character that ends a line for a
-- regex; and a read of any other variable gives what it gave before.
pub read-write_env_file_value :
    (key j value : Text) (contents : Contents) (t : Text)
    → write_env_file_value key value contents ≡ writes t
    → read_env_file_value j (holds t)
      ≡ (if eq_text key j then reads (value_of (some value)) else read_env_file_value j contents)
unfolding write_env_file_value read_env_file_value
read-write_env_file_value key j value contents t e =
    let (valid, fits, w) = accepted key value contents t e in
    elim (Bool-cases (is_env_key j)) [
      | inl h ↦ rw h (read-write_contents key j value contents t valid h fits w)
      | inr h ↦
          let other : eq_text key j ≡ false = elim (Bool-cases (eq_text key j)) [
            | inl f ↦ cc (valid, h, (eq_text_iff key j).0 f)
            | inr f ↦ f
          ] in
          rw (h, other) refl
    ]
