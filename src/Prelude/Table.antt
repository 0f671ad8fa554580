-- ===== src/Prelude/Table.antt =====
-- `Map` with texts for keys: a list of entries in insertion order. A key stands in it at most once,
-- as `put` replaces in place; the laws do not need it.
use mathlib.Core.Path.{◌≡◌, refl}
use mathlib.Core.Option.{Option, none, some}
use mathlib.Core.List.{List, [], ◌∷◌, Memᴰ}
use mathlib.Core.Bool.{false}
use native.Mathlib.Omega.{arith}
use mathlib.Core.Logic.{inl, inr}
use constellation_mcp.Prelude.Tests.{if◌then◌else◌, Bool-cases, Option-cases}
use constellation_mcp.Prelude.Text.{Text, eq_text, eq_text_iff}

abbrev pub Table {ℓ} : Type ℓ → Type ℓ
Table V = List (Text × V)

module _ {ℓ} {V : Type ℓ} where
  unfoldable pub get : Table V → Text → Option V
  get [] key = none
  get ((k, v) ∷ t) key = if eq_text k key then some v else get t key

  unfoldable pub put : Table V → Text → V → Table V
  put [] key v = (key, v) ∷ []
  put ((k, w) ∷ t) key v = if eq_text k key then (k, v) ∷ t else (k, w) ∷ put t key v

  unfoldable pub delete : Table V → Text → Table V
  delete [] key = []
  delete ((k, w) ∷ t) key = if eq_text k key then delete t key else (k, w) ∷ delete t key

  pub get-put :
      (t : Table V) (key j : Text) (v : V)
      → get (put t key v) j ≡ (if eq_text key j then some v else get t j)
  unfolding get put
  get-put [] key j v = refl
  get-put ((k, w) ∷ t) key j v =
      ground (arith, eq_text_iff k key, eq_text_iff key j, eq_text_iff k j, get-put t key j v)

  pub get-delete :
      (t : Table V) (key j : Text)
      → get (delete t key) j ≡ (if eq_text key j then none else get t j)
  unfolding get delete
  get-delete [] key j = ground arith
  get-delete ((k, w) ∷ t) key j =
      ground (arith, eq_text_iff k key, eq_text_iff key j, eq_text_iff k j, get-delete t key j)

  -- A loop over the entries that replaces the value of each or deletes the entry.
  unfoldable pub sift : (V → Option V) → Table V → Table V
  sift f [] = []
  sift f ((k, v) ∷ t) = elim (f v) [ none ↦ sift f t | some w ↦ (k, w) ∷ sift f t ]

  -- No key stands in the table twice.
  abbrev pub Distinct : Table V → Type ℓ
  Distinct [] = Unit
  Distinct ((k, v) ∷ t) = (get t k ≡ none) × Distinct t

  pub put-Distinct : (t : Table V) (key : Text) (v : V) → Distinct t → Distinct (put t key v)
  unfolding put get
  put-Distinct [] key v d = (refl, tt)
  put-Distinct ((k, w) ∷ t) key v d = elim (Bool-cases (eq_text k key)) [
    | inl e ↦ rw e d
    | inr e ↦
        let far : eq_text key k ≡ false = ground (arith, eq_text_iff k key, eq_text_iff key k) in
        rw e (rw (get-put t key k v) (rw far d.0), put-Distinct t key v d.1)
  ]

  abbrev pub sifted : (V → Option V) → Option V → Option V
  sifted f none = none
  sifted f (some v) = f v

  pub get-sift :
      (f : V → Option V) (t : Table V) (key : Text)
      → Distinct t
      → get (sift f t) key ≡ sifted f (get t key)
  unfolding sift get
  get-sift f [] key d = refl
  get-sift f ((k, v) ∷ t) key d =
      ground (arith, eq_text_iff k key, get-sift f t key d.1, get-sift f t k d.1, d.0)

  pub sift-Distinct : (f : V → Option V) (t : Table V) → Distinct t → Distinct (sift f t)
  unfolding sift get
  sift-Distinct f [] d = tt
  sift-Distinct f ((k, v) ∷ t) d = elim (Option-cases (f v)) [
    | inl e ↦ rw (e, sift) (sift-Distinct f t d.1)
    | inr (w, e) ↦ rw (e, sift) (rw (get-sift f t k d.1) (rw d.0 refl), sift-Distinct f t d.1)
  ]

  pub delete-Distinct : (t : Table V) (key : Text) → Distinct t → Distinct (delete t key)
  unfolding delete get
  delete-Distinct [] key d = tt
  delete-Distinct ((k, w) ∷ t) key d = ground (arith, get-delete t key k, delete-Distinct t key d.1)

  -- Each entry is found under its key.
  pub get-entry :
      (t : Table V) {key : Text} {v : V} → Distinct t → Memᴰ (key, v) t → get t key ≡ some v
  unfolding get
  get-entry [] d m = elim m [ ]
  get-entry ((k, w) ∷ t) {key} {v} d (Memᴰ.head e) = ground (arith, eq_text_iff k key)
  get-entry ((k, w) ∷ t) {key} {v} d (Memᴰ.tail m) =
      ground (arith, eq_text_iff k key, get-entry t d.1 m, d.0)
