-- ===== src/Shared/Executor/Edit/Written.antt =====
-- packages/shared/src/executor/tools/fs-edit.ts: when a file is overwritten, and with what.
use constellation_mcp.Prelude.{
  ◌≡◌, ◌≢◌, ◌↔◌, refl, sym, ap, ◌⊎◌, inl, inr, ◌≤◌, ◌*◌, ℕ, Bool, true, false, Option, none, some,
  arith, Bool-cases, Option-cases,
}
use constellation_mcp.Prelude.Text.{Text}
use constellation_mcp.Shared.Executor.Edit.{
  EditFileParams, Thrown, Outcome, returns, throws, apply_edits, byte_length, exceeds, edit_file,
  Write, truncate_throws, stores, written, not_written,
}
use constellation_mcp.Shared.Executor.Edit.Applied.{Edits, apply_edits_iff}

-- The text has no more bytes than the limit, if there is one.
abbrev pub Fits : Option ℕ → Text → Type 0
Fits none t = Unit
Fits (some max) t = byte_length t ≤ max * 1024

exceeds-Fits : (max : Option ℕ) (t : Text) → exceeds max t ≡ none → Fits max t
unfolding exceeds
exceeds-Fits none t e = tt
exceeds-Fits (some max) t e = ground arith

Fits-exceeds : (max : Option ℕ) (t : Text) → Fits max t → exceeds max t ≡ none
unfolding exceeds
Fits-exceeds none t e = refl
Fits-exceeds (some max) t e = ground arith

outcome-cases : (o : Outcome) → ((t : Text) × (o ≡ returns t)) ⊎ ((t : Thrown) × (o ≡ throws t))
outcome-cases (returns t) = inl (t, refl)
outcome-cases (throws t) = inr (t, refl)

written-cases :
    (w : Write) (diff shown held : Text)
    → written w diff ≡ (some held, returns shown)
    → (w ≡ stores held true) × (diff ≡ shown)
written-cases truncate_throws diff shown held e = cc e
written-cases (stores t true) diff shown held e = (ap (λ u. stores u true) (cc e), cc e)
written-cases (stores t false) diff shown held e = cc e

unwritten :
    (w : Write) (diff : Text) (t : Thrown)
    → (written w diff).1 ≡ throws t
    → t ≢ not_written
    → (written w diff).0 ≡ none
unwritten truncate_throws diff t e n = refl
unwritten (stores held true) diff t e n = cc e
unwritten (stores held false) diff t e n = absurd (n (cc e))

module _ (create_patch : Text → Text → Text → Text) (stable : Bool) (original : Option Text)
    (write : Text → Write) (display : Text) (params : EditFileParams) where
  -- The edits can be made, and fit; `after` is what they make of the file.
  abbrev pub Makes : (after diff : Text) → Type 0
  Makes after diff =
      (stable ≡ true)
      × (params.dry_run ≡ false)
      × Fits params.max_file_size_kb after
      × (before : Text) × (original ≡ some before)
      × Edits params.edits before after
      × (diff ≡ create_patch display before after)

  edit_file-Edits :
      (held diff : Text)
      → edit_file create_patch stable original write display params ≡ (some held, returns diff)
      → (after : Text) × Makes after diff × (write after ≡ stores held true)
  unfolding edit_file
  edit_file-Edits held diff h = elim (Bool-cases stable) [
    | inr s ↦ cc (rw (edit_file, s) at h)
    | inl s ↦ elim (Option-cases original) [
      | inl o ↦ cc (rw (edit_file, s, o) at h)
      | inr (before, o) ↦ elim (outcome-cases (apply_edits 0 params.edits before)) [
        | inr (t, a) ↦ cc (rw (edit_file, s, o, a) at h)
        | inl (made, a) ↦ elim (Bool-cases params.dry_run) [
          | inl d ↦ cc (rw (edit_file, s, o, a, d) at h)
          | inr d ↦ elim (Option-cases (exceeds params.max_file_size_kb made)) [
            | inr (t, x) ↦ cc (rw (edit_file, s, o, a, d, x) at h)
            | inl x ↦
                let (w, shown) =
                  written-cases (write made) (create_patch display before made) diff held
                    (rw (edit_file, s, o, a, d, x) at h) in
                (
                  made,
                  (
                    s,
                    d,
                    exceeds-Fits params.max_file_size_kb made x,
                    before,
                    o,
                    (apply_edits_iff 0 params.edits before made).0 a,
                    sym shown,
                  ),
                  w,
                )
          ]
        ]
      ]
    ]
  ]

  Edits-edit_file :
      (held after diff : Text)
      → Makes after diff
      → write after ≡ stores held true
      → edit_file create_patch stable original write display params ≡ (some held, returns diff)
  unfolding edit_file
  Edits-edit_file held after diff (s, d, fits, before, o, made, shown) w =
      rw
        (
          edit_file,
          s,
          o,
          (apply_edits_iff 0 params.edits before after).1 made,
          d,
          Fits-exceeds params.max_file_size_kb after fits,
          w,
          shown,
        )
        refl

  -- The call changes the file and returns a diff, exactly if the path was stable, the file was read, it
  -- is no dry run, the edits make a text of the file, within the limit, of which the file holds what
  -- a write that returned has stored, and the diff is the one to that text.
  pub edit_file_iff :
      (held diff : Text)
      → (edit_file create_patch stable original write display params ≡ (some held, returns diff))
        ↔ ((after : Text) × Makes after diff × (write after ≡ stores held true))
  edit_file_iff held diff =
      (edit_file-Edits held diff, λ (after, makes, w). Edits-edit_file held after diff makes w)

  -- A dry run, and a call that throws before it truncates the file or because it cannot, leave the
  -- file as it is.
  pub edit_file_unwritten :
      (t : Thrown)
      → ((edit_file create_patch stable original write display params).1 ≡ throws t)
          × (t ≢ not_written)
        ⊎ (params.dry_run ≡ true)
      → (edit_file create_patch stable original write display params).0 ≡ none
  unfolding edit_file
  edit_file_unwritten t h = elim (Bool-cases stable) [
    | inr s ↦ rw (edit_file, s) refl
    | inl s ↦ elim (Option-cases original) [
      | inl o ↦ rw (edit_file, s, o) refl
      | inr (before, o) ↦ elim (outcome-cases (apply_edits 0 params.edits before)) [
        | inr (u, a) ↦ rw (edit_file, s, o, a) refl
        | inl (made, a) ↦ elim (Bool-cases params.dry_run) [
          | inl d ↦ rw (edit_file, s, o, a, d) refl
          | inr d ↦ elim (Option-cases (exceeds params.max_file_size_kb made)) [
            | inr (u, x) ↦ rw (edit_file, s, o, a, d, x) refl
            | inl x ↦ elim h [
              | inl (e, n) ↦
                  rw (edit_file, s, o, a, d, x)
                    (unwritten (write made) (create_patch display before made) t
                      (rw (edit_file, s, o, a, d, x) at e) n)
              | inr e ↦ cc (d, e)
            ]
          ]
        ]
      ]
    ]
  ]
