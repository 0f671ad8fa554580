-- ===== src/Hub/Permissions/Laws.antt =====
-- Who may invoke what: the hub's checks against one condition on each share of the request.
use constellation_mcp.Prelude.{
  ◌≡◌, refl, sym, ◌∙◌, ap, ◌⊎◌, inl, inr, ◌≢◌, ◌↔◌, false, List, [], ◌∷◌, Option, none, some, arith,
  Bool-cases, Option-cases, find, subst,
}
use mathlib.Core.Option.{some-injective}
use constellation_mcp.Prelude.Text.{Text, eq_text, eq_text→eq, eq_text_refl, eq_text_iff}
use constellation_mcp.Shared.Permissions.{
  PermissionSubject, evaluate_permission_blob, read_only, read_write,
}
use constellation_mcp.Hub.Permissions.{
  ShareConfig, PermissionResult, permitted, refused, is_write_tool, check_level, check_permission,
  check_destination, check_rpc_permission,
}

result-cases :
    (r : PermissionResult)
    → ((l : Text) × (r ≡ permitted l)) ⊎ ((why : Text) × (r ≡ PermissionResult.refused why))
result-cases (permitted l) = inl (l, refl)
result-cases (refused why) = inr (why, refl)

-- The first share of the configuration that has the name.
pub data FirstNamed (name : Text) (c : ShareConfig) : List ShareConfig → Type 0 where
  here :
      {s : ShareConfig} {ss : List ShareConfig} → s ≡ c → c.name ≡ name → FirstNamed name c (s ∷ ss)
  there :
      {s : ShareConfig} {ss : List ShareConfig}
      → s.name ≢ name
      → FirstNamed name c ss
      → FirstNamed name c (s ∷ ss)

-- The level is one that grants something, and one that grants writing if the tool writes.
abbrev pub Suffices : Text → Text → Type 0
Suffices tool level = (level ≡ read_write) ⊎ ((level ≡ read_only) × (is_write_tool tool ≡ false))

-- The user may invoke the tool on the share of that name.
abbrev pub May : PermissionSubject → Text → List ShareConfig → Text → Type 0
May subject tool shares name =
    (c : ShareConfig) × FirstNamed name c shares
    × Suffices tool (evaluate_permission_blob c.permissions subject)

find-FirstNamed :
    (name : Text) (shares : List ShareConfig) (c : ShareConfig)
    → find (λ s. eq_text s.name name) shares ≡ some c
    → FirstNamed name c shares
find-FirstNamed name [] c e = cc
find-FirstNamed name (s ∷ ss) c e = elim (Bool-cases (eq_text s.name name)) [
  | inl hit ↦
      let same : s ≡ c = ground arith in
      here same (subst (λ (d : ShareConfig). d.name ≡ name) same (eq_text→eq s.name name hit))
  | inr miss ↦
      there (λ q. ground (arith, eq_text_refl name)) (find-FirstNamed name ss c (ground arith))
]

FirstNamed-find :
    {name : Text} {c : ShareConfig} {shares : List ShareConfig}
    → FirstNamed name c shares
    → find (λ s. eq_text s.name name) shares ≡ some c
FirstNamed-find {name} {c} (here {s} {ss} e f) =
    let named : s.name ≡ name = rw e f in rw ((eq_text_iff s.name name).1 named) (ap some e)
FirstNamed-find {name} (there {s} {ss} n f) =
    ground (arith, eq_text→eq s.name name, FirstNamed-find f)

check_level-Suffices :
    (share tool level : Text) {l : Text}
    → check_level share tool level ≡ permitted l
    → (level ≡ l) × Suffices tool level
unfolding check_level
check_level-Suffices share tool level e =
    ground (arith, eq_text→eq level read_only, eq_text→eq level read_write)

ro_not_rw : eq_text read_write read_only ≡ false
unfolding eq_text
ro_not_rw = refl

Suffices-check_level :
    (share tool level : Text) → Suffices tool level → check_level share tool level ≡ permitted level
unfolding check_level
Suffices-check_level share tool level (inl e) =
    rw e (rw (ro_not_rw, eq_text_refl read_write) (ground arith))
Suffices-check_level share tool level (inr (e, f)) = rw (f, e) (rw (eq_text_refl read_only) refl)

module _ (subject : PermissionSubject) (tool : Text) (shares : List ShareConfig) where
  permitted-May :
      (name : Text) (l : Text)
      → check_permission subject name tool shares ≡ permitted l
      → May subject tool shares name
  unfolding check_permission
  permitted-May name l e =
      elim (Option-cases (find (λ (s : ShareConfig). eq_text s.name name) shares)) [
        | inl f ↦ cc (rw (f, check_permission) at e)
        | inr (c, f) ↦ (
          c,
          find-FirstNamed name shares c f,
          (check_level-Suffices name tool _ (rw (f, check_permission) at e)).1,
        )
      ]

  May-permitted :
      (name : Text)
      → May subject tool shares name
      → (l : Text) × (check_permission subject name tool shares ≡ permitted l)
  unfolding check_permission
  May-permitted name (c, first, s) = (
    evaluate_permission_blob c.permissions subject,
    rw (FirstNamed-find first, check_permission) (Suffices-check_level name tool _ s),
  )

  -- The source share's condition, and that of the destination share if the request names one.
  abbrev pub MayRpc : Text → Option Text → Type 0
  MayRpc share dst =
      May subject tool shares share × ((d : Text) → dst ≡ some d → May subject tool shares d)

  check_destination-May :
      (share : Text) (dst : Option Text)
      → check_destination subject share dst tool shares ≡ permitted
      → May subject tool shares share
      → (d : Text) → dst ≡ some d
      → May subject tool shares d
  unfolding check_destination
  check_destination-May share none e may d f = cc
  check_destination-May share (some b) e may d f = elim (Bool-cases (eq_text b share)) [
    | inl same ↦
        let q : share ≡ d = sym (eq_text→eq b share same) ∙ some-injective b d f in
        subst (May subject tool shares) q may
    | inr other ↦ elim (result-cases (check_permission subject b tool shares)) [
      | inl (l, g) ↦ subst (May subject tool shares) (some-injective b d f) (permitted-May b l g)
      | inr (why, g) ↦ cc (rw (other, g, check_destination) at e)
    ]
  ]

  May-check_destination :
      (share : Text) (dst : Option Text)
      → ((d : Text) → dst ≡ some d → May subject tool shares d)
      → check_destination subject share dst tool shares ≡ permitted
  unfolding check_destination
  May-check_destination share none may = refl
  May-check_destination share (some d) may =
      let (l, e) = May-permitted d (may d refl) in ground arith

  -- An RPC is permitted exactly when the user may invoke the tool on the source share and, if the
  -- request names a destination share, on that one too.
  pub check_rpc_permission_iff :
      (share : Text) (dst : Option Text)
      → (check_rpc_permission subject share dst tool shares ≡ permitted) ↔ MayRpc share dst
  unfolding check_rpc_permission
  check_rpc_permission_iff share dst = (forth, back)
    where
      forth : check_rpc_permission subject share dst tool shares ≡ permitted → MayRpc share dst
      forth e = elim (result-cases (check_permission subject share tool shares)) [
        | inl (l, f) ↦
            let may = permitted-May share l f in
            (may, check_destination-May share dst (rw (f, check_rpc_permission) at e) may)
        | inr (why, f) ↦ cc (rw (f, check_rpc_permission) at e)
      ]

      back : MayRpc share dst → check_rpc_permission subject share dst tool shares ≡ permitted
      back (may, may_dst) =
          let (l, e) = May-permitted share may in
          rw (e, check_rpc_permission) (May-check_destination share dst may_dst)
