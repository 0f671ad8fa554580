-- ===== src/Relay/Hub/Sync/WellFormed.antt =====
-- packages/relay/src/hub.ts: the permission blobs that `handleHubShareSync` accepts.
use constellation_mcp.Prelude.{
  ◌≡◌, refl, sym, ◌∙◌, inl, inr, ◌↔◌, ◌⊎◌, ℕ, ◌+◌, Bool, true, false, List, [], ◌∷◌, Option, none,
  some, map, if-case, find, ltb, length, arith, Bool-cases, Option-cases, Memᴰ, All, All-mem, subst,
}
use constellation_mcp.Prelude.Text.{Text, text, eq_text_refl}
use constellation_mcp.Shared.Json.{Value, undefined, null, bool, num, str, arr, obj, values}
use constellation_mcp.Shared.Permissions.{
  for_sub, for_group, PermissionSubject, access, rank, listed, evaluate_permission_blob,
}
use constellation_mcp.Shared.Permissions.Best.{IsNumber, ArePlain, rank-IsNumber}
use constellation_mcp.Shared.Permissions.Access.{Grants, evaluate_iff}
use constellation_mcp.Relay.Hub.Sync.{
  property, is_filled, is_access, text_in, override_problem, check_overrides, check_override_list,
  first_of, check_blob, text_at, check_entry, check_entries, HubShare, is_row, row_of, is_named,
  Reply, hub_share_sync_ok, sync_shares, sync_value, handle_hub_share_sync, override_of,
  overrides_of, blob_of,
}
use constellation_mcp.Relay.Hub.Sync.Stored.{
  stored, entries_of, promised, handle_hub_share_sync-rows,
}

abbrev Level : Text → Type 0
Level a = IsNumber (rank a)

value-Level : (v : Value) → is_access v ≡ true → Level (text_in v)
unfolding is_access
value-Level undefined h = cc h
value-Level null h = cc h
value-Level (bool b) h = cc h
value-Level (num n) h = cc h
value-Level (str a) h = rank-IsNumber a h
value-Level (arr vs) h = cc h
value-Level (obj fs) h = cc h

override_problem-Level : (o : Value) → override_problem o ≡ none → Level (text_at o (text "access"))
unfolding override_problem text_at
override_problem-Level o h = value-Level (property o (text "access")) (ground arith)

override_of-access : (o : Value) → access (override_of o) ≡ text_at o (text "access")
unfolding override_of
override_of-access o =
    if-case (λ p. access p ≡ text_at o (text "access")) (is_filled (property o (text "sub")))
      (for_sub (text_at o (text "sub")) (text_at o (text "access")))
      (for_group (text_at o (text "group")) (text_at o (text "access"))) (λ e. refl) λ e. refl

module _ (groups : List Text) (name : Text) where
  check_overrides-ArePlain :
      (i : ℕ) (os : List Value)
      → check_overrides name i os ≡ none
      → ArePlain groups (map override_of os)
  unfolding check_overrides
  check_overrides-ArePlain i [] h = tt
  check_overrides-ArePlain i (o ∷ os) h = elim (Option-cases (override_problem o)) [
    | inr (p, e) ↦ cc (rw (e, check_overrides) at h)
    | inl e ↦ (
      λ k. rw (override_of-access o) (override_problem-Level o e),
      check_overrides-ArePlain (i + 1) os (rw (e, check_overrides) at h),
    )
  ]

  check_override_list-ArePlain :
      (v : Value) → check_override_list name v ≡ none → ArePlain groups (listed (overrides_of v))
  unfolding check_override_list overrides_of
  check_override_list-ArePlain undefined h = tt
  check_override_list-ArePlain null h = tt
  check_override_list-ArePlain (bool b) h = tt
  check_override_list-ArePlain (num n) h = tt
  check_override_list-ArePlain (str s) h = tt
  check_override_list-ArePlain (arr os) h = check_overrides-ArePlain 0 (values os) h
  check_override_list-ArePlain (obj fs) h = tt

  check_blob-ArePlain :
      (v : Value) → check_blob name v ≡ none → ArePlain groups (listed (blob_of v).overrides)
  unfolding check_blob blob_of
  check_blob-ArePlain v h =
      check_override_list-ArePlain (property v (text "overrides")) (ground arith)

stored-from :
    (id n : Text) (vs : List Value) (old : Option HubShare) (h : HubShare)
    → stored id n vs old ≡ some h
    → (old ≡ some h) ⊎ ((v : Value) × Memᴰ v vs × (row_of id v ≡ h))
unfolding stored
stored-from id n [] old h e = inl e
stored-from id n (v ∷ vs) old h e = elim (stored-from id n vs _ h e) [
  | inr (w, m, f) ↦ inr (w, Memᴰ.tail m, f)
  | inl f ↦ elim (Bool-cases (is_named n v)) [
    | inl g ↦ inr (v, Memᴰ.head refl, cc (rw g at f))
    | inr g ↦ inl (rw g at f)
  ]
]

check_entries-All : (vs : List Value) → check_entries vs ≡ none → All (λ v. check_entry v ≡ none) vs
unfolding check_entries first_of
check_entries-All [] h = tt
check_entries-All (v ∷ vs) h = elim (Option-cases (check_entry v)) [
  | inr (p, e) ↦ cc (rw e at h)
  | inl e ↦ (e, check_entries-All vs (rw e at h))
]

check_entry-ArePlain :
    (groups : List Text) (id : Text) (v : Value)
    → check_entry v ≡ none
    → ArePlain groups (listed (blob_of (row_of id v).permission_blob).overrides)
unfolding check_entry first_of row_of
check_entry-ArePlain groups id v h =
    check_blob-ArePlain groups (text_at v (text "name")) (property v (text "permission_blob"))
      (ground arith)

module _ (id : Text) (rows after : List HubShare) where
  sync_shares-accepted :
      (commits : Bool) (o : Option Text) (vs : List Value)
      → sync_shares commits id o vs rows ≡ (after, hub_share_sync_ok)
      → o ≡ none
  unfolding sync_shares
  sync_shares-accepted commits (some p) vs e = cc e
  sync_shares-accepted commits none vs e = refl

  sync_value-accepted :
      (commits : Bool) (shares : Value)
      → sync_value commits id shares rows ≡ (after, hub_share_sync_ok)
      → check_entries (entries_of shares) ≡ none
  unfolding sync_value
  sync_value-accepted commits undefined e = cc e
  sync_value-accepted commits null e = cc e
  sync_value-accepted commits (bool b) e = cc e
  sync_value-accepted commits (num n) e = cc e
  sync_value-accepted commits (str s) e = cc e
  sync_value-accepted commits (obj fs) e = cc e
  sync_value-accepted commits (arr vs) e = elim (Bool-cases (ltb 1000 (length (values vs)))) [
    | inl f ↦ cc (rw f at e)
    | inr f ↦ sync_shares-accepted commits _ (values vs) (rw f at e)
  ]

  accepted :
      (commits is_hub : Bool) (shares : Value)
      → handle_hub_share_sync commits is_hub id shares rows ≡ (after, hub_share_sync_ok)
      → check_entries (entries_of shares) ≡ none
  unfolding handle_hub_share_sync
  accepted commits true shares e = sync_value-accepted commits shares e
  accepted commits false shares e = cc e

-- After a sync that was answered with ok, the permission blob of each of the executor's shares gives a
-- user a level exactly when the rules do.
pub synced-Grants :
    (commits is_hub : Bool) (id : Text) (shares : Value) (rows after : List HubShare) (h : HubShare)
    (subject : PermissionSubject) (level : Text)
    → handle_hub_share_sync commits is_hub id shares rows ≡ (after, hub_share_sync_ok)
    → find (is_row id h.share) after ≡ some h
    → (evaluate_permission_blob (blob_of h.permission_blob) subject ≡ level)
      ↔ Grants (blob_of h.permission_blob) subject level
synced-Grants commits is_hub id shares rows after h subject level e f =
    let vs : List Value = entries_of shares in
    let row : find (is_row id h.share) after ≡ stored id h.share vs none =
      subst
        (λ (r : List HubShare × Reply).
          find (is_row id h.share) r.0 ≡ promised id id h.share shares rows r.1)
        e (handle_hub_share_sync-rows id id h.share rows commits is_hub shares)
      ∙ rw (eq_text_refl id) refl in
    elim (stored-from id h.share vs none h (sym row ∙ f)) [
      | inl g ↦ cc g
      | inr (v, m, g) ↦
          let ok : check_entry v ≡ none =
            All-mem (λ w. check_entry w ≡ none) vs
              (check_entries-All vs (accepted id rows after commits is_hub shares e)) m in
          evaluate_iff (blob_of h.permission_blob) subject
            (subst
              (λ (x : HubShare).
                ArePlain subject.groups (listed (blob_of x.permission_blob).overrides))
              g (check_entry-ArePlain subject.groups id v ok))
            level
    ]
