-- ===== src/Relay/Hub/Sync/Stored.antt =====
-- packages/relay/src/hub.ts: the rows after `handleHubShareSync`.
use constellation_mcp.Prelude.{
  ◌≡◌, refl, ◌∙◌, inl, inr, Bool, true, false, not, ◌&&◌, List, [], ◌∷◌, Option, none, some,
  if◌then◌else◌, if-case, any, find, keep, ltb, length, arith, Bool-cases,
}
use constellation_mcp.Prelude.Text.{Text, eq_text, eq_text_iff}
use constellation_mcp.Shared.Json.{Value, undefined, null, bool, num, str, arr, obj, Values, values}
use constellation_mcp.Relay.Hub.Sync.{
  HubShare, is_row, row_of, upsert, upsert_all, is_named, delete_missing, Reply,
  hub_share_sync_error, hub_share_sync_ok, sync_shares, sync_value, handle_hub_share_sync,
  check_entries,
}

-- The row that the entries make of a name: the last of them that has it counts.
unfoldable pub stored : Text → Text → List Value → Option HubShare → Option HubShare
stored executor_id name [] old = old
stored executor_id name (v ∷ vs) old =
    stored executor_id name vs (if is_named name v then some (row_of executor_id v) else old)

find-upsert :
    (e n : Text) (h : HubShare) (rows : List HubShare)
    → find (is_row e n) (upsert h rows) ≡ (if is_row e n h then some h else find (is_row e n) rows)
unfolding upsert is_row
find-upsert e n h [] = refl
find-upsert e n h (g ∷ gs) = ground (
  arith,
  find-upsert e n h gs,
  eq_text_iff g.executor_id h.executor_id,
  eq_text_iff g.share h.share,
  eq_text_iff h.executor_id e,
  eq_text_iff g.executor_id e,
  eq_text_iff h.share n,
  eq_text_iff g.share n,
)

find-upsert_all :
    (id e n : Text) (vs : List Value) (rows : List HubShare)
    → find (is_row e n) (upsert_all id vs rows)
      ≡ (if eq_text id e then stored id n vs (find (is_row e n) rows) else find (is_row e n) rows)
unfolding upsert_all stored is_row row_of
find-upsert_all id e n [] rows = ground arith
find-upsert_all id e n (v ∷ vs) rows =
    find-upsert_all id e n vs (upsert (row_of id v) rows)
    ∙ rw (find-upsert e n (row_of id v) rows)
        (elim (Bool-cases (eq_text id e)) [ inl f ↦ rw f refl | inr f ↦ rw f refl ])

-- Rows that are kept or deleted by their executor and share.
find-keep :
    (p q : HubShare → Bool) (b : Bool)
    → ((h : HubShare) → q h ≡ true → p h ≡ b)
    → (rows : List HubShare) → find q (keep p rows) ≡ (if b then find q rows else none)
find-keep p q b same [] = ground arith
find-keep p q b same (h ∷ hs) = ground (arith, find-keep p q b same hs, same h)

stored-named :
    (id n : Text) (vs : List Value) (old : Option HubShare)
    → stored id n vs none ≡ (if any (is_named n) vs then stored id n vs old else none)
unfolding stored
stored-named id n [] old = refl
stored-named id n (v ∷ vs) old =
    ground (arith, stored-named id n vs old, stored-named id n vs (some (row_of id v)))

abbrev pub entries_of : Value → List Value
entries_of (arr vs) = values vs
entries_of v = []

-- The row of a name that the reply promises.
abbrev pub promised : Text → Text → Text → Value → List HubShare → Reply → Option HubShare
promised id e n shares rows (hub_share_sync_error message) = find (is_row e n) rows
promised id e n shares rows hub_share_sync_ok =
    if eq_text id e then stored id n (entries_of shares) none else find (is_row e n) rows

module _ (id e n : Text) (rows : List HubShare) where
  abbrev Keeps : Value → List HubShare × Reply → Type 0
  Keeps shares (after, reply) = find (is_row e n) after ≡ promised id e n shares rows reply

  delete_missing-row :
      (vs : List Value) (rs : List HubShare)
      → find (is_row e n) (delete_missing id vs rs)
        ≡ (if not (eq_text e id && not (any (is_named n) vs)) then find (is_row e n) rs else none)
  unfolding delete_missing is_row
  delete_missing-row vs rs =
      find-keep _ (is_row e n) _
        (λ h f.
          let on : h.executor_id ≡ e = (eq_text_iff h.executor_id e).0 (ground arith) in
          let of : h.share ≡ n = (eq_text_iff h.share n).0 (ground arith) in rw (on, of) refl)
        rs

  synced-row :
      (vs : List Value)
      → find (is_row e n) (delete_missing id vs (upsert_all id vs rows))
        ≡ (if eq_text id e then stored id n vs none else find (is_row e n) rows)
  synced-row vs =
      delete_missing-row vs (upsert_all id vs rows)
      ∙ rw (find-upsert_all id e n vs rows) (
          rw (stored-named id n vs (find (is_row e n) rows))
            (ground (arith, eq_text_iff e id, eq_text_iff id e)))

  sync_shares-Keeps :
      (commits : Bool) (o : Option Text) (vs : Values)
      → Keeps (arr vs) (sync_shares commits id o (values vs) rows)
  unfolding sync_shares
  sync_shares-Keeps commits (some message) vs = refl
  sync_shares-Keeps false none vs = refl
  sync_shares-Keeps true none vs = synced-row (values vs)

  sync_value-Keeps :
      (commits : Bool) (shares : Value) → Keeps shares (sync_value commits id shares rows)
  unfolding sync_value
  sync_value-Keeps commits undefined = refl
  sync_value-Keeps commits null = refl
  sync_value-Keeps commits (bool b) = refl
  sync_value-Keeps commits (num n) = refl
  sync_value-Keeps commits (str s) = refl
  sync_value-Keeps commits (obj fs) = refl
  sync_value-Keeps commits (arr vs) =
      if-case (Keeps (arr vs)) (ltb 1000 (length (values vs))) _ _ (λ f. refl)
        λ f. sync_shares-Keeps commits (check_entries (values vs)) vs

  -- If the sync is answered with ok then the executor's rows are those of the message, where the last
  -- entry of a name counts, and the rows of the other executors are as they were; if it is
  -- answered with an error then no row has changed.
  pub handle_hub_share_sync-rows :
      (commits is_hub : Bool) (shares : Value)
      → let (after, reply) = handle_hub_share_sync commits is_hub id shares rows in
        find (is_row e n) after ≡ promised id e n shares rows reply
  unfolding handle_hub_share_sync
  handle_hub_share_sync-rows commits is_hub shares =
      if-case (Keeps shares) (not is_hub) _ _ (λ f. refl) λ f. sync_value-Keeps commits shares
