-- ===== src/Relay/Hub/Sync/Tests.antt =====
-- packages/relay/src/hub.ts: examples of `handleHubShareSync`.
use constellation_mcp.Prelude.{◌≡◌, refl, ◌↔◌, true, [], ◌∷◌, some, find}
use constellation_mcp.Prelude.Text.{text, eq_text}
use constellation_mcp.Prelude.Strings.{is_digit}
use constellation_mcp.Shared.Json.{
  is_object, Value, str, arr, obj, nil, cons, end, field, entries, own,
}
use constellation_mcp.Shared.Permissions.{evaluate_permission_blob, PermissionSubject, read_write}
use constellation_mcp.Shared.Permissions.Access.{Grants}
use constellation_mcp.Relay.Hub.Sync.{
  is_unsafe, sanitize_multiline_text, is_share_char, is_share_name, property, has_property,
  is_undefined, is_filled, is_access, same_bool, override_problem, check_overrides,
  check_override_list, check_instructions, first_of, check_blob, text_at, check_entry,
  check_entries, HubShare, is_row, clean_instructions, row_of, upsert, upsert_all, delete_missing,
  hub_share_sync_ok, sync_shares, sync_value, handle_hub_share_sync, blob_of,
}
use constellation_mcp.Relay.Hub.Sync.Stored.{handle_hub_share_sync-rows, promised}
use constellation_mcp.Relay.Hub.Sync.WellFormed.{synced-Grants}

abbrev blob : Value
blob = obj (
    field (text "default") (str (text "none")) (
      field (text "overrides")
        (arr (
          cons
            (obj (
              field (text "group") (str (text "staff"))
                (field (text "access") (str (text "read-write")) end)))
            nil))
        end))

abbrev shares : Value
shares = arr (
    cons
      (obj (
        field (text "name") (str (text "docs")) (
          field (text "reported_path") (str (text "/srv/docs")) (
            field (text "permission_blob") blob
              (field (text "instructions") (str (text "Read.")) end)))))
      nil)

abbrev docs : HubShare
docs = record {
  executor_id = text "hub";
  share = text "docs";
  reported_path = text "/srv/docs";
  permission_blob = blob;
  instructions = some (text "Read.");
}

abbrev other : HubShare
other = record docs { executor_id = text "b" }

abbrev old : HubShare
old = record docs { share = text "old" }

synced :
    handle_hub_share_sync true true (text "hub") shares (old ∷ other ∷ [])
    ≡ (other ∷ docs ∷ [], hub_share_sync_ok)
unfolding handle_hub_share_sync sync_value sync_shares check_entries first_of check_entry check_blob
    check_override_list check_overrides override_problem check_instructions is_object is_filled
    is_undefined is_access same_bool property has_property text_at is_share_name is_share_char
    is_digit own entries eq_text row_of clean_instructions sanitize_multiline_text is_unsafe
    upsert_all upsert is_row delete_missing
synced = refl

handle_hub_share_sync-rows_example :
    let (after, reply) = handle_hub_share_sync true true (text "hub") shares (old ∷ other ∷ []) in
    find (is_row (text "b") (text "docs")) after
    ≡ promised (text "hub") (text "b") (text "docs") shares (old ∷ other ∷ []) reply
handle_hub_share_sync-rows_example =
    handle_hub_share_sync-rows (text "hub") (text "b") (text "docs") (old ∷ other ∷ []) true true
      shares

abbrev bob : PermissionSubject
bob = record { sub = some (text "bob"); groups = text "staff" ∷ [] }

synced_docs : find (is_row (text "hub") (text "docs")) (other ∷ docs ∷ []) ≡ some docs
unfolding is_row eq_text
synced_docs = refl

synced-Grants_example :
    (evaluate_permission_blob (blob_of blob) bob ≡ read_write)
    ↔ Grants (blob_of blob) bob read_write
synced-Grants_example =
    synced-Grants true true (text "hub") shares (old ∷ other ∷ []) (other ∷ docs ∷ []) docs bob
      read_write synced synced_docs
