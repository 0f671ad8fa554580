-- ===== src/Relay/Hub/Sync.antt =====
-- packages/relay/src/hub.ts: `handleHubShareSync`, with `sanitizeMultilineText` of
-- packages/shared/src/terminal-text.ts. The table of the hub shares is a list of rows. A message
-- is parsed JSON, and a property that is missing is `undefined`.
pub mod Stored
pub mod WellFormed
pub mod Tests
use constellation_mcp.Prelude.{
  ℕ, ◌+◌, Bool, true, false, not, ◌&&◌, ◌||◌, List, [], ◌∷◌, ◌++◌, Option, none, some, map,
  if◌then◌else◌, any, all, keep, length, ltb, leb, ◌==◌,
}
use constellation_mcp.Prelude.Text.{Text, text, eq_text, decimal}
use constellation_mcp.Prelude.Strings.{between, is_digit}
use constellation_mcp.Shared.Json.{
  is_object, Value, undefined, null, str, arr, obj, values, entries, own,
}
use constellation_mcp.Shared.Permissions.{
  PermissionOverride, for_sub, for_group, PermissionBlob, no_access, read_only, read_write,
}

unfoldable pub is_unsafe : ℕ → Bool
is_unsafe c =
    leb c 0x8
    || (between 0xb 0x1f c
        || (between 0x7f 0x9f c
            || (c == 0xad
                || (c == 0x61c
                    || (c == 0x180e
                        || (between 0x200b 0x200f c
                            || (between 0x2028 0x202e c
                                || (between 0x2060 0x206f c
                                    || (c == 0xfeff || between 0xfff9 0xfffb c)))))))))

unfoldable pub sanitize_multiline_text : Text → Text
sanitize_multiline_text = keep λ c. not (is_unsafe c)

unfoldable pub is_share_char : ℕ → Bool
is_share_char c =
    between b'A' b'Z' c
    || (between b'a' b'z' c || (is_digit c || (c == b'.' || (c == b'_' || c == b'-'))))

-- `SHARE_NAME_PATTERN.test(name)`.
unfoldable pub is_share_name : Text → Bool
is_share_name s = all is_share_char s && (ltb 0 (length s) && leb (length s) 64)

-- A property that `JSON.parse` made, `v[key]`.
unfoldable pub property : Value → Text → Value
property (obj fs) key = elim (own (entries fs) key) [ none ↦ undefined | some v ↦ v ]
property v key = undefined

unfoldable pub has_property : Value → Text → Bool
has_property (obj fs) key = elim (own (entries fs) key) [ none ↦ false | some v ↦ true ]
has_property v key = false

unfoldable pub is_undefined : Value → Bool
is_undefined undefined = true
is_undefined v = false

-- A text that is not empty.
unfoldable pub is_filled : Value → Bool
is_filled (str (c ∷ s)) = true
is_filled v = false

-- `validAccess.has(v)`.
unfoldable pub is_access : Value → Bool
is_access (str a) = eq_text a no_access || (eq_text a read_only || eq_text a read_write)
is_access v = false

unfoldable pub same_bool : Bool → Bool → Bool
same_bool true b = b
same_bool false b = not b

-- `problem`.
unfoldable pub override_problem : Value → Option Text
override_problem o =
    let sub = property o (text "sub") in
    let group = property o (text "group") in
    if not (is_object o)
    then some (text "must be an object")
    else if has_property o (text "oidc_sub")
    then some (
        text
          "uses the removed key oidc_sub; re-key it to sub (the asterism user id) or group (a group name)")
    else if (not (is_undefined sub) && not (is_filled sub))
        || ((not (is_undefined group) && not (is_filled group))
            || same_bool (is_filled sub) (is_filled group))
    then some (text "must have exactly one of sub or group (a non-empty string)")
    else if not (is_access (property o (text "access")))
    then some (text "access must be \"none\", \"read-only\", or \"read-write\"")
    else none

-- An error about the share of that name.
abbrev about : Text → Text → Text
about name problem = text "Share '" ++ (name ++ (text "': " ++ problem))

unfoldable pub check_overrides : Text → ℕ → List Value → Option Text
check_overrides name idx [] = none
check_overrides name idx (o ∷ os) =
    let later = check_overrides name (idx + 1) os in
    elim (override_problem o) [
      | some problem ↦ some (
          about name (text "permission_blob.overrides[" ++ (decimal idx ++ (text "] " ++ problem))))
      | none ↦ later
    ]

unfoldable pub check_override_list : Text → Value → Option Text
check_override_list name undefined = none
check_override_list name (arr os) = check_overrides name 0 (values os)
check_override_list name v = some (about name (text "permission_blob.overrides must be an array"))

unfoldable pub check_instructions : Text → Value → Option Text
check_instructions name undefined = none
check_instructions name (str s) =
    if ltb 4096 (length s)
    then some (about name (text "instructions must not exceed 4096 characters"))
    else none
check_instructions name v = some (about name (text "instructions must be a string"))

unfoldable pub first_of : Option Text → Option Text → Option Text
first_of (some e) later = some e
first_of none later = later

unfoldable pub check_blob : Text → Value → Option Text
check_blob name blob =
    if not (is_object blob)
    then some (about name (text "permission_blob must be an object"))
    else if not (is_access (property blob (text "default")))
    then some (
        about name
          (text "permission_blob.default must be \"none\", \"read-only\", or \"read-write\""))
    else check_override_list name (property blob (text "overrides"))

abbrev pub text_in : Value → Text
text_in (str s) = s
text_in v = []

-- A property that is a text; the checks come first.
unfoldable pub text_at : Value → Text → Text
text_at v key = text_in (property v key)

-- A round of the loop that validates the shares.
unfoldable pub check_entry : Value → Option Text
check_entry entry =
    let name = text_at entry (text "name") in
    if not (is_object entry)
    then some (text "Each share entry must be an object")
    else if not (is_filled (property entry (text "name")))
    then some (text "Each share entry must have a name string")
    else if not (is_share_name name)
    then some (text "Share name must be 1-64 characters: letters, digits, '.', '_' or '-'")
    else if not (is_filled (property entry (text "reported_path")))
    then some (about name (text "reported_path must be a non-empty string"))
    else first_of (check_blob name (property entry (text "permission_blob")))
        (check_instructions name (property entry (text "instructions")))

unfoldable pub check_entries : List Value → Option Text
check_entries [] = none
check_entries (v ∷ vs) = first_of (check_entry v) (check_entries vs)

-- A row of `hub_shares`.
pub record HubShare : Type 0 where
  pub executor_id : Text
  pub share : Text
  pub reported_path : Text
  pub permission_blob : Value
  pub instructions : Option Text

unfoldable pub is_row : Text → Text → HubShare → Bool
is_row executor_id share h = eq_text h.executor_id executor_id && eq_text h.share share

unfoldable pub clean_instructions : Value → Option Text
clean_instructions (str s) = some (sanitize_multiline_text s)
clean_instructions v = none

unfoldable pub row_of : Text → Value → HubShare
row_of executor_id entry = record {
  executor_id = executor_id;
  share = text_at entry (text "name");
  reported_path = text_at entry (text "reported_path");
  permission_blob = property entry (text "permission_blob");
  instructions = clean_instructions (property entry (text "instructions"));
}

-- `upsert`: no two rows have the same executor and share.
unfoldable pub upsert : HubShare → List HubShare → List HubShare
upsert h [] = h ∷ []
upsert h (g ∷ gs) = if is_row h.executor_id h.share g then h ∷ gs else g ∷ upsert h gs

unfoldable pub upsert_all : Text → List Value → List HubShare → List HubShare
upsert_all executor_id [] rows = rows
upsert_all executor_id (v ∷ vs) rows =
    upsert_all executor_id vs (upsert (row_of executor_id v) rows)

abbrev pub is_named : Text → Value → Bool
is_named name v = eq_text (text_at v (text "name")) name

-- `deleteMany`, of the rows whose share is not in the message.
unfoldable pub delete_missing : Text → List Value → List HubShare → List HubShare
delete_missing executor_id vs rows =
    keep (λ h. not (eq_text h.executor_id executor_id && not (any (is_named h.share) vs))) rows

pub data Reply : Type 0 where
  hub_share_sync_error : Text → Reply
  hub_share_sync_ok : Reply

-- `commits` is whether the transaction does not throw; if it does then no row changes.
unfoldable pub sync_shares :
    (commits : Bool) → Text → Option Text → List Value → List HubShare → List HubShare × Reply
sync_shares commits executor_id (some e) vs rows = (rows, hub_share_sync_error e)
sync_shares false executor_id none vs rows =
    (rows, hub_share_sync_error (text "Internal error during share sync"))
sync_shares true executor_id none vs rows =
    (delete_missing executor_id vs (upsert_all executor_id vs rows), hub_share_sync_ok)

unfoldable pub sync_value : (commits : Bool) → Text → Value → List HubShare → List HubShare × Reply
sync_value commits executor_id (arr vs) rows =
    if ltb 1000 (length (values vs))
    then (rows, hub_share_sync_error (text "hub_share_sync may carry at most 1000 shares"))
    else sync_shares commits executor_id (check_entries (values vs)) (values vs) rows
sync_value commits executor_id v rows =
    (rows, hub_share_sync_error (text "shares must be an array"))

-- `is_hub` is whether the connection's token is a hub's.
unfoldable pub handle_hub_share_sync :
    (commits is_hub : Bool)
    → (executor_id : Text) → (shares : Value) → List HubShare
    → List HubShare × Reply
handle_hub_share_sync commits is_hub executor_id shares rows =
    if not is_hub
    then (
      rows,
      hub_share_sync_error
          (text "hub_share_sync is only valid for HUB tokens (ExecutorTokenType.HUB)"),
    )
    else sync_value commits executor_id shares rows

-- What `evaluatePermissionBlob` reads of a stored blob.
unfoldable pub override_of : Value → PermissionOverride
override_of o =
    if is_filled (property o (text "sub"))
    then for_sub (text_at o (text "sub")) (text_at o (text "access"))
    else for_group (text_at o (text "group")) (text_at o (text "access"))

unfoldable pub overrides_of : Value → Option (List PermissionOverride)
overrides_of (arr os) = some (map override_of (values os))
overrides_of v = none

unfoldable pub blob_of : Value → PermissionBlob
blob_of v = record {
  default = text_at v (text "default");
  overrides = overrides_of (property v (text "overrides"));
}
