-- ===== src/Hub/Identity/Exact.antt =====
-- packages/hub/src/identity.ts: the account of a name is the passwd entry of exactly that name.
use constellation_mcp.Prelude.{
  ◌≡◌, refl, sym, ap, ◌∙◌, ◌↔◌, inl, inr, true, some, Bool-cases, Option-cases, subst,
}
use mathlib.Core.Option.{some-injective}
use constellation_mcp.Prelude.Text.{eq_text, eq_text→eq, eq_text_refl}
use constellation_mcp.Shared.Json.{Value, str}
use constellation_mcp.Hub.Identity.{
  Getent, Passwd, getpwnam, is_username, ResolvedIdentity, exact, resolve_os_user,
}

abbrev pub entry_of : ResolvedIdentity → Passwd
entry_of id = record { name = id.username; uid = id.uid; gid = id.gid; home = id.home }

-- The value is the account's name, a valid one, and the passwd entry for that name has it.
pub record IsAccount (getent : Getent) (v : Value) (id : ResolvedIdentity) : Type 0 where
  pub named : v ≡ str id.username
  pub valid : is_username id.username ≡ true
  pub listed : getpwnam getent id.username ≡ some (entry_of id)

passwd_eta :
    (pw : Passwd) → pw ≡ record { name = pw.name; uid = pw.uid; gid = pw.gid; home = pw.home }
passwd_eta pw = refl

module _ (getent : Getent) where
  resolve_os_user-IsAccount :
      (v : Value) (id : ResolvedIdentity)
      → resolve_os_user getent v ≡ some id
      → IsAccount getent v id
  unfolding resolve_os_user exact
  resolve_os_user-IsAccount (str t) id e = elim (Bool-cases (is_username t)) [
    | inr bad ↦ cc (rw (bad, resolve_os_user) at e)
    | inl good ↦ elim (Option-cases (getpwnam getent t)) [
      | inl f ↦ cc (rw (good, f, resolve_os_user) at e)
      | inr (pw, f) ↦ elim (Bool-cases (eq_text pw.name t)) [
        | inr other ↦ cc (rw (good, f, other, resolve_os_user) at e)
        | inl same ↦
            let got : some
                  (record { username = pw.name; uid = pw.uid; gid = pw.gid; home = pw.home })
                ≡ some id =
              rw (good, f, same, resolve_os_user) at e in
            let is_id = some-injective _ id got in
            let name : t ≡ id.username =
              sym (eq_text→eq pw.name t same) ∙ ap (λ (i : ResolvedIdentity). i.username) is_id in
            record {
              named = ap str name;
              valid = rw (← name) good;
              listed =
                  subst (λ t. getpwnam getent t ≡ some (entry_of id)) name
                    (f ∙ ap some (passwd_eta pw) ∙ ap (λ i. some (entry_of i)) is_id);
            }
      ]
    ]
  ]
  resolve_os_user-IsAccount v id e = cc e

  IsAccount-resolve_os_user :
      (v : Value) (id : ResolvedIdentity)
      → IsAccount getent v id
      → resolve_os_user getent v ≡ some id
  unfolding resolve_os_user exact
  IsAccount-resolve_os_user v id a =
      rw (a.named, resolve_os_user, a.valid, a.listed, exact, eq_text_refl id.username) refl

  -- A value resolves to an account exactly when it is the account's valid name and the passwd entry
  -- for that name has the very same name: no UID and no alias resolves.
  pub resolve_os_user_iff :
      (v : Value) (id : ResolvedIdentity)
      → (resolve_os_user getent v ≡ some id) ↔ IsAccount getent v id
  resolve_os_user_iff v id = (resolve_os_user-IsAccount v id, IsAccount-resolve_os_user v id)
