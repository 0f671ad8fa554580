-- ===== src/Hub/Identity/Tiers.antt =====
-- packages/hub/src/identity.ts: which of the claims and the user map names the account.
use constellation_mcp.Prelude.{
  ◌≡◌, refl, sym, ap, ◌∙◌, ◌↔◌, ◌≢◌, ◌⊎◌, inl, inr, List, [], ◌∷◌, Option, none, some, Bool-cases,
  Option-cases, All, find, subst,
}
use mathlib.Core.Option.{some-injective}
use constellation_mcp.Prelude.Text.{Text, eq_text, eq_text→eq, eq_text_refl}
use constellation_mcp.Shared.Json.{Value, str, undefined, Object, own}
use constellation_mcp.Hub.Identity.{
  Getent, ResolvedIdentity, UserMapEntry, IdentityConfig, resolved, first_claim, or_refused, by_map,
  resolve_identity,
}
use constellation_mcp.Hub.Identity.Exact.{IsAccount, resolve_os_user_iff}

-- The claim is absent.
abbrev pub IsAbsent : Object → Text → Type 0
IsAbsent claims name = (own claims name ≡ none) ⊎ (own claims name ≡ some undefined)

-- The first of the claims that is there has the value `v`.
pub data FirstValue (claims : Object) (v : Value) : List Text → Type 0 where
  here :
      {name : Text} {names : List Text}
      → own claims name ≡ some v
      → v ≢ undefined
      → FirstValue claims v (name ∷ names)
  there :
      {name : Text} {names : List Text}
      → IsAbsent claims name
      → FirstValue claims v names
      → FirstValue claims v (name ∷ names)

-- The first entry of the map for the user.
pub data FirstEntry (sub : Text) (entry : UserMapEntry) : List UserMapEntry → Type 0 where
  here :
      {e : UserMapEntry} {es : List UserMapEntry}
      → e ≡ entry
      → entry.sub ≡ sub
      → FirstEntry sub entry (e ∷ es)
  there :
      {e : UserMapEntry} {es : List UserMapEntry}
      → e.sub ≢ sub
      → FirstEntry sub entry es
      → FirstEntry sub entry (e ∷ es)

first_claim-FirstValue :
    (claims : Object) (names : List Text) (v : Value)
    → first_claim claims names ≡ some v
    → FirstValue claims v names
unfolding first_claim
first_claim-FirstValue claims [] v e = cc e
first_claim-FirstValue claims (name ∷ names) v e =
    go (own claims name) refl (first_claim-FirstValue claims names v)
  where
    go :
        (o : Option Value)
        → own claims name ≡ o
        → (first_claim claims names ≡ some v → FirstValue claims v names)
        → FirstValue claims v (name ∷ names)
    go none f k = there (inl f) (k (rw (f, first_claim) at e))
    go (some undefined) f k = there (inr f) (k (rw (f, first_claim) at e))
    go (some w) f k =
        let same : w ≡ v = some-injective w v (rw (f, first_claim) at e) in
        here (f ∙ ap some same) (λ u. cc (same, u))

FirstValue-first_claim :
    (claims : Object) (names : List Text) (v : Value)
    → FirstValue claims v names
    → first_claim claims names ≡ some v
unfolding first_claim
FirstValue-first_claim claims [] v h = elim h [ ]
FirstValue-first_claim claims (name ∷ names) undefined (here f n) = absurd (n refl)
FirstValue-first_claim claims (name ∷ names) v (here f n) = rw (first_claim, f) refl
FirstValue-first_claim claims (name ∷ names) v (there (inl f) k) =
    rw (first_claim, f) (FirstValue-first_claim claims names v k)
FirstValue-first_claim claims (name ∷ names) v (there (inr f) k) =
    rw (first_claim, f) (FirstValue-first_claim claims names v k)

first_claim-none :
    (claims : Object) (names : List Text)
    → first_claim claims names ≡ none
    → All (IsAbsent claims) names
unfolding first_claim
first_claim-none claims [] e = tt
first_claim-none claims (name ∷ names) e = go (own claims name) refl (first_claim-none claims names)
  where
    go :
        (o : Option Value)
        → own claims name ≡ o
        → (first_claim claims names ≡ none → All (IsAbsent claims) names)
        → All (IsAbsent claims) (name ∷ names)
    go none f k = (inl f, k (rw (f, first_claim) at e))
    go (some undefined) f k = (inr f, k (rw (f, first_claim) at e))
    go (some w) f k = cc (rw (f, first_claim) at e)

none-first_claim :
    (claims : Object) (names : List Text)
    → All (IsAbsent claims) names
    → first_claim claims names ≡ none
unfolding first_claim
none-first_claim claims [] h = refl
none-first_claim claims (name ∷ names) (inl f, h) =
    rw (first_claim, f) (none-first_claim claims names h)
none-first_claim claims (name ∷ names) (inr f, h) =
    rw (first_claim, f) (none-first_claim claims names h)

find-FirstEntry :
    (sub : Text) (es : List UserMapEntry) (entry : UserMapEntry)
    → find (λ (e : UserMapEntry). eq_text e.sub sub) es ≡ some entry
    → FirstEntry sub entry es
find-FirstEntry sub [] entry f = cc f
find-FirstEntry sub (e ∷ es) entry f = elim (Bool-cases (eq_text e.sub sub)) [
  | inl hit ↦
      let same : e ≡ entry = some-injective e entry (rw (hit) at f) in
      here same (sym (ap (λ (x : UserMapEntry). x.sub) same) ∙ eq_text→eq e.sub sub hit)
  | inr miss ↦
      there (λ g. cc (rw (g, eq_text_refl sub) at miss))
        (find-FirstEntry sub es entry (rw (miss) at f))
]

FirstEntry-find :
    (sub : Text) (es : List UserMapEntry) (entry : UserMapEntry)
    → FirstEntry sub entry es
    → find (λ (e : UserMapEntry). eq_text e.sub sub) es ≡ some entry
FirstEntry-find sub [] entry h = elim h [ ]
FirstEntry-find sub (e ∷ es) entry (here f g) = rw (f, g, eq_text_refl sub) refl
FirstEntry-find sub (e ∷ es) entry (there n h) = elim (Bool-cases (eq_text e.sub sub)) [
  | inl hit ↦ absurd (n (eq_text→eq e.sub sub hit))
  | inr miss ↦ rw (miss) (FirstEntry-find sub es entry h)
]

module _ (getent : Getent) (claims : Object) (sub : Text) (config : IdentityConfig) where
  -- The account that a request runs as: the one that the first claim names, or, without any of the
  -- claims, the one that the map has for the user.
  pub data RunsAs (id : ResolvedIdentity) : Type 0 where
    by_claim : (v : Value) → FirstValue claims v config.claims → IsAccount getent v id → RunsAs id
    by_user :
        (entry : UserMapEntry)
        → All (IsAbsent claims) config.claims
        → sub ≢ []
        → FirstEntry sub entry config.user_map
        → IsAccount getent (str entry.local_username) id
        → RunsAs id

  or_refused-resolved :
      (o : Option ResolvedIdentity) (id : ResolvedIdentity)
      → or_refused o ≡ resolved id
      → o ≡ some id
  or_refused-resolved none id e = cc e
  or_refused-resolved (some x) id e = cc e

  by_map-RunsAs :
      (s : Text) (id : ResolvedIdentity)
      → s ≡ sub
      → All (IsAbsent claims) config.claims
      → by_map getent s config.user_map ≡ resolved id
      → RunsAs id
  unfolding by_map
  by_map-RunsAs [] id f h e = cc e
  by_map-RunsAs (c ∷ s) id f h e =
      elim (Option-cases (find (λ (x : UserMapEntry). eq_text x.sub (c ∷ s)) config.user_map)) [
        | inl g ↦ cc (rw (g, by_map) at e)
        | inr (entry, g) ↦
            by_user entry h (λ empty. cc (f, empty))
              (subst (λ t. FirstEntry t entry config.user_map) f
                (find-FirstEntry (c ∷ s) config.user_map entry g))
              ((resolve_os_user_iff getent (str entry.local_username) id).0
                (or_refused-resolved _ id (rw (g, by_map) at e)))
      ]

  RunsAs-by_map :
      (s : Text) (id : ResolvedIdentity) (entry : UserMapEntry)
      → s ≢ []
      → FirstEntry s entry config.user_map
      → IsAccount getent (str entry.local_username) id
      → by_map getent s config.user_map ≡ resolved id
  unfolding by_map
  RunsAs-by_map [] id entry n f a = absurd (n refl)
  RunsAs-by_map (c ∷ s) id entry n f a =
      rw
        (
          by_map,
          FirstEntry-find (c ∷ s) config.user_map entry f,
          (resolve_os_user_iff getent (str entry.local_username) id).1 a,
        )
        refl

  -- A request runs as an account exactly when the first claim that is there names it, or when no
  -- claim is there and the map names it: a claim that names no account is never passed over.
  pub resolve_identity_iff :
      (id : ResolvedIdentity)
      → (resolve_identity getent claims sub config ≡ resolved id) ↔ RunsAs id
  unfolding resolve_identity
  resolve_identity_iff id = (forth, back)
    where
      forth : resolve_identity getent claims sub config ≡ resolved id → RunsAs id
      forth e = elim (Option-cases (first_claim claims config.claims)) [
        | inr (v, f) ↦ by_claim v (first_claim-FirstValue claims config.claims v f) (
            (resolve_os_user_iff getent v id).0
              (or_refused-resolved _ id (rw (f, resolve_identity) at e)))
        | inl f ↦
            by_map-RunsAs sub id refl (first_claim-none claims config.claims f)
              (rw (f, resolve_identity) at e)
      ]

      back : RunsAs id → resolve_identity getent claims sub config ≡ resolved id
      back (by_claim v f a) =
          rw
            (
              resolve_identity,
              FirstValue-first_claim claims config.claims v f,
              (resolve_os_user_iff getent v id).1 a,
            )
            refl
      back (by_user entry h n f a) =
          rw (resolve_identity, none-first_claim claims config.claims h)
            (RunsAs-by_map sub id entry n f a)
