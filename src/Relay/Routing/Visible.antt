-- ===== src/Relay/Routing/Visible.antt =====
-- packages/relay/src/router.ts: what a user reaches by a share's name, and what the answer tells.
use constellation_mcp.Prelude.{
  ◌≡◌, refl, sym, ap, ◌∙◌, ◌⊎◌, inl, inr, ◌≢◌, true, not, List, [], ◌∷◌, Memᴰ, Option, none, some,
  Bool-cases, Option-cases, keep, keep-mem, mem-keep, subst,
}
use mathlib.Core.Option.{some-injective}
use constellation_mcp.Prelude.Text.{Text, eq_text, eq_text→eq, eq_text_refl}
use constellation_mcp.Shared.Permissions.{evaluate_permission_blob, no_access}
use constellation_mcp.Relay.Routing.{
  RequestUser, PathShare, HubShare, Database, RouteResult, found, failed, given, route_to,
  subject_of, is_visible, choose, accessible_hub_shares, user_can_see_host, resolve_hub_share,
  not_found, resolve_share,
}

-- A host that is asked for.
abbrev pub IsHost : Option Text → Text → Type 0
IsHost host h = (x : Text) → host ≡ some x → h ≡ x

-- What the queries promise of the tables.
pub record Lawful (db : Database) (shares : List PathShare) (hubs : List HubShare) : Type 0 where
  pub path_share_found :
      (user share : Text) (host : Option Text) (p : PathShare)
      → db.find_path_share user share host ≡ some p
      → Memᴰ p shares × (p.user_id ≡ user) × (p.share ≡ share) × IsHost host p.executor.host
  pub path_share_missing :
      (user share : Text) (host : Option Text) (p : PathShare)
      → db.find_path_share user share host ≡ none
      → Memᴰ p shares
      → p.user_id ≡ user
      → p.share ≡ share
      → ¬ IsHost host p.executor.host
  pub hub_share_found :
      (share host : Option Text) (h : HubShare)
      → Memᴰ h (db.find_hub_shares share host)
      → Memᴰ h hubs × IsHost share h.share × IsHost host h.executor.host
  pub hub_share_kept :
      (share host : Option Text) (h : HubShare)
      → Memᴰ h hubs
      → IsHost share h.share
      → IsHost host h.executor.host
      → Memᴰ h (db.find_hub_shares share host)

-- The user's permissions on the hub share are more than none.
abbrev pub MaySee : RequestUser → HubShare → Type 0
MaySee user h = evaluate_permission_blob h.permission_blob (subject_of user) ≢ no_access

is_visible-MaySee : (user : RequestUser) (h : HubShare) → is_visible user h ≡ true → MaySee user h
unfolding is_visible
is_visible-MaySee user h e same =
    let no : not (eq_text no_access no_access) ≡ true = rw (same, is_visible) at e in
    cc (rw (eq_text_refl no_access) at no)

MaySee-is_visible : (user : RequestUser) (h : HubShare) → MaySee user h → is_visible user h ≡ true
unfolding is_visible
MaySee-is_visible user h m =
    elim (Bool-cases
      (eq_text (evaluate_permission_blob h.permission_blob (subject_of user)) no_access)) [
        | inl e ↦ absurd (m (eq_text→eq _ no_access e))
        | inr e ↦ rw e
      ]

module _ (db : Database) (user : RequestUser) (shares : List PathShare) (hubs : List HubShare) where
  -- A share of the user's own.
  abbrev pub IsOwn : Text → Option Text → PathShare → Type 0
  IsOwn share host p =
      Memᴰ p shares
      × (p.user_id ≡ user.id)
      × (p.share ≡ share)
      × IsHost (given host) p.executor.host

  -- A hub's share that the user may see.
  abbrev pub IsSeen : Text → Option Text → HubShare → Type 0
  IsSeen share host h =
      Memᴰ h hubs × (h.share ≡ share) × IsHost (given host) h.executor.host × MaySee user h

  accessible-IsSeen :
      Lawful db shares hubs
      → (share : Text) (host : Option Text) (h : HubShare)
      → Memᴰ h (accessible_hub_shares db user (some share) host)
      → IsSeen share host h
  unfolding accessible_hub_shares
  accessible-IsSeen law share host h m =
      let (in_table, v) = keep-mem (is_visible user) _ m in
      let (row, s, x) = law.hub_share_found (some share) (given host) h in_table in
      (row, s share refl, x, is_visible-MaySee user h v)

  IsSeen-accessible :
      Lawful db shares hubs
      → (share : Text) (host : Option Text) (h : HubShare) → IsSeen share host h
      → Memᴰ h (accessible_hub_shares db user (some share) host)
  unfolding accessible_hub_shares
  IsSeen-accessible law share host h (row, s, x, v) =
      mem-keep (is_visible user) _
        (law.hub_share_kept (some share) (given host) h row (λ t e. s ∙ some-injective share t e) x)
        (MaySee-is_visible user h v)

  choose-found :
      (share : Text) (hs : List HubShare) (r : RouteResult)
      → choose share hs ≡ some (found r)
      → (h : HubShare) × (hs ≡ h ∷ []) × (route_to h.executor h.reported_path ≡ r)
  unfolding choose
  choose-found share [] r e = cc e
  choose-found share (h ∷ []) r e = (h, refl, cc e)
  choose-found share (h ∷ k ∷ hs) r e = cc e

  -- A share that is found is one of the user's own, or else the only hub share of that name which
  -- the user may see, on the host that was asked for if one was.
  pub resolve_share_found :
      (share : Text) (host : Option Text) (r : RouteResult)
      → Lawful db shares hubs
      → resolve_share db user share host ≡ found r
      → ((p : PathShare) × IsOwn share host p × (r ≡ route_to p.executor p.reported_path))
        ⊎ ((h : HubShare) × IsSeen share host h
            × (r ≡ route_to h.executor h.reported_path)
            × ((k : HubShare) → IsSeen share host k → k ≡ h)
            × ((p : PathShare) → ¬ IsOwn share host p))
  unfolding resolve_share resolve_hub_share
  resolve_share_found share host r law e =
      elim (Option-cases (db.find_path_share user.id share (given host))) [
        | inr (p, f) ↦ inl (
          p,
          law.path_share_found user.id share (given host) p f,
          sym (cc (rw (f, resolve_share) at e)),
        )
        | inl f ↦
            elim (Option-cases (choose share (accessible_hub_shares db user (some share) host))) [
              | inl g ↦ cc (rw (f, g, resolve_share) at e)
              | inr (t, g) ↦
                  let same : t ≡ found r = rw (f, g, resolve_share) at e in
                  let (h, one, to) = choose-found share _ r (g ∙ ap some same) in
                  inr (
                    h,
                    accessible-IsSeen law share host h (rw one (Memᴰ.head refl)),
                    sym to,
                    (λ k seen.
                        only h k
                          (subst (λ l. Memᴰ k l) one (IsSeen-accessible law share host k seen))),
                    (λ p (row, u, s, x).
                        law.path_share_missing user.id share (given host) p f row u s x),
                  )
            ]
      ]
    where
      only : (h k : HubShare) → Memᴰ k (h ∷ []) → k ≡ h
      only h k (Memᴰ.head e) = e
      only h k (Memᴰ.tail m) = elim m [ ]

-- The user cannot tell two databases apart.
pub record LookSame (user : RequestUser) (db db' : Database) : Type 0 where
  pub path_shares :
      (share : Text) (host : Option Text)
      → db.find_path_share user.id share host ≡ db'.find_path_share user.id share host
  pub executors : (host : Text) → db.find_executor host user.id ≡ db'.find_executor host user.id
  pub hub_shares :
      (share host : Option Text)
      → keep (is_visible user) (db.find_hub_shares share host)
        ≡ keep (is_visible user) (db'.find_hub_shares share host)

module _ (user : RequestUser) (db db' : Database) (same : LookSame user db db') where
  user_can_see_host_same :
      (host : Text) → user_can_see_host db user host ≡ user_can_see_host db' user host
  unfolding user_can_see_host accessible_hub_shares
  user_can_see_host_same host = rw (same.executors host, same.hub_shares none (given (some host)))

  resolve_hub_share_same :
      (share : Text) (host : Option Text)
      → resolve_hub_share db user share host ≡ resolve_hub_share db' user share host
  unfolding resolve_hub_share accessible_hub_shares
  resolve_hub_share_same share host = rw (same.hub_shares (some share) (given host))

  not_found_same :
      (share : Text) (host : Option Text)
      → not_found db user share host ≡ not_found db' user share host
  unfolding not_found
  not_found_same share none = refl
  not_found_same share (some host) = rw (user_can_see_host_same host)

-- The answer depends on nothing but the user's own shares and executors and the hub shares that
-- the user may see: neither a host nor a share that the user may not see changes it.
pub resolve_share_same :
    (user : RequestUser) (db db' : Database) (share : Text) (host : Option Text)
    → LookSame user db db'
    → resolve_share db user share host ≡ resolve_share db' user share host
unfolding resolve_share
resolve_share_same user db db' share host same =
    elim (Option-cases (db'.find_path_share user.id share (given host))) [
      | inr (p, f) ↦ rw (resolve_share, same.path_shares share (given host), f) refl
      | inl f ↦ elim (Option-cases (resolve_hub_share db' user share host)) [
        | inr (r, g) ↦
            rw
              (
                resolve_share,
                same.path_shares share (given host),
                f,
                resolve_hub_share_same user db db' same share host,
                g,
              )
              refl
        | inl g ↦
            rw
              (
                resolve_share,
                same.path_shares share (given host),
                f,
                resolve_hub_share_same user db db' same share host,
                g,
              )
              (ap failed (not_found_same user db db' same share (given host)))
      ]
    ]
