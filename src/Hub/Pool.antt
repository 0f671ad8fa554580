-- ===== src/Hub/Pool.antt =====
-- packages/hub/src/subnode.ts: the data of the pool of workers, and the restrictions on user and
-- group ids. The objects refer to one another, so each kind of entry is one list for the whole pool
-- and names what it belongs to: the `queue` of a subnode is what names it in `State.queue`.
pub mod Workers
pub mod Calls
pub mod Replies
pub mod Steps
pub mod Removal
pub mod Tidy
pub mod Shrinks
pub mod Stale
pub mod Credentials
pub mod Idle
pub mod Stranded
pub mod Answered
pub mod Tests
use constellation_mcp.Prelude.{
  ℕ, ◌+◌, ◌*◌, Bool, true, false, not, ◌&&◌, ◌||◌, List, [], ◌∷◌, ◌++◌, Option, none, some,
  if◌then◌else◌, any, leb, ◌==◌,
}
use constellation_mcp.Prelude.Text.{Text, text}
use constellation_mcp.Prelude.Table.{Table}
use constellation_mcp.Prelude.Strings.{Integer, whole, negative}
use constellation_mcp.Shared.Json.{Value}
use constellation_mcp.Hub.Identity.{ResolvedIdentity}
use constellation_mcp.Hub.Rpc.{DispatchResult, dispatch_error}

unfoldable pub same_integer : Integer → Integer → Bool
same_integer (whole m) (whole n) = m == n
same_integer (negative m) (negative n) = m == n
same_integer _ _ = false

unfoldable pub at_most : Integer → Integer → Bool
at_most (whole m) (whole n) = leb m n
at_most (whole m) (negative n) = false
at_most (negative m) (whole n) = true
at_most (negative m) (negative n) = leb n m

-- `min` is 0 if it is missing, and `max` is no bound.
pub record Range : Type 0 where
  pub min : Option Integer
  pub max : Option Integer

pub record Config : Type 0 where
  pub hub_uid : Integer
  pub hub_gid : Integer
  pub allowed_range : Option Range
  pub blocked_range : Option Range
  pub blocked_uids : List Integer
  pub blocked_gids : List Integer
  pub max_concurrent_subnodes : ℕ
  pub min_workers : ℕ
  pub max_workers : ℕ
  pub queue_timeout_ms : ℕ
  pub rpc_timeout_ms : ℕ

pub data UidRestriction : Type 0 where
  is_root is_hub is_blocked in_blocked_range outside_allowed_range : UidRestriction

in_range : Range → Integer → Bool
unfolding at_most
in_range r uid =
    at_most (elim r.min [ none ↦ whole 0 | some m ↦ m ]) uid
    && elim r.max [ none ↦ true | some m ↦ at_most uid m ]

among : Integer → List Integer → Bool
unfolding same_integer
among id ids = any (same_integer id) ids

check_allowed : Config → Integer → Option UidRestriction
unfolding in_range
check_allowed cfg uid = elim cfg.allowed_range [
  | none ↦ none
  | some r ↦ if in_range r uid then none else some outside_allowed_range
]

check_blocked : Config → Integer → Option UidRestriction
unfolding in_range check_allowed
check_blocked cfg uid = elim cfg.blocked_range [
  | none ↦ check_allowed cfg uid
  | some r ↦ if in_range r uid then some in_blocked_range else check_allowed cfg uid
]

pub check_uid_restrictions : Config → Integer → Option UidRestriction
unfolding same_integer among check_blocked
check_uid_restrictions cfg uid =
    if same_integer uid (whole 0)
    then some is_root
    else if same_integer uid cfg.hub_uid
    then some is_hub
    else if among uid cfg.blocked_uids
    then some is_blocked
    else check_blocked cfg uid

-- A call of `dispatch`; `id` is its promise.
pub record Request : Type 0 where
  pub id : ℕ
  pub identity : ResolvedIdentity
  pub tool : Text
  pub share : Text
  pub params : Value
  pub request_id : Text
  pub path_filters : List Text

reference : Text → Request → Text
reference message r =
    message ++ (text " Contact your administrator with reference ID: " ++ r.request_id)

pub uid_blocked : Request → DispatchResult
unfolding reference
uid_blocked r =
    dispatch_error (text "uid_blocked")
      (reference (text "Access denied: your account is not permitted to use this hub.") r)

-- `groups` is what `getGroupIds` gives.
pub check_gid_restrictions : Config → Option (List Integer) → Request → Option DispatchResult
unfolding among reference
check_gid_restrictions cfg none r = some (
    dispatch_error (text "spawn_failed")
      (reference (text "Could not verify group membership for this account.") r))
check_gid_restrictions cfg (some groups) r =
    if any (λ g. among g (whole 0 ∷ cfg.hub_gid ∷ cfg.blocked_gids)) groups
    then some (
        dispatch_error (text "gid_blocked") (
          reference
            (text
              "Access denied: one or more of your OS groups are blocked by the hub administrator.")
            r))
    else none

pub data Tier : Type 0 where
  warm burst : Tier

-- `pooled` is whether the worker is in its subnode's `workers`.
pub record Worker : Type 0 where
  pub id : ℕ
  pub subnode : ℕ
  pub uid : Integer
  pub gid : Integer
  pub tier : Tier
  pub ready : Bool
  pub pooled : Bool
  pub idle_timer : Bool
  pub removed : Bool

unfoldable pub worker_runs_as : Worker → ResolvedIdentity → Bool
unfolding same_integer
worker_runs_as w identity = same_integer w.uid identity.uid && same_integer w.gid identity.gid

-- An entry of a worker's `pending`.
pub record Pending : Type 0 where
  pub worker : ℕ
  pub subnode : ℕ
  pub request : Request

-- An entry of a subnode's `queue`.
pub record QueuedRequest : Type 0 where
  pub subnode : ℕ
  pub request : Request
  pub deadline : ℕ

-- A call that waits for its subnode's `lock`.
pub record Waiting : Type 0 where
  pub subnode : ℕ
  pub request : Request

-- `subnodes` is the pool's map; a subnode is a number, and a worker's `id` is one too. `spawning` are
-- the calls that hold their subnode's lock until the worker is ready, `checking` those whose groups
-- are being looked up, and `rechecking` those that left the queue and have theirs looked up again.
-- `replaced` are those whose entry of `pending` is gone and whose timer still runs.
-- `sent` and `answers` are what was sent to workers and what the calls returned, the latest first.
pub record State : Type 0 where
  pub subnodes : Table ℕ
  pub next : ℕ
  pub workers : List Worker
  pub checking : List Request
  pub waiting : List Waiting
  pub spawning : List Pending
  pub queue : List QueuedRequest
  pub rechecking : List Pending
  pub pending : List Pending
  pub replaced : List Pending
  pub shutting_down : Bool
  pub sent : List (Worker × Request)
  pub answers : List (Request × DispatchResult)

pub new_pool : State
new_pool = record {
  subnodes = [];
  next = 0;
  workers = [];
  checking = [];
  waiting = [];
  spawning = [];
  queue = [];
  rechecking = [];
  pending = [];
  replaced = [];
  shutting_down = false;
  sent = [];
  answers = [];
}

-- Whether two calls are the same promise.
unfoldable pub is_same : Request → Request → Bool
is_same r q = q.id == r.id

abbrev pub answer : Request → DispatchResult → State → State
answer r result s = record s { answers = (r, result) ∷ s.answers }
