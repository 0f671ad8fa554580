-- ===== src/Hub/Worker.antt =====
-- packages/hub/src/subnode-worker.ts, after the privileges are dropped, and subnode-worker-logic.ts.
pub mod Sound
pub mod Tests
use constellation_mcp.Prelude.{
  ℕ, ◌+◌, ◌-◌, Bool, true, false, not, ◌&&◌, ◌||◌, List, [], ◌∷◌, ◌++◌, Option, none, some,
  if◌then◌else◌, ◌==◌,
}
use constellation_mcp.Prelude.Text.{Text, text, eq_text}
use constellation_mcp.Shared.Json.{is_object, Value, num, str, arr, obj, entries, Object, own}
use constellation_mcp.Shared.Executor.Filters.{parse_path_filters}

-- SubnodeInit and SubnodeRequest.
pub data Message : Type 0 where
  init : (shares : Value) → (max_file_size_kb : ℕ) → Message
  request :
      (request_id tool share : Text)
      → (params : Option Value) → (path_filters : List Text) → Message

read_init : Option Value → Option Value → Option Message
unfolding is_object
read_init (some shares) (some (num max)) = if is_object shares then some (init shares max) else none
read_init _ _ = none

read_request : (id tool share params filters : Option Value) → Option Message
read_request (some (str id)) (some (str tool)) (some (str share)) params (some filters) =
    elim (parse_path_filters filters) [
      | none ↦ none
      | some fs ↦ some (request id tool share params fs)
    ]
read_request _ _ _ _ _ = none

read_typed : Option Value → Object → Option Message
unfolding read_init read_request
read_typed (some (str type)) m =
    if eq_text type (text "init")
    then read_init (own m (text "shares")) (own m (text "max_file_size_kb"))
    else if eq_text type (text "request")
    then read_request (own m (text "request_id")) (own m (text "tool")) (own m (text "share"))
        (own m (text "params")) (own m (text "path_filters"))
    else none
read_typed _ m = none

-- `isValidMessage`; `none` if the message is not valid. An array has no type.
pub read_message : Value → Option Message
unfolding read_typed
read_message (obj fs) = read_typed (own (entries fs) (text "type")) (entries fs)
read_message _ = none

pub data Exit : Type 0 where
  exits : (code : ℕ) → Exit
  killed : Exit

-- How `execute` ends; `rejects` is an error that it did not catch.
pub data ToolResult : Type 0 where
  content error : Value → ToolResult
  rejects : ToolResult

-- What is sent to the hub.
pub data Sent : Type 0 where
  ready : Sent
  response : (request_id : Text) → ToolResult → Sent
  shutting_down : (request_id : Text) → Sent

-- `running` are the requests whose promise is not settled, and `timer` is whether the grace period
-- runs. `sent` has the last message in front.
pub record State : Type 0 where
  pub executor : Option (Value × ℕ)
  pub initialized : Bool
  pub is_shutting_down : Bool
  pub in_flight : ℕ
  pub running : List Text
  pub timer : Bool
  pub connected : Bool
  pub sent : List Sent
  pub exit : Option Exit

pub started : State
started = record {
  executor = none;
  initialized = false;
  is_shutting_down = false;
  in_flight = 0;
  running = [];
  timer = false;
  connected = true;
  sent = [];
  exit = none;
}

send : State → Sent → State
send s m = record s { sent = if s.connected then m ∷ s.sent else s.sent }

leave : State → Exit → State
leave s e = record s { exit = some e }

refuse_late : State → Option Value → State
unfolding send
refuse_late s (some (str id)) = send s (shutting_down id)
refuse_late s _ = s

-- A message during the shutdown.
on_late_message : State → Value → State
unfolding refuse_late
on_late_message s (obj fs) = refuse_late s (own (entries fs) (text "request_id"))
on_late_message s _ = s

on_valid_message : State → Message → State
unfolding send leave
on_valid_message s (init shares max) =
    if s.initialized
    then leave s (exits 1)
    else send (record s { executor = some (shares, max); initialized = true }) ready
on_valid_message s (request id tool share params filters) =
    if not s.initialized then leave s (exits 1) else elim s.executor [
      | none ↦ leave s (exits 1)
      | some e ↦ record s { in_flight = s.in_flight + 1; running = id ∷ s.running }
    ]

pub on_message : State → Value → State
unfolding on_late_message on_valid_message leave
on_message s raw =
    if s.is_shutting_down
    then on_late_message s raw
    else elim (read_message raw) [ none ↦ leave s (exits 1) | some m ↦ on_valid_message s m ]

pub remove_one : Text → List Text → List Text
remove_one id [] = []
remove_one id (r ∷ rs) = if eq_text r id then rs else r ∷ remove_one id rs

-- A request's promise is settled: `handleRequest` sends the response, and then comes `finally`.
pub settle : State → (request_id : Text) → ToolResult → State
unfolding send leave remove_one
settle s id result =
    let answered = send s (response id result) in
    let fewer = record answered {
      in_flight = answered.in_flight - 1;
      running = remove_one id answered.running;
    } in
    if fewer.is_shutting_down && fewer.in_flight == 0 then leave fewer (exits 0) else fewer

pub begin_shutdown : State → State
unfolding leave
begin_shutdown s =
    if s.is_shutting_down
    then s
    else if s.in_flight == 0
    then leave (record s { is_shutting_down = true }) (exits 0)
    else record s { is_shutting_down = true; timer = true }

-- The grace period is over.
pub on_timer : State → State
unfolding leave
on_timer s = leave s killed

pub on_disconnect : State → State
unfolding begin_shutdown
on_disconnect s = begin_shutdown (record s { connected = false })
