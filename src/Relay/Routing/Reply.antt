-- ===== src/Relay/Routing/Reply.antt =====
-- packages/relay/src/router.ts: `routeToolCall` from the end of the RPC on.
use constellation_mcp.Prelude.{ℕ, List, [], ◌∷◌, ◌++◌, Option, none, some}
use constellation_mcp.Prelude.Text.{Text, text}
use constellation_mcp.Shared.Json.{as_text, Value, Object, own}
use constellation_mcp.Relay.Routing.{RouteResult, executor_offline, timeout, RouterError}
use constellation_mcp.Relay.Routing.Errors.{sanitize_executor_error}

-- How the promise of the RPC ends.
pub data Reply : Type 0 where
  responds : (result : Option Value) → (error : Option Object) → Reply
  disconnects times_out throws : Reply

pub data EventType : Type 0 where
  tool_call tool_error : EventType

-- What is written to the activity log.
pub record Activity : Type 0 where
  pub event_type : EventType
  pub duration_ms : Option ℕ
  pub error_code : Option Text
  pub error_message : Option Text

-- What the caller is given; an error that is not known of is thrown on.
pub data Answer : Type 0 where
  dispatched : (result : Option Value) → (error : Option Object) → Answer
  fails : RouterError → Answer
  throws : Answer

abbrev or_rpc_error : Option Text → Text
or_rpc_error none = text "rpc_error"
or_rpc_error (some code) = code

-- The event for an error.
reported : ℕ → Object → Activity
reported duration error = record {
  event_type = tool_call;
  duration_ms = some duration;
  error_code = some (or_rpc_error (as_text (own error (text "code"))));
  error_message = as_text (own error (text "message"));
}

abbrev plain_event : EventType → Option ℕ → Option Text → Activity
plain_event type duration code = record {
  event_type = type;
  duration_ms = duration;
  error_code = code;
  error_message = none;
}

gone : RouteResult → RouterError
gone r = record {
  code = executor_offline;
  message = text "'" ++ (r.host ++ text "' disconnected before responding");
}

late : RouteResult → Text → RouterError
late r seconds = record {
  code = timeout;
  message = text "No response from '" ++ (r.host ++ (text "' within " ++ (seconds ++ text "s")));
}

-- `seconds` is how the timeout is shown, in seconds.
pub conclude : RouteResult → (duration : ℕ) → (seconds : Text) → Reply → List Activity × Answer
unfolding reported
conclude r duration seconds (responds result none) =
    (plain_event tool_call (some duration) none ∷ [], dispatched result none)
conclude r duration seconds (responds result (some error)) = elim (sanitize_executor_error error) [
  | none ↦ ([], Answer.throws)
  | some clean ↦ (reported duration clean ∷ [], dispatched result (some clean))
]
conclude r duration seconds disconnects =
    (plain_event tool_error none (some (text "executor_disconnected")) ∷ [], fails (gone r))
conclude r duration seconds times_out =
    (plain_event tool_error none (some (text "timeout")) ∷ [], fails (late r seconds))
conclude r duration seconds Reply.throws = ([], Answer.throws)
