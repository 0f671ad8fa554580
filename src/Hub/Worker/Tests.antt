-- ===== src/Hub/Worker/Tests.antt =====
-- packages/hub/src/subnode-worker.ts and subnode-worker-logic.ts: examples.
use constellation_mcp.Prelude.{◌≡◌, refl, [], ◌∷◌, Memᴰ, none, some}
use constellation_mcp.Prelude.Text.{text, eq_text}
use constellation_mcp.Shared.Json.{Value, null, num, str, arr, nil, obj, end, field, own, entries}
use constellation_mcp.Shared.Executor.Filters.{parse_path_filters}
use constellation_mcp.Hub.Worker.{
  State, started, read_message, on_message, settle, begin_shutdown, remove_one, content, Sent,
  exits,
}
use constellation_mcp.Hub.Worker.Sound.{
  Reach, starts, message, settles, sigterm, IsSound, Reach-IsSound,
}

abbrev init : Value
init = obj (
    field (text "type") (str (text "init"))
      (field (text "shares") (obj end) (field (text "max_file_size_kb") (num 64) end)))

abbrev request : Value
request = obj (
    field (text "type") (str (text "request")) (
      field (text "request_id") (str (text "r1")) (
        field (text "tool") (str (text "read_file"))
          (field (text "share") (str (text "docs")) (field (text "path_filters") (arr nil) end)))))

abbrev running : State
running = on_message (on_message started init) request

abbrev stopping : State
stopping = begin_shutdown running

abbrev stopped : State
stopped = settle stopping (text "r1") (content null)

stopped_tests :
    (stopped.exit ≡ some (exits 0))
    × (stopped.sent ≡ Sent.response (text "r1") (content null) ∷ Sent.ready ∷ [])
    × ((on_message started request).exit ≡ some (exits 1))
unfolding settle on_message begin_shutdown started remove_one read_message own entries eq_text
    parse_path_filters
stopped_tests = (refl, refl, refl)

alive : (on_message started init).exit ≡ none
unfolding on_message started read_message own entries eq_text
alive = refl

running-alive : running.exit ≡ none
unfolding on_message started read_message own entries eq_text parse_path_filters
running-alive = refl

stopping-alive : stopping.exit ≡ none
unfolding begin_shutdown on_message started read_message own entries eq_text parse_path_filters
stopping-alive = refl

first_request : Memᴰ (text "r1") stopping.running
unfolding begin_shutdown on_message started read_message own entries eq_text parse_path_filters
first_request = Memᴰ.head refl

stopped-Reach : Reach stopped
unfolding started
stopped-Reach =
    settles (text "r1") (content null)
      (sigterm (message request (message init starts refl) alive) running-alive) stopping-alive
      first_request

Reach-IsSound_example : IsSound stopped
Reach-IsSound_example = Reach-IsSound stopped-Reach
