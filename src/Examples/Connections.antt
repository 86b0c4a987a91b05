-- ===== src/Examples/Connections.antt =====
-- A connection to a Subspace server on concrete events.
use subspace_daemon.Base.{
  List, String, [], arith, false, if◌then◌else◌, map, none, ok, refl, some, sym, true, ℕ, ◌==◌, ◌∙◌,
  ◌∷◌, ◌≡◌, ◌≤◌,
}
use subspace_daemon.Base.Json.{Json, str, obj, end, field}
use subspace_daemon.Attention.Layer.{new}
use subspace_daemon.Attention.Outbound.{OutboundEmbeddingRequest}
use subspace_daemon.Config.Stored.{ServerConfig}
use subspace_daemon.Pending.{answered}
use subspace_daemon.Runtime.Store.{
  RuntimeStore, load, timestamp_before_floor, insert_recent, set_insert, empty_store,
}
use subspace_daemon.Runtime.Store.Window.{load-IsValid}
use subspace_daemon.Subspace.Frames.{text}
use subspace_daemon.Subspace.Payloads.{Link}
use subspace_daemon.Subspace.Session.{current}
use subspace_daemon.Subspace.Live.{
  Live, Event, command, received, processed, commands_closed, room, Ended, stops, live_loop, step,
}
use subspace_daemon.Subspace.Live.Answered.{asked, answered_once}
use subspace_daemon.Subspace.Live.Once.{copies, queued_once, reported}
use subspace_daemon.Examples.Layers.{small, machine, config}
use subspace_daemon.Examples.Stores.{clock}
use subspace_daemon.Examples.Identities.{identity}
use subspace_daemon.Status.{new as new_status}

abbrev payload : Json ℕ
payload = obj (
    field "id" (str "m1")
      (field "ts" (str "1") (field "agentId" (str "other") (field "text" (str "hi") end))))

abbrev message : Json ℕ
message = obj (
    field "topic" (str "firehose")
      (field "event" (str "new_message") (field "payload" payload end)))

abbrev reply : Json ℕ
reply = obj (
    field "topic" (str "firehose") (
      field "event" (str "phx_reply")
        (field "ref" (str "r2") (field "payload" (obj (field "status" (str "ok") end)) end))))

abbrev pub link : Link ℕ ℕ
link = record {
  clock = clock;
  parse = λ raw. if raw == "message" then ok message else ok reply;
  to_f32 = λ n. n;
  embeddings_json = λ embeddings. obj end;
  quote = λ raw. raw;
}

abbrev pub server : ServerConfig String
server = record {
  base_url = "https://c";
  websocket_url = "wss://c";
  enabled = true;
  server_key = "c";
  registration_name = "me";
  identity = none;
  local_pack_paths = none;
  session_path = "session";
  runtime_path = "runtime";
  wake_session_key = none;
}

abbrev start : RuntimeStore
start = load 0 none 2 none

abbrev live : Live ℕ ℕ String
live = record {
  session =
      current
        (record {
          identity = "a";
          agent_id = "k";
          session_token = some "t";
          session_expires_at = none;
        })
        identity;
  saved = none;
  pending = [];
  runtime = start;
  status = new_status "main" [];
  queue = [];
  frames = [];
  replies = [];
  failures = [];
}

abbrev plain : OutboundEmbeddingRequest ℕ
plain = record {
  embeddings = [];
  generate_for_spaces = [];
  generated_embeddings_override_supplied = false;
}

-- Two requests, a response to the second, a message that comes twice, and the end.
abbrev events : List (Event ℕ)
events =
    command 1 "a" none plain "r1" "k1" none
    ∷ command 2 "b" none plain "r2" "k2" none
    ∷ received (text "reply") room none
    ∷ received (text "message") room none
    ∷ received (text "message") room none
    ∷ processed "m1" "1"
    ∷ received (text "message") room none
    ∷ commands_closed
    ∷ []

abbrev after : Live ℕ ℕ String × Ended
after = live_loop small machine link server [] (new small machine config) events live

replies_here : map (λ r. r.0) after.0.replies ≡ 2 ∷ 1 ∷ []
unfolding live_loop timestamp_before_floor load empty_store set_insert insert_recent
replies_here = refl

ended_here : after.1 ≡ stops
unfolding live_loop timestamp_before_floor load empty_store set_insert insert_recent
ended_here = refl

asked_here : asked small machine link server [] (new small machine config) 1 events live ≡ 1
unfolding asked step timestamp_before_floor load empty_store set_insert insert_recent
asked_here = refl

answered_once_example :
    answered 1 after.0.replies
    ≡ asked small machine link server [] (new small machine config) 1 events live
answered_once_example =
    answered_once small machine link server [] (new small machine config) 1 events live refl refl
      (λ goes. cc (sym ended_here ∙ goes))

queued_here : copies "m1" after.0.queue ≡ 1
unfolding live_loop timestamp_before_floor load empty_store set_insert insert_recent
queued_here = refl

queued_once_example : copies "m1" after.0.queue ≤ 1
unfolding reported load empty_store
queued_once_example =
    queued_once small machine link server [] (new small machine config) "m1" events live
      (load-IsValid 0 none 2 none) (omega arith)
