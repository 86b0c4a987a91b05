-- ===== src/Examples/Gateways.antt =====
-- Connections to the gateway on concrete events.
use subspace_daemon.Base.{
  Bool, List, String, [], arith, err, false, if◌then◌else◌, is_ok, none, ok, refl, some, sym, true,
  ℕ, ◌==◌, ◌∙◌, ◌∷◌, ◌≡◌,
}
use subspace_daemon.Base.Json.{str, obj, end, field, null}
use subspace_daemon.Config.Stored.{GatewayConfig}
use subspace_daemon.Gateway.Tokens.{missing}
use subspace_daemon.Gateway.Protocol.{EventFrame, GatewayError, HelloOk, ResponseFrame}
use subspace_daemon.Gateway.Connect.{
  gateway_text, wait_challenge, wait_response, transport, Device, Host, Opening, received, ended,
  select_connect_auth, connect_auth, on_hello, on_refused,
}
use subspace_daemon.Gateway.Connect.Laws.{connect_auth-on_refused}
use subspace_daemon.Gateway.Live.{
  connect_once, answer_challenge, Connection, Event, item, command, Ended, ends, World, live_loop,
  step,
}
use subspace_daemon.Gateway.Live.Answered.{asked, requests_answered}
use subspace_daemon.Gateway.Task.{Round, run_gateway_task, start}
use subspace_daemon.Gateway.Task.Backoff.{IsPaced, run_gateway_task-IsPaced}
use subspace_daemon.Pending.{answered}
use subspace_daemon.Status.{new, set_gateway_state}
use subspace_daemon.Subspace.Frames.{text}
use subspace_daemon.Examples.Stores.{dice, retry}

abbrev hello : HelloOk ℕ
hello = record {
  hello_type = "hello-ok";
  protocol = 4;
  server = none;
  features = none;
  snapshot = none;
  auth = some (record { device_token = "t1"; role = "operator"; scopes = [] });
  tick_interval_ms = 0;
}

abbrev mismatch : GatewayError ℕ
mismatch = record {
  code = none;
  message = "refused";
  details = some (obj (field "code" (str "AUTH_DEVICE_TOKEN_MISMATCH") end));
}

abbrev response : String → Bool → ResponseFrame ℕ
response id is_ok = record {
  frame_type = "res";
  id = id;
  is_ok = is_ok;
  payload = null;
  error = if is_ok then none else some mismatch;
}

abbrev challenge : EventFrame ℕ
challenge = record {
  frame_type = "event";
  event = "connect.challenge";
  payload = obj (field "nonce" (str "n") end);
  seq = none;
}

-- The gateway accepts the request "c1", refuses "c2", and answers "r2".
abbrev host : Host ℕ
host = record {
  platform = "linux";
  version = "1";
  to_lowercase = λ t. t;
  read_event = λ raw. if raw == "challenge" then some challenge else none;
  read_response = λ raw.
      if raw == "accepted"
      then some (response "c1" true)
      else if raw == "refused"
      then some (response "c2" false)
      else if raw == "answer"
      then some (response "r2" true)
      else none;
  read_hello = λ payload. some hello;
  error_text = λ e. "error";
}

abbrev config : GatewayConfig
config = record {
  ws_url = "ws://g";
  client_id = "c";
  client_mode = "m";
  display_name = "d";
  device_id = none;
  shared_token = none;
  shared_password = none;
  requested_role = "operator";
  requested_scopes = "a" ∷ "b" ∷ [];
}

abbrev device : Device
device = record {
  device_id = "dev";
  public_key_raw_base64url = "pub";
  sign_payload = λ payload. payload;
}

abbrev opening : Opening ℕ
opening = record { path = missing; status = new "main" []; requests = [] }

abbrev connection : Connection ℕ
connection = record { opening = opening; pending = []; replies = [] }

-- Two requests, a response to the second, and the end.
abbrev events : List Event
events =
    command 1 "main" "a" "k1" "r1" none
    ∷ command 2 "main" "b" "k2" "r2" none
    ∷ item (received (text "answer"))
    ∷ item ended
    ∷ []

abbrev after : Connection ℕ × Ended
after = live_loop host events connection

replies_here : after.0.replies ≡ (2, ok tt) ∷ (1, err "gateway request dropped") ∷ []
unfolding live_loop
replies_here = refl

ended_here : after.1 ≡ ends transport
unfolding live_loop
ended_here = refl

asked_here : asked host 1 events connection ≡ 1
unfolding asked step
asked_here = refl

requests_answered_example : answered 1 after.0.replies ≡ asked host 1 events connection
requests_answered_example =
    requests_answered host 1 events connection refl refl (λ goes. cc (sym ended_here ∙ goes))

connect_auth-on_refused_example :
    connect_auth host config device
      (on_refused host config device true
        (some mismatch)
        (on_hello host config device true 5 hello opening).0).0.path
    ≡ select_connect_auth none none none
unfolding on_refused on_hello
connect_auth-on_refused_example =
    connect_auth-on_refused host config device true (some mismatch)
      (on_hello host config device true 5 hello opening).0 refl refl refl refl

abbrev refused_world : World
refused_world = record {
  connecting = none;
  incoming = received (text "challenge") ∷ received (text "refused") ∷ [];
  connect_id = "c2";
  signed_at = 1;
  sending = none;
  writable = true;
  stored_at = 1;
  events = [];
}

abbrev unreachable : World
unreachable = record refused_world { connecting = some "refused" }

abbrev rounds : World → World → List Round
rounds first second =
    record { stopped = false; world = first; woken = false }
    ∷ record { stopped = false; world = second; woken = false }
    ∷ []

unreachable_here :
    (run_gateway_task host config device dice retry
      (rounds unreachable unreachable)
      (start retry opening)).delays
    ≡ 20 ∷ 10 ∷ []
unfolding run_gateway_task start connect_once set_gateway_state
unreachable_here = refl

-- After a mismatch of the token the task connects again without a sleep.
no_sleep_here :
    (run_gateway_task host config device dice retry
      (rounds refused_world refused_world)
      (start retry opening)).delays
    ≡ []
unfolding run_gateway_task start connect_once set_gateway_state wait_challenge wait_response
    answer_challenge gateway_text
no_sleep_here = refl

run_gateway_task-IsPaced_example : IsPaced dice retry (
    run_gateway_task host config device dice retry
      (rounds unreachable refused_world)
      (start retry opening))
run_gateway_task-IsPaced_example =
    run_gateway_task-IsPaced host config device dice retry (omega arith) (omega arith)
      (rounds unreachable refused_world) opening
