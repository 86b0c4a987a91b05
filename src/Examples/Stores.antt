-- ===== src/Examples/Stores.antt =====
-- The runtime store and the status on concrete values.
use subspace_daemon.Base.{
  List, [], arith, eqb, false, none, refl, some, true, ℕ, ◌*◌, ◌∷◌, ◌≡◌, ◌≤◌,
}
use subspace_daemon.Runtime.Retry.{Jitter, jitter}
use subspace_daemon.Runtime.Store.{
  RetryConfig, RuntimeStore, ReconnectCooldown, Rfc3339, storm_default, empty_store, load, flush,
  should_enqueue, mark_processed, reconnect_cooldown, clear_reconnect_storm,
  record_reconnect_failure, insert_recent, open_window, enter_cooldown, timestamp_before_floor,
  set_remove, set_insert, insert_all_recent, count_failure,
}
use subspace_daemon.Runtime.Store.Window.{IsValid, load-IsValid}
use subspace_daemon.Runtime.Store.Dedupe.{
  Call, enqueues, fails, processes, run, processed_count, run-IsValid, accepted_once,
}
use subspace_daemon.Runtime.Store.Storm.{cooldown_bounded, fail_all, storm_trips}
use subspace_daemon.Runtime.Store.Restart.{load-flush}
use subspace_daemon.Status.{ServerName, new}
use subspace_daemon.Status.Updates.{
  sets_veto, gateway, state, apply_all, IsConsistent, status-IsConsistent,
}

-- A clock whose texts are not read, so that they are compared as they are.
abbrev pub clock : Rfc3339
clock = record { parse = λ text. none; format = λ t. "later" }

-- The ratio is a percentage; the draw is the middle of its range.
abbrev pub dice : Jitter ℕ
dice = record { ratio_le_zero = λ r. eqb r 0; spread = λ base r. base * r; draw = λ s. s }

abbrev pub retry : RetryConfig ℕ
retry = record {
  base_ms = 10;
  max_ms = 100;
  jitter_ratio = 0;
  storm_guard = record {
    failure_window_ms = 1000;
    consecutive_failure_threshold = 3;
    cooldown_ms = 50;
    max_cooldown_ms = 80;
  };
}

abbrev start : RuntimeStore
start =
    load 0
      (some (record {
        last_seen_ts = none;
        recent_ids = "a" ∷ "b" ∷ "a" ∷ "c" ∷ [];
        reconnect_storm = storm_default;
      }))
      2 none

start-IsValid : IsValid start
start-IsValid =
    load-IsValid 0
      (some (record {
        last_seen_ts = none;
        recent_ids = "a" ∷ "b" ∷ "a" ∷ "c" ∷ [];
        reconnect_storm = storm_default;
      }))
      2 none

start_here : start.recent_ids_order ≡ "b" ∷ "c" ∷ []
unfolding load insert_recent insert_all_recent empty_store set_insert
start_here = refl

abbrev calls : List Call
calls = processes "d" "t4" ∷ enqueues "e" "t5" ∷ fails "e" ∷ processes "e" "t6" ∷ []

run-IsValid_example : IsValid (run clock start calls)
run-IsValid_example = run-IsValid clock calls start-IsValid

accepted_here : (should_enqueue clock "d" "t1" start).1 ≡ true
unfolding should_enqueue load insert_recent timestamp_before_floor insert_all_recent empty_store
    set_insert set_remove
accepted_here = refl

-- With a third message the id is forgotten, so the bound of the window is needed.
forgotten_here :
    (should_enqueue clock "d" "t9"
      (run clock start (processes "d" "t1" ∷ processes "e" "t2" ∷ processes "f" "t3" ∷ []))).1
    ≡ true
unfolding should_enqueue run load insert_recent mark_processed timestamp_before_floor
    insert_all_recent empty_store set_insert set_remove
forgotten_here = refl

room_here : processed_count calls ≤ start.dedupe_window_size
unfolding processed_count load insert_recent insert_all_recent empty_store
room_here = omega arith

accepted_once_example :
    (should_enqueue clock "d" "t9" (run clock (should_enqueue clock "d" "t1" start).0 calls)).1
    ≡ false
accepted_once_example =
    accepted_once clock "d" "t1" "t9" calls start-IsValid accepted_here refl room_here

abbrev stormy : RuntimeStore
stormy = record start {
  reconnect_storm = record {
    consecutive_failures = 2;
    cooldown_ms = some 60;
    next_attempt_at = some "earlier";
    last_error_kind = none;
  };
}

abbrev cooled : ReconnectCooldown
cooled = record {
  consecutive_failures = 3;
  cooldown_ms = 80;
  next_attempt_at = "later";
  last_error_kind = some "dns";
}

cooldown_here : (record_reconnect_failure clock dice 7 retry "dns" stormy).1 ≡ some cooled
unfolding record_reconnect_failure count_failure open_window reconnect_cooldown enter_cooldown
    jitter
cooldown_here = refl

cooldown_bounded_example :
    (cooled.cooldown_ms ≤ 80)
    × (3 ≤ cooled.consecutive_failures)
    × (cooled.last_error_kind ≡ some "dns")
    × (reconnect_cooldown (record_reconnect_failure clock dice 7 retry "dns" stormy).0
        ≡ some cooled)
cooldown_bounded_example = cooldown_bounded clock dice retry 7 "dns" stormy cooldown_here

storm_trips_example :
    ((fail_all clock dice retry (5 ∷ 9 ∷ []) "dns" (clear_reconnect_storm start)).1 ≡ false)
    × (c : ReconnectCooldown) × ((record_reconnect_failure clock dice 12 retry "dns"
          (fail_all clock dice retry (5 ∷ 9 ∷ []) "dns" (clear_reconnect_storm start)).0).1
        ≡ some c)
    × (c.consecutive_failures ≡ 3)
storm_trips_example =
    storm_trips clock dice retry 5 12 (9 ∷ []) "dns" start (omega arith) (omega arith, tt)
      (omega arith) refl (omega arith)

load-flush_example :
    ((load 3 (some (flush start)) start.dedupe_window_size none).recent_ids_order
      ≡ start.recent_ids_order)
    × ((load 3 (some (flush start)) start.dedupe_window_size none).last_seen_ts
        ≡ start.last_seen_ts)
    × ((load 3 (some (flush start)) start.dedupe_window_size none).reconnect_storm
        ≡ start.reconnect_storm)
load-flush_example = load-flush 3 start none start-IsValid

abbrev servers : List ServerName
servers =
    record { base_url = "https://a"; server_key = "a"; enabled = true }
    ∷ record { base_url = "https://b"; server_key = "b"; enabled = false }
    ∷ []

status-IsConsistent_example :
    IsConsistent
      (apply_all (gateway "live" ∷ state "https://a" "a" "live" ∷ []) (new "main" servers))
unfolding sets_veto
status-IsConsistent_example =
    status-IsConsistent "main" servers (gateway "live" ∷ state "https://a" "a" "live" ∷ []) refl
