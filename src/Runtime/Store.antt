-- ===== src/Runtime/Store.antt =====
-- src/runtime_store.rs: `RuntimeStore`. The file is a value: what `flush` writes and `load` reads.
-- Timestamps are texts; the parser of RFC 3339 and the clock belong to the `time` library.
pub mod Window
pub mod Dedupe
pub mod Storm
pub mod Restart
use subspace_daemon.Base.{
  Bool, List, Option, String, [], any, false, filter, get_or, if◌then◌else◌, is_none, length, ltb,
  min, none, not, option_map, some, text_lt, true, ℕ, ◌&&◌, ◌*◌, ◌++◌, ◌+◌, ◌-◌, ◌==◌, ◌^◌, ◌||◌,
  ◌∷◌,
}
use subspace_daemon.Runtime.Retry.{Jitter, jitter}

pub record StormGuardConfig : Type 0 where
  pub failure_window_ms : ℕ
  pub consecutive_failure_threshold : ℕ
  pub cooldown_ms : ℕ
  pub max_cooldown_ms : ℕ

pub record RetryConfig (R : Type 0) : Type 0 where
  pub base_ms : ℕ
  pub max_ms : ℕ
  pub jitter_ratio : R
  pub storm_guard : StormGuardConfig

pub record ReconnectStormState : Type 0 where
  pub consecutive_failures : ℕ
  pub cooldown_ms : Option ℕ
  pub next_attempt_at : Option String
  pub last_error_kind : Option String

pub record ReconnectCooldown : Type 0 where
  pub consecutive_failures : ℕ
  pub cooldown_ms : ℕ
  pub next_attempt_at : String
  pub last_error_kind : Option String

-- Times are milliseconds since the epoch. The front of `recent_ids_order` is the oldest id; the
-- sets are lists without an order.
pub record RuntimeStore : Type 0 where
  pub dedupe_window_size : ℕ
  pub discard_before_ts : Option String
  pub last_seen_ts : Option String
  pub recent_ids_order : List String
  pub recent_ids_set : List String
  pub pending_ids : List String
  pub reconnect_storm : ReconnectStormState
  pub reconnect_failure_window_started_at : Option ℕ

pub record RuntimeFile : Type 0 where
  pub last_seen_ts : Option String
  pub recent_ids : List String
  pub reconnect_storm : ReconnectStormState

-- The `time` library: the reading and the printing of RFC 3339.
pub record Rfc3339 : Type 0 where
  pub parse : String → Option ℕ
  pub format : ℕ → String

abbrev pub u32_max : ℕ
u32_max = 2 ^ 32 - 1

abbrev pub u64_max : ℕ
u64_max = 2 ^ 64 - 1

abbrev pub storm_default : ReconnectStormState
storm_default = record {
  consecutive_failures = 0;
  cooldown_ms = none;
  next_attempt_at = none;
  last_error_kind = none;
}

-- `HashSet`
abbrev pub contains : List String → String → Bool
contains ids id = any (λ j. j == id) ids

unfoldable pub set_remove : String → List String → List String
set_remove id ids = filter (λ j. not (j == id)) ids

unfoldable pub set_insert : String → List String → List String
set_insert id ids = if contains ids id then ids else id ∷ ids

-- the `while` loop of `insert_recent`: the oldest ids leave while there are more than the window
unfoldable pub evict : ℕ → List String → List String → List String × List String
evict window [] set = ([], set)
evict window (id ∷ ids) set =
    let rest = evict window ids (set_remove id set) in
    if ltb window (length (id ∷ ids)) then rest else (id ∷ ids, set)

unfoldable pub insert_recent : String → RuntimeStore → RuntimeStore
unfolding evict
insert_recent id s =
    let order =
      if contains s.recent_ids_set id then s.recent_ids_order else s.recent_ids_order ++ id ∷ [] in
    let kept = evict s.dedupe_window_size order (set_insert id s.recent_ids_set) in
    record s { recent_ids_order = kept.0; recent_ids_set = kept.1 }

unfoldable pub insert_all_recent : List String → RuntimeStore → RuntimeStore
insert_all_recent [] s = s
insert_all_recent (id ∷ ids) s = insert_all_recent ids (insert_recent id s)

unfoldable pub mark_failed : String → RuntimeStore → RuntimeStore
mark_failed id s = record s { pending_ids = set_remove id s.pending_ids }

unfoldable pub mark_processed : String → String → RuntimeStore → RuntimeStore
mark_processed id timestamp s =
    let t = insert_recent id (record s { pending_ids = set_remove id s.pending_ids }) in
    record t {
      last_seen_ts = elim t.last_seen_ts [
        | none ↦ some timestamp
        | some current ↦ if text_lt current timestamp then some timestamp else some current
      ];
    }

-- what `flush` writes
unfoldable pub flush : RuntimeStore → RuntimeFile
flush s = record {
  last_seen_ts = s.last_seen_ts;
  recent_ids = s.recent_ids_order;
  reconnect_storm = s.reconnect_storm;
}

unfoldable pub empty_store : ℕ → Option String → RuntimeStore
empty_store window floor = record {
  dedupe_window_size = window;
  discard_before_ts = floor;
  last_seen_ts = none;
  recent_ids_order = [];
  recent_ids_set = [];
  pending_ids = [];
  reconnect_storm = storm_default;
  reconnect_failure_window_started_at = none;
}

-- `RuntimeStore::load` of a file that is there and parses, or of none; `now` is the clock.
unfoldable pub load : ℕ → Option RuntimeFile → ℕ → Option String → RuntimeStore
load now none window floor = empty_store window floor
load now (some file) window floor =
    insert_all_recent file.recent_ids (record (empty_store window floor) {
      last_seen_ts = file.last_seen_ts;
      reconnect_storm = file.reconnect_storm;
      reconnect_failure_window_started_at =
          if ltb 0 file.reconnect_storm.consecutive_failures
            && is_none file.reconnect_storm.cooldown_ms
          then some now
          else none;
    })

unfoldable pub reconnect_cooldown : RuntimeStore → Option ReconnectCooldown
reconnect_cooldown s = elim s.reconnect_storm.cooldown_ms [
  | none ↦ none
  | some ms ↦ elim s.reconnect_storm.next_attempt_at [
    | none ↦ none
    | some at ↦ some (record {
      consecutive_failures = s.reconnect_storm.consecutive_failures;
      cooldown_ms = ms;
      next_attempt_at = at;
      last_error_kind = s.reconnect_storm.last_error_kind;
    })
  ]
]

unfoldable pub clear_reconnect_storm : RuntimeStore → RuntimeStore
clear_reconnect_storm s = record s {
  reconnect_storm = storm_default;
  reconnect_failure_window_started_at = none;
}

module _ (clock : Rfc3339) where
  unfoldable pub timestamp_before_floor : String → Option String → Bool
  timestamp_before_floor timestamp none = false
  timestamp_before_floor timestamp (some floor) = elim (clock.parse timestamp) [
    | none ↦ text_lt timestamp floor
    | some t ↦ elim (clock.parse floor) [ none ↦ text_lt timestamp floor | some f ↦ ltb t f ]
  ]

  unfoldable pub should_enqueue : String → String → RuntimeStore → RuntimeStore × Bool
  should_enqueue id timestamp s =
      if timestamp_before_floor timestamp s.discard_before_ts
      then (s, false)
      else if contains s.recent_ids_set id || contains s.pending_ids id
      then (s, false)
      else (record s { pending_ids = set_insert id s.pending_ids }, true)

-- `now - started_at > window`, where `failure_window_ms as i64` is negative from 2^63 on; the
-- difference of two times is far below 2^63
unfoldable pub is_window_over : ℕ → ℕ → ℕ → Bool
is_window_over window now started =
    if ltb window (2 ^ 63)
    then ltb window (now - started)
    else ltb started (now + (2 ^ 64 - window))

module _ {R : Type 0} (clock : Rfc3339) (j : Jitter R) where
  -- the window that `record_reconnect_failure` opens where none is open or the last one is over;
  -- `now - started_at` is 0 where the clock went back
  unfoldable pub open_window : ℕ → RetryConfig R → RuntimeStore → RuntimeStore
  unfolding is_window_over
  open_window now retry s =
      if is_none s.reconnect_storm.cooldown_ms
        && get_or
            (option_map (is_window_over retry.storm_guard.failure_window_ms now)
              s.reconnect_failure_window_started_at)
            true
      then record s {
        reconnect_failure_window_started_at = some now;
        reconnect_storm = record (s.reconnect_storm) { consecutive_failures = 0 };
      }
      else s

  unfoldable pub count_failure : String → RuntimeStore → RuntimeStore
  count_failure kind s = record s {
    reconnect_storm = record (s.reconnect_storm) {
      consecutive_failures = min (s.reconnect_storm.consecutive_failures + 1) u32_max;
      last_error_kind = some kind;
    };
  }

  -- the base of the next cooldown: twice the last one, or the first, at most the maximum
  unfoldable pub base_cooldown : StormGuardConfig → Option ℕ → ℕ
  base_cooldown g last =
      min (get_or (option_map (λ c. min (c * 2) u64_max) last) g.cooldown_ms) g.max_cooldown_ms

  unfoldable pub enter_cooldown : ℕ → RetryConfig R → RuntimeStore → RuntimeStore
  unfolding base_cooldown
  enter_cooldown now retry s =
      let base = base_cooldown retry.storm_guard s.reconnect_storm.cooldown_ms in
      let ms = min (jitter j base retry.jitter_ratio) retry.storm_guard.max_cooldown_ms in
      record s {
        reconnect_storm = record (s.reconnect_storm) {
          cooldown_ms = some ms;
          next_attempt_at = some (clock.format (now + min ms (2 ^ 63 - 1)));
        };
      }

  unfoldable pub record_reconnect_failure :
      ℕ → RetryConfig R → String → RuntimeStore → RuntimeStore × Option ReconnectCooldown
  record_reconnect_failure now retry kind s =
      let t = count_failure kind (open_window now retry s) in
      if ltb t.reconnect_storm.consecutive_failures retry.storm_guard.consecutive_failure_threshold
      then (t, none)
      else let u = enter_cooldown now retry t in (u, reconnect_cooldown u)
