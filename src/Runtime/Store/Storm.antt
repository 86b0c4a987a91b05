-- ===== src/Runtime/Store/Storm.antt =====
-- When the guard of `RuntimeStore` against reconnect storms enters a cooldown, and for how long.
use subspace_daemon.Base.{
  All, Bool, Bool-cases, List, String, [], arith, false, inl, inr, is_some, length, ltb, none, refl,
  some, true, ℕ, ◌+◌, ◌<◌, ◌^◌, ◌||◌, ◌∙◌, ◌∷◌, ◌≡◌, ◌≤◌,
}
use subspace_daemon.Runtime.Retry.{Jitter}
use subspace_daemon.Runtime.Store.{
  RuntimeStore, RetryConfig, ReconnectCooldown, Rfc3339, u32_max, reconnect_cooldown,
  clear_reconnect_storm, open_window, count_failure, enter_cooldown, record_reconnect_failure,
  is_window_over,
}

module _ {R : Type 0} (clock : Rfc3339) (j : Jitter R) (retry : RetryConfig R) where
  enter_cooldown-bounded :
      (now : ℕ) (s : RuntimeStore) {c : ReconnectCooldown}
      → reconnect_cooldown (enter_cooldown clock j now retry s) ≡ some c
      → (c.cooldown_ms ≤ retry.storm_guard.max_cooldown_ms)
        × (c.consecutive_failures ≡ s.reconnect_storm.consecutive_failures)
        × (c.last_error_kind ≡ s.reconnect_storm.last_error_kind)
  unfolding enter_cooldown reconnect_cooldown
  enter_cooldown-bounded now s {c} h = ground arith

  count_failure-kind :
      (kind : String) (s : RuntimeStore)
      → (count_failure clock j kind s).reconnect_storm.last_error_kind ≡ some kind
  unfolding count_failure
  count_failure-kind kind s = refl

  -- A cooldown is reported only at the threshold of failures or above it, it is at most the
  -- maximum and names the last error, and it is the one that the store then waits for.
  pub cooldown_bounded :
      (now : ℕ) (kind : String) (s : RuntimeStore) {c : ReconnectCooldown}
      → (record_reconnect_failure clock j now retry kind s).1 ≡ some c
      → (c.cooldown_ms ≤ retry.storm_guard.max_cooldown_ms)
        × (retry.storm_guard.consecutive_failure_threshold ≤ c.consecutive_failures)
        × (c.last_error_kind ≡ some kind)
        × (reconnect_cooldown (record_reconnect_failure clock j now retry kind s).0 ≡ some c)
  unfolding record_reconnect_failure
  cooldown_bounded now kind s {c} h =
      let t = count_failure clock j kind (open_window clock j now retry s) in
      elim (Bool-cases (
        ltb t.reconnect_storm.consecutive_failures
          retry.storm_guard.consecutive_failure_threshold)) [
            | inl few ↦ absurd (ground arith)
            | inr many ↦
                let e : reconnect_cooldown (enter_cooldown clock j now retry t) ≡ some c =
                  ground arith in
                let b = enter_cooldown-bounded now t e in
                (
                  b.0,
                  ground (arith, b.1),
                  b.2 ∙ count_failure-kind kind (open_window clock j now retry s),
                  ground arith,
                )
          ]

  -- a run of failures at the given times: the store after them, and whether one of them reported a
  -- cooldown
  unfoldable pub fail_all : List ℕ → String → RuntimeStore → RuntimeStore × Bool
  fail_all [] kind s = (s, false)
  fail_all (now ∷ times) kind s =
      let first = record_reconnect_failure clock j now retry kind s in
      let rest = fail_all times kind first.0 in (rest.0, is_some first.1 || rest.1)

  -- No cooldown, and a window that opened at `start` with `n` failures so far.
  record Counts (start n : ℕ) (s : RuntimeStore) : Type 0 where
    opened : s.reconnect_failure_window_started_at ≡ some start
    calm : s.reconnect_storm.cooldown_ms ≡ none
    count : s.reconnect_storm.consecutive_failures ≡ n

  open_window-counting :
      (start n now : ℕ) (s : RuntimeStore)
      → Counts start n s
      → retry.storm_guard.failure_window_ms < 2 ^ 63
      → now ≤ start + retry.storm_guard.failure_window_ms
      → open_window clock j now retry s ≡ s
  unfolding open_window is_window_over
  open_window-counting start n now s h narrow soon = ground (arith, h.opened, h.calm)

  count_failure-Counts :
      (start n : ℕ) (kind : String) {s : RuntimeStore}
      → Counts start n s
      → n < u32_max
      → Counts start (n + 1) (count_failure clock j kind s)
  unfolding count_failure
  count_failure-Counts start n kind h small = record {
    opened = h.opened;
    calm = h.calm;
    count = ground (arith, h.count);
  }

  fail-Counts :
      (start n now : ℕ) (kind : String) {s : RuntimeStore}
      → Counts start n s
      → retry.storm_guard.failure_window_ms < 2 ^ 63
      → now ≤ start + retry.storm_guard.failure_window_ms
      → n < u32_max
      → n + 1 < retry.storm_guard.consecutive_failure_threshold
      → Counts start (n + 1) (record_reconnect_failure clock j now retry kind s).0
        × ((record_reconnect_failure clock j now retry kind s).1 ≡ none)
  unfolding record_reconnect_failure
  fail-Counts start n now kind {s} h narrow soon small few =
      let c = count_failure-Counts start n kind h small in
      let same = open_window-counting start n now s h narrow soon in
      rw same (
        let few_yet : ltb (count_failure clock j kind s).reconnect_storm.consecutive_failures
              retry.storm_guard.consecutive_failure_threshold
            ≡ true =
          ground (arith, c.count) in
        rw few_yet (c, refl))

  -- The failure that reaches the threshold.
  fail-trips :
      (start n now : ℕ) (kind : String) {s : RuntimeStore}
      → Counts start n s
      → retry.storm_guard.failure_window_ms < 2 ^ 63
      → now ≤ start + retry.storm_guard.failure_window_ms
      → n < u32_max
      → n + 1 ≡ retry.storm_guard.consecutive_failure_threshold
      → (c : ReconnectCooldown) × ((record_reconnect_failure clock j now retry kind s).1 ≡ some c)
        × (c.consecutive_failures ≡ n + 1)
  unfolding record_reconnect_failure enter_cooldown reconnect_cooldown
  fail-trips start n now kind {s} h narrow soon small reached =
      let c = count_failure-Counts start n kind h small in
      let same = open_window-counting start n now s h narrow soon in
      let enough : ltb (count_failure clock j kind s).reconnect_storm.consecutive_failures
            retry.storm_guard.consecutive_failure_threshold
          ≡ false =
        ground (arith, c.count) in
      rw same (rw enough (_, refl, c.count))

  fail_all-Counts :
      (times : List ℕ) (start n : ℕ) (kind : String) {s : RuntimeStore}
      → Counts start n s
      → retry.storm_guard.failure_window_ms < 2 ^ 63
      → All (λ t. t ≤ start + retry.storm_guard.failure_window_ms) times
      → n + length times < retry.storm_guard.consecutive_failure_threshold
      → retry.storm_guard.consecutive_failure_threshold ≤ u32_max
      → Counts start (n + length times) (fail_all times kind s).0
        × ((fail_all times kind s).1 ≡ false)
  unfolding fail_all
  fail_all-Counts [] start n kind {s} h narrow soon few small =
      (record { opened = h.opened; calm = h.calm; count = omega (arith, h.count) }, refl)
  fail_all-Counts (t ∷ ts) start n kind {s} h narrow soon few small =
      let one = fail-Counts start n t kind h narrow soon.0 (omega arith) (omega arith) in
      let rest = fail_all-Counts ts start (n + 1) kind one.0 narrow soon.1 (omega arith) small in
      (
        record { opened = rest.0.opened; calm = rest.0.calm; count = omega (arith, rest.0.count) },
        ground (arith, one.1, rest.1),
      )

  first-Counts :
      (start : ℕ) (kind : String) (s : RuntimeStore)
      → 1 < retry.storm_guard.consecutive_failure_threshold
      → Counts start 1
          (record_reconnect_failure clock j start retry kind (clear_reconnect_storm s)).0
        × ((record_reconnect_failure clock j start retry kind (clear_reconnect_storm s)).1 ≡ none)
  unfolding record_reconnect_failure open_window count_failure clear_reconnect_storm
  first-Counts start kind s few =
      let test : ltb 1 retry.storm_guard.consecutive_failure_threshold ≡ true = ground arith in
      rw test (record { opened = refl; calm = refl; count = refl }, refl)

  -- After a connection that was live, exactly the threshold of failures inside one window starts a
  -- cooldown: those before report none, and the last reports one with the number of failures. The
  -- threshold is two or more and fits a u32, and the window is below 2^63 milliseconds.
  pub storm_trips :
      (start last : ℕ) (times : List ℕ) (kind : String) (s : RuntimeStore)
      → retry.storm_guard.failure_window_ms < 2 ^ 63
      → All (λ t. t ≤ start + retry.storm_guard.failure_window_ms) times
      → last ≤ start + retry.storm_guard.failure_window_ms
      → length times + 2 ≡ retry.storm_guard.consecutive_failure_threshold
      → retry.storm_guard.consecutive_failure_threshold ≤ u32_max
      → ((fail_all (start ∷ times) kind (clear_reconnect_storm s)).1 ≡ false)
        × (c : ReconnectCooldown) × ((record_reconnect_failure clock j last retry kind
              (fail_all (start ∷ times) kind (clear_reconnect_storm s)).0).1
            ≡ some c)
        × (c.consecutive_failures ≡ retry.storm_guard.consecutive_failure_threshold)
  unfolding fail_all
  storm_trips start last times kind s narrow soon end count small =
      let one = first-Counts start kind s (omega arith) in
      let rest = fail_all-Counts times start 1 kind one.0 narrow soon (omega arith) small in
      let trip =
        fail-trips start (1 + length times) last kind rest.0 narrow end (omega arith)
          (omega arith) in
      (ground (arith, one.1, rest.1), trip.0, trip.1, omega (arith, trip.2))
