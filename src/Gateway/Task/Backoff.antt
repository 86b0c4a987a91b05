-- ===== src/Gateway/Task/Backoff.antt =====
-- How long the task of the gateway sleeps between two connections.
use subspace_daemon.Base.{
  All, Bool, Bool-cases, List, Option-cases, Result, String, [], arith, err, false, inl, inr, ok,
  refl, true, ℕ, ◌∷◌, ◌≡◌, ◌≤◌,
}
use subspace_daemon.Config.Stored.{GatewayConfig}
use subspace_daemon.Runtime.Retry.{Jitter, jitter}
use subspace_daemon.Runtime.Store.{RetryConfig, u64_max}
use subspace_daemon.Gateway.Connect.{
  DisconnectReason, restart, pairing_required, auth_failed, transport, Device, Host, Opening,
}
use subspace_daemon.Gateway.Live.{World}
use subspace_daemon.Gateway.Task.{
  Task, Round, update_gateway_state, fire, after, sleep, then_sleep, attempt, round, then_go_on,
  run_gateway_task, start,
}

-- a delay that the task may sleep
abbrev IsDelay : {R : Type 0} → Jitter R → RetryConfig R → ℕ → Type 0
IsDelay j retry d =
    (b : ℕ) × (retry.base_ms ≤ b) × (b ≤ retry.max_ms) × (d ≡ jitter j b retry.jitter_ratio)

-- The backoff and all sleeps are within the configured bounds.
pub record IsPaced {N R : Type 0} (j : Jitter R) (retry : RetryConfig R) (s : Task N) : Type 0 where
  pub at_least : retry.base_ms ≤ s.backoff
  pub at_most : s.backoff ≤ retry.max_ms
  pub slept : All (IsDelay j retry) s.delays

module _ {N R : Type 0} (host : Host N) (config : GatewayConfig) (device : Device) (j : Jitter R)
    (retry : RetryConfig R) (ordered : retry.base_ms ≤ retry.max_ms)
    (bounded : retry.max_ms ≤ u64_max) where
  after-IsPaced :
      (end : Result String DisconnectReason) (s : Task N)
      → IsPaced j retry s
      → IsPaced j retry (after host config device j retry end s).0
  unfolding after update_gateway_state fire
  after-IsPaced (ok restart) s h = record {
    at_least = omega arith;
    at_most = ordered;
    slept = h.slept;
  }
  after-IsPaced (ok auth_failed) s h = record {
    at_least = omega arith;
    at_most = ordered;
    slept = h.slept;
  }
  after-IsPaced (ok pairing_required) s h = record {
    at_least = omega arith;
    at_most = ordered;
    slept = h.slept;
  }
  after-IsPaced (ok transport) s h = record {
    at_least = omega arith;
    at_most = ordered;
    slept = h.slept;
  }
  after-IsPaced (err e) s h = elim (Bool-cases s.reconnecting) [
    | inl r ↦ rw (after, r) (record { at_least = h.at_least; at_most = h.at_most; slept = h.slept })
    | inr r ↦ rw (after, r) (record { at_least = h.at_least; at_most = h.at_most; slept = h.slept })
  ]

  sleep-IsPaced :
      (woken : Bool) (s : Task N)
      → IsPaced j retry s
      → IsPaced j retry (sleep host config device j retry woken s).0
  unfolding sleep
  sleep-IsPaced true s h = record {
    at_least = h.at_least;
    at_most = h.at_most;
    slept = ((s.backoff, h.at_least, h.at_most, refl), h.slept);
  }
  sleep-IsPaced false s h = record {
    at_least = omega (arith, h.at_least, h.at_most, ordered, bounded);
    at_most = omega arith;
    slept = ((s.backoff, h.at_least, h.at_most, refl), h.slept);
  }

  then_sleep-IsPaced :
      (woken : Bool) (next : Task N × Bool)
      → IsPaced j retry next.0
      → IsPaced j retry (then_sleep host config device j retry woken next).0
  then_sleep-IsPaced woken (s, true) h = sleep-IsPaced woken s h
  then_sleep-IsPaced woken (s, false) h = h

  attempt-IsPaced :
      (world : World) (s : Task N)
      → IsPaced j retry s
      → IsPaced j retry (attempt host config device j retry world s).0
  unfolding attempt update_gateway_state
  attempt-IsPaced world s h = record { at_least = h.at_least; at_most = h.at_most; slept = h.slept }

  round-IsPaced :
      (r : Round) (s : Task N)
      → IsPaced j retry s
      → IsPaced j retry (round host config device j retry r s).0
  unfolding round
  round-IsPaced r s h = elim (Bool-cases r.stopped) [
    | inl stopped ↦ rw (round, stopped) h
    | inr runs ↦
        let tried = attempt host config device j retry r.world s in
        elim (Option-cases tried.1) [
          | inl k ↦ rw (round, runs, k) (attempt-IsPaced r.world s h)
          | inr (end, k) ↦
              rw (round, runs, k)
                (then_sleep-IsPaced r.woken (after host config device j retry end tried.0)
                  (after-IsPaced end tried.0 (attempt-IsPaced r.world s h)))
        ]
  ]

  then_go_on-IsPaced :
      (rest : Task N → Task N) (next : Task N × Bool)
      → ((t : Task N) → IsPaced j retry t → IsPaced j retry (rest t))
      → IsPaced j retry next.0
      → IsPaced j retry (then_go_on host config device j retry rest next)
  then_go_on-IsPaced rest (s, true) keeps h = keeps s h
  then_go_on-IsPaced rest (s, false) keeps h = h

  run-IsPaced :
      (rs : List Round) (s : Task N)
      → IsPaced j retry s
      → IsPaced j retry (run_gateway_task host config device j retry rs s)
  unfolding run_gateway_task
  run-IsPaced [] s h = h
  run-IsPaced (r ∷ rs) s h =
      then_go_on-IsPaced (run_gateway_task host config device j retry rs)
        (round host config device j retry r s) (run-IsPaced rs) (round-IsPaced r s h)

  -- Where the first delay is at most the greatest one and this one fits into 64 bits: whatever the
  -- connections of the task do, each of its sleeps is the jitter of a delay between these two, and
  -- so is the next one.
  pub run_gateway_task-IsPaced :
      (rs : List Round) (opening : Opening N)
      → IsPaced j retry (run_gateway_task host config device j retry rs (start retry opening))
  unfolding start
  run_gateway_task-IsPaced rs opening =
      run-IsPaced rs (start retry opening)
        (record { at_least = omega arith; at_most = ordered; slept = tt })
