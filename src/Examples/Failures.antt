-- ===== src/Examples/Failures.antt =====
-- A hook and its throttle on concrete failures.
use subspace_daemon.Base.{
  String, [], arith, insert, join, lookup, map, none, refl, some, true, ◌++◌, ◌∷◌, ◌≡◌,
}
use subspace_daemon.HardFailure.{
  HardFailureEvent, HardFailureHookConfig, HardFailureHooks, throttled, fire, throttle_key,
  run_hook,
}
use subspace_daemon.HardFailure.Throttle.{run_checks, throttled_within}

abbrev failure : String → HardFailureEvent
failure message = record {
  kind = "wake_delivery_failed";
  component = "wake_router";
  target = some "a:wake";
  message = message;
  metadata = [];
}

abbrev other : HardFailureEvent
other = record {
  kind = "db_sink_delivery_failed";
  component = "storage";
  target = none;
  message = "locked";
  metadata = [];
}

abbrev hook : HardFailureHookConfig
hook = record {
  key = "mail";
  command = "/bin/mail";
  args = "{{kind}} of {{target}}" ∷ [];
  env = [];
  template = "{{payload}}";
  timeout_ms = 10;
  throttle_ms = 100;
  enabled = true;
}

abbrev hooks : HardFailureHooks
hooks = record { hooks = hook ∷ []; last_sent = [] }

-- The second failure comes too early for the hook, the third does not.
fired_here :
    (let first = fire (λ e. e.message) (λ r. 1) 5 (failure "refused") hooks in
      let second = fire (λ e. e.message) (λ r. 1) 50 (failure "again") first.0 in
      let third = fire (λ e. e.message) (λ r. 1) 105 (failure "later") second.0 in
      map (λ r. r.0) (first.1 ++ second.1 ++ third.1))
    ≡ 5 ∷ 105 ∷ []
unfolding fire lookup insert throttle_key join
fired_here = refl

rendered_here :
    (run_hook hook (failure "refused") "{}").args ≡ "wake_delivery_failed of a:wake" ∷ []
unfolding run_hook
rendered_here = refl

throttled_within_example :
    (throttled 60 hook (failure "again") (
      run_checks
        (record { at = 30; hook = hook; event = other } ∷ [])
        (throttled 5 hook (failure "refused") hooks).0)).1
    ≡ true
unfolding throttled lookup
throttled_within_example =
    throttled_within 5 60 hook (failure "refused") (failure "again")
      (record { at = 30; hook = hook; event = other } ∷ []) hooks (omega arith) (omega arith) refl
      (omega arith, tt) refl refl refl
