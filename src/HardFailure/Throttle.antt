-- ===== src/HardFailure/Throttle.antt =====
-- What the throttle of the hooks promises over a run of checks.
use subspace_daemon.Base.{
  All, Bool, List, String, [], arith, false, get_or, leb, lookup, lookup-insert, lookup-insert_self,
  option_map, refl, true, ℕ, ◌+◌, ◌<◌, ◌∷◌, ◌≡◌, ◌≤◌,
}
use subspace_daemon.HardFailure.{
  HardFailureEvent, HardFailureHookConfig, HardFailureHooks, throttle_key, throttled,
}

-- one call of `throttled`, by whichever task
pub record Check : Type 0 where
  pub at : ℕ
  pub hook : HardFailureHookConfig
  pub event : HardFailureEvent

unfoldable pub run_checks : List Check → HardFailureHooks → HardFailureHooks
run_checks [] s = s
run_checks (c ∷ cs) s = run_checks cs (throttled c.at c.hook c.event s).0

-- The key was sent at the time or later.
abbrev sent_since : ℕ → String → HardFailureHooks → Bool
sent_since t key s = get_or (option_map (λ last. leb t last) (lookup key s.last_sent)) false

throttled-sent_since :
    (t : ℕ) (key : String) (c : Check) (s : HardFailureHooks)
    → t ≤ c.at
    → sent_since t key s ≡ true
    → sent_since t key (throttled c.at c.hook c.event s).0 ≡ true
unfolding throttled
throttled-sent_since t key c s later h =
    ground (arith, lookup-insert (throttle_key c.hook c.event) key c.at s.last_sent)

run_checks-sent_since :
    (t : ℕ) (key : String) (cs : List Check) (s : HardFailureHooks)
    → All (λ c. t ≤ c.at) cs
    → sent_since t key s ≡ true
    → sent_since t key (run_checks cs s) ≡ true
unfolding run_checks
run_checks-sent_since t key [] s later h = h
run_checks-sent_since t key (c ∷ cs) s later h =
    run_checks-sent_since t key cs (throttled c.at c.hook c.event s).0 later.1
      (throttled-sent_since t key c s later.0 h)

sends-sent_since :
    (now : ℕ) (hook : HardFailureHookConfig) (e : HardFailureEvent) (s : HardFailureHooks)
    → 0 < hook.throttle_ms
    → (throttled now hook e s).1 ≡ false
    → sent_since now (throttle_key hook e) (throttled now hook e s).0 ≡ true
unfolding throttled
sends-sent_since now hook e s some_throttle h =
    ground (arith, lookup-insert_self (throttle_key hook e) now s.last_sent)

sent_since-throttled :
    (t later : ℕ) (hook : HardFailureHookConfig) (e : HardFailureEvent) (s : HardFailureHooks)
    → 0 < hook.throttle_ms
    → later < t + hook.throttle_ms
    → sent_since t (throttle_key hook e) s ≡ true
    → (throttled later hook e s).1 ≡ true
unfolding throttled
sent_since-throttled t later hook e s some_throttle soon h = ground arith

same_key :
    (hook : HardFailureHookConfig) (e again : HardFailureEvent)
    → again.kind ≡ e.kind
    → again.component ≡ e.component
    → again.target ≡ e.target
    → throttle_key hook again ≡ throttle_key hook e
unfolding throttle_key
same_key hook e again kind component target = rw (kind, component, target) refl

-- After a hook with a throttle time has run for a failure, it does not run for another with the
-- same kind, component and target before that time is over, whatever other failures are reported
-- in between.
pub throttled_within :
    (now later : ℕ) (hook : HardFailureHookConfig) (e again : HardFailureEvent) (cs : List Check)
    (s : HardFailureHooks)
    → 0 < hook.throttle_ms
    → later < now + hook.throttle_ms
    → (throttled now hook e s).1 ≡ false
    → All (λ c. now ≤ c.at) cs
    → again.kind ≡ e.kind
    → again.component ≡ e.component
    → again.target ≡ e.target
    → (throttled later hook again (run_checks cs (throttled now hook e s).0)).1 ≡ true
throttled_within now later hook e again cs s some_throttle soon sent between kind component target =
    let t = (throttled now hook e s).0 in
    sent_since-throttled now later hook again (run_checks cs t) some_throttle soon (
      rw (same_key hook e again kind component target) (
        run_checks-sent_since now (throttle_key hook e) cs t between
          (sends-sent_since now hook e s some_throttle sent)))
