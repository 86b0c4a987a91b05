-- ===== src/HardFailure.antt =====
-- src/hard_failure.rs: the hooks that run on failures, and their throttle. Starting the process of
-- a hook is not modelled: a run is what the process is given.
pub mod Throttle
use subspace_daemon.Base.{
  Bool, List, Option, String, [], eqb, false, filter, get_or, if◌then◌else◌, insert, is_empty, join,
  lookup, ltb, map, option_map, replace, true, ℕ, ◌+◌, ◌-◌, ◌∷◌,
}

-- The metadata is a JSON object of texts.
pub record HardFailureEvent : Type 0 where
  pub kind : String
  pub component : String
  pub target : Option String
  pub message : String
  pub metadata : List (String × String)

pub record HardFailureHookConfig : Type 0 where
  pub key : String
  pub command : String
  pub args : List String
  pub env : List (String × String)
  pub template : String
  pub timeout_ms : ℕ
  pub throttle_ms : ℕ
  pub enabled : Bool

-- Instants are milliseconds.
pub record HardFailureHooks : Type 0 where
  pub hooks : List HardFailureHookConfig
  pub last_sent : List (String × ℕ)

pub record HookRun : Type 0 where
  pub hook_key : String
  pub command : String
  pub args : List String
  pub env : List (String × String)
  pub input : String
  pub timeout_ms : ℕ

unfoldable pub dedupe_key : HardFailureEvent → String
dedupe_key e = join ":" (e.kind ∷ e.component ∷ get_or e.target "" ∷ [])

unfoldable pub new : List HardFailureHookConfig → HardFailureHooks
new hooks = record { hooks = filter (λ h. h.enabled) hooks; last_sent = [] }

-- the key of `throttled`
unfoldable pub throttle_key : HardFailureHookConfig → HardFailureEvent → String
unfolding dedupe_key
throttle_key hook e = join ":" (hook.key ∷ dedupe_key e ∷ [])

-- `HardFailureHooks::throttled`; `now` is `Instant::now`. `duration_since` is 0 where time went back.
unfoldable pub throttled :
    ℕ → HardFailureHookConfig → HardFailureEvent → HardFailureHooks → HardFailureHooks × Bool
throttled now hook e s =
    let key = throttle_key hook e in
    if eqb hook.throttle_ms 0
    then (s, false)
    else if get_or (option_map (λ last. ltb (now - last) hook.throttle_ms) (lookup key s.last_sent))
        false
    then (s, true)
    else (record s { last_sent = insert key now s.last_sent }, false)

unfoldable pub render_template : String → HardFailureEvent → String → String
unfolding replace
render_template template e payload = replace "{{message}}" e.message (
    replace "{{target}}" (get_or e.target "") (
      replace "{{component}}" e.component
        (replace "{{kind}}" e.kind (replace "{{payload}}" payload template))))

-- what `run_hook` starts
unfoldable pub run_hook : HardFailureHookConfig → HardFailureEvent → String → HookRun
unfolding render_template
run_hook hook e payload = record {
  hook_key = hook.key;
  command = render_template hook.command e payload;
  args = map (λ arg. render_template arg e payload) hook.args;
  env = map (λ v. (v.0, render_template v.1 e payload)) hook.env;
  input = render_template hook.template e payload;
  timeout_ms = hook.timeout_ms;
}

-- `payload` is `serde_json::to_string`, and `elapsed` how long the run of a hook takes.
module _ (payload : HardFailureEvent → String) (elapsed : HookRun → ℕ) where
  -- the loop of `fire`: the hooks that run, and when
  unfoldable pub fire_hooks :
      ℕ
      → HardFailureEvent
      → List HardFailureHookConfig
      → HardFailureHooks
      → HardFailureHooks × List (ℕ × HookRun)
  unfolding throttled run_hook
  fire_hooks now e [] s = (s, [])
  fire_hooks now e (hook ∷ hooks) s =
      let checked = throttled now hook e s in
      let run = run_hook hook e (payload e) in
      elim checked.1 [
        | true ↦ fire_hooks now e hooks checked.0
        | false ↦
            let rest = fire_hooks (now + elapsed run) e hooks checked.0 in
            (rest.0, (now, run) ∷ rest.1)
      ]

  unfoldable pub fire :
      ℕ → HardFailureEvent → HardFailureHooks → HardFailureHooks × List (ℕ × HookRun)
  unfolding fire_hooks
  fire now e s = if is_empty s.hooks then (s, []) else fire_hooks now e s.hooks s
