-- ===== src/Config/Entries/Accepted.antt =====
-- Which sinks and which hooks a configuration may have.
use mathlib.Core.Path.{subst}
use subspace_daemon.Base.{
  >>=-eq-ok, List, Option, String, [], ap, append_text, bail_if, bail_if-ok, decimal, false, get_or,
  is_empty_text, map, ok, ok-inj, ok_pair-inj, refl, sym, trim, true, ℕ, ◌+◌, ◌↔◌, ◌∙◌, ◌≡◌,
}
use subspace_daemon.HardFailure.{HardFailureHookConfig}
use subspace_daemon.Storage.Tables.{SinkConfig}
use subspace_daemon.Config.Error.{
  duplicate_sink_key, empty_sink_key, duplicate_hook_key, empty_hook_key, empty_hook_command,
}
use subspace_daemon.Config.Keyed.{Distinct, AllAt, keyed_loop_accepts}
use subspace_daemon.Config.Entries.{
  StoredSinkConfig, StoredHardFailureHookConfig, trimmed, parse, default_key, read_sink,
  normalize_sinks, read_hook, normalize_hard_failure_hooks,
}

-- The sink that an entry stands for: its kind is a known one, its key is not blank.
abbrev pub IsSinkOf : ℕ → StoredSinkConfig → SinkConfig → Type 0
IsSinkOf index stored sink =
    (parse stored.kind ≡ ok sink.kind)
    × (sink.key ≡ trim (get_or stored.key (default_key sink.kind)))
    × (is_empty_text sink.key ≡ false)
    × (sink.enabled ≡ get_or stored.enabled true)
    × (sink.destination ≡ trimmed stored.destination)

-- The hook that an entry stands for: its key and its command are not blank.
abbrev pub IsHookOf : ℕ → StoredHardFailureHookConfig → HardFailureHookConfig → Type 0
IsHookOf index stored hook =
    (hook.key ≡ trim (get_or stored.key (append_text "hook-" (decimal (index + 1)))))
    × (is_empty_text hook.key ≡ false)
    × (hook.command ≡ trim stored.command)
    × (is_empty_text hook.command ≡ false)
    × (hook.args ≡ stored.args)
    × (hook.env ≡ stored.env)
    × (hook.template ≡ get_or stored.template "{{payload}}")
    × (hook.timeout_ms ≡ get_or stored.timeout_ms 10000)
    × (hook.throttle_ms ≡ get_or stored.throttle_ms 300000)
    × (hook.enabled ≡ get_or stored.enabled true)

read_sink-IsSinkOf :
    (i : ℕ) (s : StoredSinkConfig) (k : String) (t : SinkConfig)
    → read_sink i s ≡ ok (k, ok t)
    → (k ≡ t.key) × IsSinkOf i s t
unfolding read_sink
read_sink-IsSinkOf i s k t h =
    let (kind, parsed, h1) = >>=-eq-ok (parse s.kind) _ h in
    let (u, filled, h2) =
      >>=-eq-ok (bail_if (is_empty_text (trim (get_or s.key (default_key kind)))) empty_sink_key) _
        h1 in
    let made = ok_pair-inj h2 in
    (
      sym made.0 ∙ ap (λ x. x.key) (ok-inj made.1),
      subst (IsSinkOf i s) (ok-inj made.1)
          (parsed, refl, bail_if-ok empty_sink_key filled, refl, refl),
    )

IsSinkOf-read_sink :
    (i : ℕ) (s : StoredSinkConfig) (t : SinkConfig)
    → IsSinkOf i s t
    → read_sink i s ≡ ok (t.key, ok t)
unfolding read_sink
IsSinkOf-read_sink i s t h = rw (read_sink, h.0, sym h.1, h.2, sym h.3, sym h.4) refl

-- A list of sinks is accepted exactly where every entry has a known kind and a key that is not
-- blank, and no two keys are the same; each entry then gives its sink, in the same order.
pub normalize_sinks_accepts :
    (stored : Option (List StoredSinkConfig)) (sinks : List SinkConfig)
    → (normalize_sinks stored ≡ ok sinks) ↔ (
        AllAt read_sink duplicate_sink_key (λ s. s.key) IsSinkOf 0 (get_or stored []) sinks
        × Distinct (map (λ s. s.key) sinks))
unfolding normalize_sinks
normalize_sinks_accepts stored sinks =
    keyed_loop_accepts read_sink duplicate_sink_key (λ s. s.key) IsSinkOf read_sink-IsSinkOf
      IsSinkOf-read_sink (get_or stored []) sinks

read_hook-IsHookOf :
    (i : ℕ) (s : StoredHardFailureHookConfig) (k : String) (t : HardFailureHookConfig)
    → read_hook i s ≡ ok (k, ok t)
    → (k ≡ t.key) × IsHookOf i s t
unfolding read_hook
read_hook-IsHookOf i s k t h =
    let key = trim (get_or s.key (append_text "hook-" (decimal (i + 1)))) in
    let (u, filled, h1) = >>=-eq-ok (bail_if (is_empty_text key) empty_hook_key) _ h in
    let made = ok_pair-inj h1 in
    let (v, command, h2) =
      >>=-eq-ok (bail_if (is_empty_text (trim s.command)) empty_hook_command) _ made.1 in
    (
      sym made.0 ∙ ap (λ x. x.key) (ok-inj h2),
      subst (IsHookOf i s) (ok-inj h2) (
        refl,
        bail_if-ok empty_hook_key filled,
        refl,
        bail_if-ok empty_hook_command command,
        refl,
        refl,
        refl,
        refl,
        refl,
        refl,
      ),
    )

IsHookOf-read_hook :
    (i : ℕ) (s : StoredHardFailureHookConfig) (t : HardFailureHookConfig)
    → IsHookOf i s t
    → read_hook i s ≡ ok (t.key, ok t)
unfolding read_hook
IsHookOf-read_hook i s t (k, kf, c, cf, a, e, te, ti, th, en) =
    rw (read_hook, sym k, kf, sym c, cf, sym a, sym e, sym te, sym ti, sym th, sym en) refl

-- A list of hooks is accepted exactly where no entry has a blank key or a blank command and no
-- two keys are the same; each entry then gives its hook, in the same order.
pub normalize_hard_failure_hooks_accepts :
    (stored : Option (List StoredHardFailureHookConfig)) (hooks : List HardFailureHookConfig)
    → (normalize_hard_failure_hooks stored ≡ ok hooks) ↔ (
        AllAt read_hook duplicate_hook_key (λ h. h.key) IsHookOf 0 (get_or stored []) hooks
        × Distinct (map (λ h. h.key) hooks))
unfolding normalize_hard_failure_hooks
normalize_hard_failure_hooks_accepts stored hooks =
    keyed_loop_accepts read_hook duplicate_hook_key (λ h. h.key) IsHookOf read_hook-IsHookOf
      IsHookOf-read_hook (get_or stored []) hooks
