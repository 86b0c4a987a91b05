-- ===== src/Subspace/Manager/Paused.antt =====
-- A connection that failed is not followed by the next one at once.
use subspace_daemon.Base.{
  Bool, Bool-cases, List, Option, Option-cases, Result, Result-cases, String, ap, err-ne-ok, false,
  get_or, if◌then◌else◌, inl, inr, ltb, none, ok, refl, some, true, ℕ, ◌&&◌, ◌-◌, ◌==◌, ◌∙◌, ◌∷◌,
  ◌≡◌, ◌⊎◌,
}
use subspace_daemon.Attention.Float.{Float}
use subspace_daemon.Attention.Plugin.{EmbeddingBackendConfig}
use subspace_daemon.Attention.Layer.{AttentionLayer, Environment}
use subspace_daemon.Config.Stored.{ServerConfig}
use subspace_daemon.Runtime.Retry.{Jitter, jitter}
use subspace_daemon.Runtime.Store.{
  RuntimeStore, Rfc3339, RetryConfig, ReconnectCooldown, reconnect_cooldown,
  record_reconnect_failure, open_window, count_failure, enter_cooldown,
}
use subspace_daemon.Subspace.Frames.{reconnect_error_kind}
use subspace_daemon.Subspace.Identity.{Keys, Paths, IdentityError}
use subspace_daemon.Subspace.Live.{Failure, bails, session_refreshed_reconnecting}
use subspace_daemon.Subspace.Manager.{
  Manager, Round, Next, again, over, server_state, sleep, fire, record_failure, after_failure,
  after_connection, update_server_reconnect_cooldown, wait_for_reconnect_cooldown_if_needed, round,
  attempt,
}
use subspace_daemon.Subspace.Payloads.{Link}

none-ne-some : {A : Type 0} {a : A} → none ≡ some a → ⊥
none-ne-some h = cc h

unpaused : Path (Result String Bool) (ok false) (ok true) → ⊥
unpaused h = cc h

over-ne-again : {r : Result String (Unit {0})} → over r ≡ again → ⊥
over-ne-again h = cc h

-- a store, and its cooldown where it has entered one
abbrev Recorded : Type 0
Recorded = RuntimeStore × Option ReconnectCooldown

stored :
    (b : Bool) (t u : RuntimeStore) (c : ReconnectCooldown)
    → (if◌then◌else◌ {A = Recorded} b (t, none) (u, reconnect_cooldown u)).1 ≡ some c
    → reconnect_cooldown (if◌then◌else◌ {A = Recorded} b (t, none) (u, reconnect_cooldown u)).0
      ≡ some c
stored true t u c h = absurd (none-ne-some h)
stored false t u c h = h

-- the cooldown that is returned is the one that the store holds
recorded_cooldown :
    {R : Type 0} (clock : Rfc3339) (j : Jitter R) (now : ℕ) (retry : RetryConfig R) (kind : String)
    (s : RuntimeStore) (c : ReconnectCooldown)
    → (record_reconnect_failure clock j now retry kind s).1 ≡ some c
    → reconnect_cooldown (record_reconnect_failure clock j now retry kind s).0 ≡ some c
unfolding record_reconnect_failure
recorded_cooldown clock j now retry kind s c h =
    let t = count_failure clock j kind (open_window clock j now retry s) in
    stored
      (ltb t.reconnect_storm.consecutive_failures retry.storm_guard.consecutive_failure_threshold) t
      (enter_cooldown clock j now retry t) c h

-- The task has slept, or a cooldown is set.
data SleptOrCooled {F N : Type 0} (m : Manager F N) (next : Manager F N × Next) : Type 0 where
  slept : (d : ℕ) → next.0.delays ≡ d ∷ m.delays → SleptOrCooled m next
  cooled :
      (c : ReconnectCooldown) → reconnect_cooldown next.0.runtime ≡ some c → SleptOrCooled m next

keeps-SleptOrCooled :
    {F N : Type 0} (s m : Manager F N) (next : Manager F N × Next)
    → s.delays ≡ m.delays
    → SleptOrCooled s next
    → SleptOrCooled m next
keeps-SleptOrCooled s m next same (slept d h) = slept d (h ∙ ap (λ ds. d ∷ ds) same)
keeps-SleptOrCooled s m next same (cooled c h) = cooled c h

module _ (fl : Float) (env : Environment fl.F) {N K P R : Type 0} (link : Link fl.F N)
    (server : ServerConfig P) (clients : List (String × EmbeddingBackendConfig))
    (attention : AttentionLayer fl.F) (keys : Keys K) (paths : Paths)
    (error_text : IdentityError → String) (session_path identities_dir : String) (j : Jitter R)
    (retry : RetryConfig R) where
  open fl use {F}

  record_failure-cooled :
      (now : ℕ) (flushing : Failure) (kind : String) (m : Manager F N)
      → (record_failure fl env link server clients attention keys paths error_text session_path
          identities_dir j retry now flushing kind m).1
        ≡ ok true
      → (c : ReconnectCooldown) × (reconnect_cooldown
            (record_failure fl env link server clients attention keys paths error_text session_path
              identities_dir j retry now flushing kind m).0.runtime
          ≡ some c)
  unfolding record_failure update_server_reconnect_cooldown
  record_failure-cooled now (some e) kind m h = absurd (err-ne-ok h)
  record_failure-cooled now none kind m h =
      elim (Option-cases (record_reconnect_failure link.clock j now retry kind m.runtime).1) [
        | inl k ↦ absurd (unpaused (rw (record_failure, k) at h))
        | inr (c, k) ↦ (
          c,
          rw (record_failure, k) (recorded_cooldown link.clock j now retry kind m.runtime c k),
        )
      ]

  record_failure-delays :
      (now : ℕ) (flushing : Failure) (kind : String) (m : Manager F N)
      → (record_failure fl env link server clients attention keys paths error_text session_path
          identities_dir j retry now flushing kind m).0.delays
        ≡ m.delays
  unfolding record_failure update_server_reconnect_cooldown
  record_failure-delays now (some e) kind m = refl
  record_failure-delays now none kind m =
      elim (Option-cases (record_reconnect_failure link.clock j now retry kind m.runtime).1) [
        | inl k ↦ rw (record_failure, k) refl
        | inr (c, k) ↦ rw (record_failure, k) refl
      ]

  sleep-delays :
      (woken : Bool) (m : Manager F N)
      → (sleep fl env link server clients attention keys paths error_text session_path
          identities_dir j retry woken m).0.delays
        ≡ jitter j m.backoff retry.jitter_ratio ∷ m.delays
  unfolding sleep
  sleep-delays true m = refl
  sleep-delays false m = refl

  after_failure-SleptOrCooled :
      (kind e : String) (r : Round F) (m : Manager F N)
      → (after_failure fl env link server clients attention keys paths error_text session_path
          identities_dir j retry kind e r m).1
        ≡ again
      → SleptOrCooled m (
          after_failure fl env link server clients attention keys paths error_text session_path
            identities_dir j retry kind e r m)
  unfolding after_failure fire
  after_failure-SleptOrCooled kind e r m h =
      let recorded : Manager F N × Result String Bool =
        record_failure fl env link server clients attention keys paths error_text session_path
          identities_dir j retry r.failed_at r.flushing (reconnect_error_kind e) m in
      elim (Result-cases recorded.1) [
        | inl (true, k) ↦
            let (c, cool) =
              record_failure-cooled r.failed_at r.flushing (reconnect_error_kind e) m k in
            rw (after_failure, k) (cooled c cool)
        | inl (false, k) ↦
            rw (after_failure, k)
              (slept (jitter j recorded.0.backoff retry.jitter_ratio) (
                sleep-delays r.woken recorded.0
                ∙ ap (λ ds. jitter j recorded.0.backoff retry.jitter_ratio ∷ ds)
                    (record_failure-delays r.failed_at r.flushing (reconnect_error_kind e) m)))
        | inr (why, k) ↦ absurd (over-ne-again (rw (after_failure, k) at h))
      ]

  abbrev reconnecting : Manager F N → Manager F N
  reconnecting =
      server_state fl env link server clients attention keys paths error_text session_path
        identities_dir j retry "reconnecting"

  after_connection-SleptOrCooled :
      (e : String) (reached : Bool) (r : Round F) (m : Manager F N)
      → (e == session_refreshed_reconnecting) ≡ false
      → (after_connection fl env link server clients attention keys paths error_text session_path
          identities_dir j retry
          (bails e)
          reached
          r
          m).1
        ≡ again
      → SleptOrCooled m (
          after_connection fl env link server clients attention keys paths error_text session_path
            identities_dir j retry
            (bails e)
            reached
            r
            m)
  unfolding after_connection server_state
  after_connection-SleptOrCooled e true r m other h =
      rw (after_connection, other)
        (keeps-SleptOrCooled (reconnecting (record m { backoff = retry.base_ms })) m _ refl (
          after_failure-SleptOrCooled "subspace_reconnect_cooldown" e r
            (reconnecting (record m { backoff = retry.base_ms }))
            (rw (after_connection, other) at h)))
  after_connection-SleptOrCooled e false r m other h =
      rw (after_connection, other)
        (keeps-SleptOrCooled (reconnecting (m)) m _ refl (
          after_failure-SleptOrCooled "subspace_reconnect_cooldown" e r (reconnecting (m))
            (rw (after_connection, other) at h)))

  -- The round `r` waits for the cooldown `c` before it does anything else: it sleeps until the next
  -- attempt is due, if that is later than now, and makes its attempt only where no shutdown came
  -- in between.
  abbrev pub WaitsFor : ReconnectCooldown → Round F → Manager F N → Type 0
  WaitsFor c r m =
      let due = get_or (link.clock.parse c.next_attempt_at) r.now in
      let waited =
        wait_for_reconnect_cooldown_if_needed fl env link server clients attention keys paths
          error_text session_path identities_dir j retry r.now r.interrupted m in
      (waited.0.delays ≡ (if ltb r.now due then (due - r.now) ∷ m.delays else m.delays))
      × (waited.1 ≡ (ltb r.now due && r.interrupted))
      × (round fl env link server clients attention keys paths error_text session_path
            identities_dir j retry r m
          ≡ (if waited.1
              then (waited.0, over (ok tt))
              else attempt fl env link server clients attention keys paths error_text session_path
                  identities_dir j retry r waited.0))

  -- Before the next round the task has slept, or it holds a cooldown that the round waits for.
  abbrev pub IsPaused : Round F → Manager F N → Manager F N → Type 0
  IsPaused following m next =
      ((d : ℕ) × (next.delays ≡ d ∷ m.delays))
      ⊎ ((c : ReconnectCooldown) × (reconnect_cooldown next.runtime ≡ some c)
          × WaitsFor c following next)

  waits_for :
      (c : ReconnectCooldown) (r : Round F) (m : Manager F N)
      → reconnect_cooldown m.runtime ≡ some c
      → WaitsFor c r m
  unfolding wait_for_reconnect_cooldown_if_needed update_server_reconnect_cooldown round
  waits_for c r m h =
      elim (Bool-cases (ltb r.now (get_or (link.clock.parse c.next_attempt_at) r.now))) [
        | inl later ↦ rw (wait_for_reconnect_cooldown_if_needed, h, later) (refl, refl, refl)
        | inr due ↦ rw (wait_for_reconnect_cooldown_if_needed, h, due) (refl, refl, refl)
      ]

  -- A connection has ended with an error that is not the one of a refreshed session, whether it
  -- was live or not, and the task goes on with the next round: then it has slept before, or the
  -- runtime store holds a cooldown. Where it holds a cooldown, the next round, at whatever time,
  -- first sleeps until the next attempt is due if that is later than now, and makes its attempt
  -- only after that and where no shutdown came in between.
  pub after_connection-IsPaused :
      (e : String) (reached : Bool) (r following : Round F) (m : Manager F N)
      → (e == session_refreshed_reconnecting) ≡ false
      → (after_connection fl env link server clients attention keys paths error_text session_path
          identities_dir j retry
          (bails e)
          reached
          r
          m).1
        ≡ again
      → IsPaused following m
          (after_connection fl env link server clients attention keys paths error_text session_path
            identities_dir j retry
            (bails e)
            reached
            r
            m).0
  after_connection-IsPaused e reached r following m other h =
      elim (after_connection-SleptOrCooled e reached r m other h) [
        | slept d same ↦ inl (d, same)
        | cooled c held ↦ inr (
          c,
          held,
          waits_for c following
              (after_connection fl env link server clients attention keys paths error_text
                session_path identities_dir j retry (bails e) reached r m).0
              held,
        )
      ]
