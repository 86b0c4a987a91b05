-- ===== src/Subspace/Live/Once.antt =====
-- A connection puts a message on the wake queue once, however often the server sends it.
use mathlib.Core.Path.{subst}
use subspace_daemon.Base.{
  Bool-cases, List, String, [], any, ap, arith, eq_iff, false, if◌then◌else◌, inl, inr, refl, suc,
  sym, true, ℕ, ◌++◌, ◌+◌, ◌==◌, ◌∙◌, ◌∷◌, ◌≡◌, ◌≤◌,
}
use subspace_daemon.Attention.Float.{Float}
use subspace_daemon.Attention.Plugin.{EmbeddingBackendConfig}
use subspace_daemon.Attention.Layer.{AttentionLayer, Environment}
use subspace_daemon.Config.Stored.{ServerConfig}
use subspace_daemon.Pending.{tally, tally-append}
use subspace_daemon.Runtime.Store.{RuntimeStore, Rfc3339, should_enqueue}
use subspace_daemon.Runtime.Store.Window.{IsValid}
use subspace_daemon.Runtime.Store.Dedupe.{
  Call, enqueues, run, processed_count, fails_id, run-IsValid, run-IsTaken, IsTaken-refused,
  accepted-IsTaken, window-run,
}
use subspace_daemon.Runtime.Store.Dedupe.Taken.{IsTaken}
use subspace_daemon.Subspace.Payloads.{Link}
use subspace_daemon.Subspace.Live.{
  Live, Event, Ended, goes_on, stops, bails, close, fail_pending_sends, step, then_run, live_loop,
}
use subspace_daemon.Subspace.Live.Effect.{reports, Effect, ran, queued, ended, step-Effect}
use subspace_daemon.Wake.Process.{Item}

-- how often a message is on the queue
abbrev pub copies : {F : Type 0} → String → List (Item F) → ℕ
copies id = tally (λ item. item.envelope.message_id == id)

-- how many messages are reported as processed
unfoldable pub reported : {F : Type 0} → List (Event F) → ℕ
reported [] = 0
reported (e ∷ es) = reports e + reported es

-- The store after a round in which the message was taken, where the loop goes on.
record StaysTaken {F N K : Type 0} (id : String) (k : ℕ) (s t : Live F N K) : Type 0 where
  valid : IsValid t.runtime
  window : t.runtime.dedupe_window_size ≡ s.runtime.dedupe_window_size
  taken : IsTaken id k t.runtime

-- the message that a round has queued
queued-copies :
    {F : Type 0} (id : String) (item : Item F) (queue next : List (Item F))
    → next ≡ queue ++ (item ∷ [])
    → copies id next ≡ copies id queue + (if item.envelope.message_id == id then 1 else 0)
queued-copies id item queue next h =
    ap (copies id) h
    ∙ omega (arith, tally-append (λ x. x.envelope.message_id == id) queue (item ∷ []))

true-ne-false : true ≡ false → ⊥
true-ne-false h = cc h

-- a message that is accepted is not the one that is taken
accepted-differs :
    (clock : Rfc3339) (id : String) (x timestamp : String) (k : ℕ) (s : RuntimeStore)
    → IsValid s
    → IsTaken id k s
    → (should_enqueue clock x timestamp s).1 ≡ true
    → (x == id) ≡ false
accepted-differs clock id x timestamp k s v taken h = elim (Bool-cases (x == id)) [
  | inr differs ↦ differs
  | inl same ↦ absurd (
      true-ne-false (
        sym h
        ∙ ap (λ y. (should_enqueue clock y timestamp s).1) ((eq_iff x id).0 same)
        ∙ IsTaken-refused clock id timestamp k v taken))
]

module _ {F N K : Type 0} (clock : Rfc3339) (id : String) where
  ran-StaysTaken :
      (cs : List Call) (k : ℕ) (s t : Live F N K)
      → ((x : String) → any (fails_id x) cs ≡ false)
      → t.runtime ≡ run clock s.runtime cs
      → IsValid s.runtime
      → IsTaken id k s.runtime
      → k + processed_count cs ≤ s.runtime.dedupe_window_size
      → StaysTaken id (k + processed_count cs) s t
  ran-StaysTaken cs k s t quiet r v taken fits = record {
    valid = subst IsValid (sym r) (run-IsValid clock cs v);
    window = ap (λ u. u.dedupe_window_size) r ∙ window-run clock cs s.runtime;
    taken =
        subst (IsTaken id (k + processed_count cs)) (sym r)
          (run-IsTaken clock id cs k v taken (quiet id) fits);
  }

  -- a round in which the message is taken
  effect-StaysTaken :
      (m k : ℕ) (s : Live F N K) (next : Live F N K × Ended)
      → Effect clock m s next
      → IsValid s.runtime
      → IsTaken id k s.runtime
      → k + m ≤ s.runtime.dedupe_window_size
      → (copies id next.0.queue ≡ copies id s.queue)
        × (next.1 ≡ goes_on → StaysTaken id (k + m) s next.0)
  unfolding run processed_count
  effect-StaysTaken m k s next (ran cs quiet count r q) v taken fits = (
    ap (copies id) q,
    λ goes.
        subst (λ n. StaysTaken id (k + n) s next.0) count
          (ran-StaysTaken cs k s next.0 quiet r v taken (omega (arith, count, fits))),
  )
  effect-StaysTaken m k s next (queued item none_done h r q) v taken fits =
      let x = item.envelope.message_id in
      let timestamp = item.envelope.timestamp in
      let differs = accepted-differs clock id x timestamp k s.runtime v taken h in
      (
        queued-copies id item s.queue next.0.queue q ∙ rw differs (omega arith),
        λ goes.
            subst (λ n. StaysTaken id (k + n) s next.0) (sym none_done)
              (ran-StaysTaken (enqueues x timestamp ∷ []) k s next.0 (λ y. refl) r v taken
                (omega (arith, none_done, fits))),
      )
  effect-StaysTaken m k s next (ended over q) v taken fits =
      (ap (copies id) q, λ goes. absurd (over goes))

  -- The store after a round, where the loop goes on, and how the queue has grown.
  data Grows (m : ℕ) (s : Live F N K) (next : Live F N K × Ended) : Type 0 where
    same :
        copies id next.0.queue ≡ copies id s.queue
        → (next.1 ≡ goes_on
            → IsValid next.0.runtime
              × (next.0.runtime.dedupe_window_size ≡ s.runtime.dedupe_window_size))
        → Grows m s next
    more :
        copies id next.0.queue ≡ suc (copies id s.queue)
        → m ≡ 0
        → StaysTaken id 0 s next.0
        → Grows m s next

  effect-Grows :
      (m : ℕ) (s : Live F N K) (next : Live F N K × Ended)
      → Effect clock m s next
      → IsValid s.runtime
      → Grows m s next
  unfolding run
  effect-Grows m s next (ran cs quiet count r q) v = same (ap (copies id) q) (λ goes. (
    subst IsValid (sym r) (run-IsValid clock cs v),
    ap (λ u. u.dedupe_window_size) r ∙ window-run clock cs s.runtime,
  ))
  effect-Grows m s next (queued item none_done h r q) v =
      let x = item.envelope.message_id in
      let timestamp = item.envelope.timestamp in
      let cs = enqueues x timestamp ∷ [] in
      let valid = subst IsValid (sym r) (run-IsValid clock cs v) in
      let window = ap (λ u. u.dedupe_window_size) r ∙ window-run clock cs s.runtime in
      let grown = queued-copies id item s.queue next.0.queue q in
      elim (Bool-cases (x == id)) [
        | inr differs ↦ same (grown ∙ rw differs (omega arith)) (λ goes. (valid, window))
        | inl equal ↦ more (grown ∙ rw equal (omega arith)) none_done (record {
          valid = valid;
          window = window;
          taken = subst (IsTaken id 0) (sym r) (
              subst (λ y. IsTaken y 0 (should_enqueue clock x timestamp s.runtime).0)
                ((eq_iff x id).0 equal) (accepted-IsTaken clock x timestamp v h));
        })
      ]
  effect-Grows m s next (ended over q) v = same (ap (copies id) q) (λ goes. absurd (over goes))

module _ (fl : Float) (env : Environment fl.F) {N K P : Type 0} (link : Link fl.F N)
    (server : ServerConfig P) (clients : List (String × EmbeddingBackendConfig))
    (attention : AttentionLayer fl.F) (id : String) where
  open fl use {F}

  then_run-copies :
      (rest : Live F N K → Live F N K × Ended) (next : Live F N K × Ended) (n : ℕ)
      → copies id next.0.queue ≤ n
      → (next.1 ≡ goes_on → copies id (rest next.0).0.queue ≤ n)
      → copies id (then_run fl env link server clients attention rest next).0.queue ≤ n
  unfolding close fail_pending_sends
  then_run-copies rest (s, goes_on) n h k = k refl
  then_run-copies rest (s, stops) n h k = h
  then_run-copies rest (s, bails e) n h k = h

  live_loop-taken :
      (es : List (Event F)) (k : ℕ) (s : Live F N K)
      → IsValid s.runtime
      → IsTaken id k s.runtime
      → k + reported es ≤ s.runtime.dedupe_window_size
      → copies id (live_loop fl env link server clients attention es s).0.queue ≤ copies id s.queue
  unfolding live_loop reported
  live_loop-taken [] k s v taken fits = omega arith
  live_loop-taken (e ∷ es) k s v taken fits =
      let next = step fl env link server clients attention e s in
      let effect =
        effect-StaysTaken link.clock id (reports e) k s next
          (step-Effect fl env link server clients attention e s) v taken (omega (arith, fits)) in
      then_run-copies (live_loop fl env link server clients attention es) next (copies id s.queue)
        (omega (arith, effect.0))
        (λ goes.
          let after = effect.1 goes in
          omega (
            arith,
            effect.0,
            live_loop-taken es (k + reports e) next.0 after.valid after.taken
                (omega (arith, fits, after.window)),
          ))

  -- A connection starts with a valid runtime store. While at most as many messages are reported as
  -- processed as the window of the store holds, its loop puts a message id on the wake queue at
  -- most once, whatever the server sends and however the loop ends.
  pub queued_once :
      (es : List (Event F)) (s : Live F N K)
      → IsValid s.runtime
      → reported es ≤ s.runtime.dedupe_window_size
      → copies id (live_loop fl env link server clients attention es s).0.queue
        ≤ suc (copies id s.queue)
  unfolding live_loop reported
  queued_once [] s v fits = omega arith
  queued_once (e ∷ es) s v fits =
      let next = step fl env link server clients attention e s in
      let rest : Live F N K → Live F N K × Ended =
        live_loop fl env link server clients attention es in
      elim (effect-Grows link.clock id (reports e) s next
        (step-Effect fl env link server clients attention e s) v) [
          | same q keeps ↦
              then_run-copies rest next (suc (copies id s.queue)) (omega (arith, q)) (λ goes.
                let kept = keeps goes in
                omega (arith, q, queued_once es next.0 kept.0 (omega (arith, fits, kept.1))))
          | more q none_done after ↦
              then_run-copies rest next (suc (copies id s.queue)) (omega (arith, q)) (λ goes.
                omega (
                  arith,
                  q,
                  live_loop-taken es 0 next.0 after.valid after.taken
                      (omega (arith, fits, after.window)),
                ))
        ]
