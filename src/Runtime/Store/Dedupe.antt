-- ===== src/Runtime/Store/Dedupe.antt =====
-- What the deduplication of `RuntimeStore` promises over a run of calls.
pub mod Taken
use mathlib.Core.Path.{subst}
use subspace_daemon.Base.{
  Bool, Bool-cases, List, String, [], any, arith, eq_refl, false, inl, inr, refl, suc, true, ℕ, ◌+◌,
  ◌==◌, ◌||◌, ◌∙◌, ◌∷◌, ◌≡◌, ◌≤◌,
}
use subspace_daemon.Runtime.Store.{
  RuntimeStore, Rfc3339, contains, set_remove, set_insert, insert_recent, mark_failed,
  mark_processed, should_enqueue, timestamp_before_floor,
}
use subspace_daemon.Runtime.Store.Window.{
  IsValid, mark_failed-IsValid, mark_processed-IsValid, contains-set_remove, contains-set_insert,
}
use Taken.{IsTaken, waits, done, mark_processed-IsTaken}

pub data Call : Type 0 where
  enqueues : String → String → Call
  fails : String → Call
  processes : String → String → Call

module _ (clock : Rfc3339) where
  unfoldable pub step : RuntimeStore → Call → RuntimeStore
  step s (enqueues id timestamp) = (should_enqueue clock id timestamp s).0
  step s (fails id) = mark_failed id s
  step s (processes id timestamp) = mark_processed id timestamp s

  unfoldable pub run : RuntimeStore → List Call → RuntimeStore
  unfolding step
  run s [] = s
  run s (c ∷ cs) = run (step s c) cs

-- how many messages a run has processed
unfoldable pub processed_count : List Call → ℕ
processed_count [] = 0
processed_count (processes id timestamp ∷ cs) = suc (processed_count cs)
processed_count (_ ∷ cs) = processed_count cs

abbrev pub fails_id : String → Call → Bool
fails_id id (fails j) = j == id
fails_id id _ = false

should_enqueue_cases {ℓ} :
    (P : RuntimeStore → Type ℓ) (clock : Rfc3339) (x timestamp : String) (s : RuntimeStore)
    → P s
    → P (record s { pending_ids = set_insert x s.pending_ids })
    → P (should_enqueue clock x timestamp s).0
unfolding should_enqueue
should_enqueue_cases P clock x timestamp s refused added =
    elim (Bool-cases (timestamp_before_floor clock timestamp s.discard_before_ts)) [
      | inl old ↦ rw old refused
      | inr new ↦ elim (Bool-cases (contains s.recent_ids_set x || contains s.pending_ids x)) [
        | inl known ↦ rw (new, known) refused
        | inr fresh ↦ rw (new, fresh) added
      ]
    ]

module _ (clock : Rfc3339) where
  pub step-IsValid : (c : Call) {s : RuntimeStore} → IsValid s → IsValid (step clock s c)
  unfolding step
  step-IsValid (enqueues x timestamp) {s} v =
      should_enqueue_cases IsValid clock x timestamp s v
        (record { agree = v.agree; distinct = v.distinct; bounded = v.bounded })
  step-IsValid (fails x) v = mark_failed-IsValid x v
  step-IsValid (processes x timestamp) v = mark_processed-IsValid x timestamp v

  -- From a valid store, whatever the calls and their order, the recent ids stay distinct, the set
  -- agrees with the order, and there are at most as many as the window.
  pub run-IsValid : (cs : List Call) {s : RuntimeStore} → IsValid s → IsValid (run clock s cs)
  unfolding run
  run-IsValid [] v = v
  run-IsValid (c ∷ cs) v = run-IsValid cs (step-IsValid c v)

  pub window-step :
      (s : RuntimeStore) (c : Call) → (step clock s c).dedupe_window_size ≡ s.dedupe_window_size
  unfolding step mark_failed mark_processed insert_recent
  window-step s (enqueues x timestamp) =
      should_enqueue_cases (λ t. t.dedupe_window_size ≡ s.dedupe_window_size) clock x timestamp s
        refl refl
  window-step s (fails x) = refl
  window-step s (processes x timestamp) = refl

  pub window-run :
      (cs : List Call) (s : RuntimeStore)
      → (run clock s cs).dedupe_window_size ≡ s.dedupe_window_size
  unfolding run
  window-run [] s = refl
  window-run (c ∷ cs) s = window-run cs (step clock s c) ∙ window-step s c

module _ (clock : Rfc3339) (id : String) where
  enqueues-IsTaken :
      (x : String) (k : ℕ) {s : RuntimeStore}
      → IsTaken id k s
      → IsTaken id k (record s { pending_ids = set_insert x s.pending_ids })
  enqueues-IsTaken x k {s} (waits p h) =
      waits (ground (arith, contains-set_insert x id s.pending_ids)) h
  enqueues-IsTaken x k (done h y) = done h y

  fails-IsTaken :
      (x : String) (k : ℕ) {s : RuntimeStore}
      → (x == id) ≡ false
      → IsTaken id k s
      → IsTaken id k (mark_failed x s)
  unfolding mark_failed
  fails-IsTaken x k {s} other (waits p h) =
      waits (ground (arith, contains-set_remove x id s.pending_ids)) h
  fails-IsTaken x k other (done h y) = done h y

  pub run-IsTaken :
      (cs : List Call) (k : ℕ) {s : RuntimeStore}
      → IsValid s
      → IsTaken id k s
      → any (fails_id id) cs ≡ false
      → k + processed_count cs ≤ s.dedupe_window_size
      → IsTaken id (k + processed_count cs) (run clock s cs)
  unfolding run processed_count
  run-IsTaken [] k {s} v t quiet room =
      let e : k ≡ k + 0 = omega arith in subst (λ n. IsTaken id n s) e t
  run-IsTaken (enqueues x timestamp ∷ cs) k {s} v t quiet room =
      run-IsTaken cs k (step-IsValid clock (enqueues x timestamp) v)
        (should_enqueue_cases (IsTaken id k) clock x timestamp s t (enqueues-IsTaken x k t)) quiet
        (omega (arith, window-step clock s (enqueues x timestamp)))
  run-IsTaken (fails x ∷ cs) k {s} v t quiet room =
      run-IsTaken cs k (mark_failed-IsValid x v) (fails-IsTaken x k (ground arith) t) (ground arith)
        (omega (arith, window-step clock s (fails x)))
  run-IsTaken (processes x timestamp ∷ cs) k {s} v t quiet room =
      let e : suc k + processed_count cs ≡ k + suc (processed_count cs) = omega arith in
      subst (λ n. IsTaken id n (run clock (mark_processed x timestamp s) cs)) e
        (run-IsTaken cs (suc k) (mark_processed-IsValid x timestamp v)
          (mark_processed-IsTaken id x timestamp k v (omega arith) t) quiet
          (omega (arith, window-step clock s (processes x timestamp))))

  -- While the id is taken, a message with it is refused, whatever its timestamp.
  pub IsTaken-refused :
      (timestamp : String) (k : ℕ) {s : RuntimeStore}
      → IsValid s
      → IsTaken id k s
      → (should_enqueue clock id timestamp s).1 ≡ false
  unfolding should_enqueue
  IsTaken-refused timestamp k v (waits p h) = ground arith
  IsTaken-refused timestamp k v (done h y) = ground (arith, v.agree id)

  -- A message that was accepted is queued: its id is pending and not among the recent ones.
  pub accepted-IsTaken :
      (timestamp : String) {s : RuntimeStore}
      → IsValid s
      → (should_enqueue clock id timestamp s).1 ≡ true
      → IsTaken id 0 (should_enqueue clock id timestamp s).0
  unfolding should_enqueue
  accepted-IsTaken timestamp {s} v h =
      waits (ground (arith, contains-set_insert id id s.pending_ids, eq_refl id))
        (ground (arith, v.agree id))

  -- A message id that was accepted is refused, whatever its timestamp, until a call reports its
  -- failure or more messages are processed than the window holds.
  pub accepted_once :
      (first again : String) (cs : List Call) {s : RuntimeStore}
      → IsValid s
      → (should_enqueue clock id first s).1 ≡ true
      → any (fails_id id) cs ≡ false
      → processed_count cs ≤ s.dedupe_window_size
      → (should_enqueue clock id again (run clock (should_enqueue clock id first s).0 cs)).1 ≡ false
  unfolding step
  accepted_once first again cs {s} v h quiet room =
      let t = (should_enqueue clock id first s).0 in
      let w = step-IsValid clock (enqueues id first) v in
      IsTaken-refused again (0 + processed_count cs) (run-IsValid clock cs w) (
        run-IsTaken cs 0 w (accepted-IsTaken first v h) quiet
          (omega (arith, window-step clock s (enqueues id first))))
