-- ===== src/Subspace/Live/Answered.antt =====
-- Every request that a connection takes is answered once, when the connection has ended at the
-- latest.
use subspace_daemon.Base.{List, String, [], ap, arith, refl, ℕ, ◌+◌, ◌∷◌, ◌≡◌, ◌≢◌}
use subspace_daemon.Attention.Float.{Float}
use subspace_daemon.Attention.Plugin.{EmbeddingBackendConfig}
use subspace_daemon.Attention.Layer.{AttentionLayer, Environment}
use subspace_daemon.Config.Stored.{ServerConfig}
use subspace_daemon.Pending.{answered, waiting}
use subspace_daemon.Subspace.Payloads.{Link}
use subspace_daemon.Subspace.Live.Balance.{is_reply_to, asks, balance, close-balance, step-balance}
use subspace_daemon.Subspace.Live.{
  Live, Event, Ended, goes_on, stops, bails, fail_pending_sends, close, step, then_run, live_loop,
}

-- what is left to do after an event
abbrev pub asked_until : Ended → ℕ → ℕ
asked_until goes_on m = m
asked_until stops m = 0
asked_until (bails e) m = 0

module _ (fl : Float) (env : Environment fl.F) {N K P : Type 0} (link : Link fl.F N)
    (server : ServerConfig P) (clients : List (String × EmbeddingBackendConfig))
    (attention : AttentionLayer fl.F) (n : ℕ) where
  open fl use {F}

  -- how often an answer to the request is asked for, by the events until the loop ends
  unfoldable pub asked : List (Event F) → Live F N K → ℕ
  asked [] s = 0
  asked (e ∷ es) s =
      let next = step fl env link server clients attention e s in
      asks n e + asked_until next.1 (asked es next.0)

  then_run-balance :
      (rest : Live F N K → Live F N K × Ended) (next : Live F N K × Ended) (m : ℕ)
      → balance n (rest next.0).0 ≡ m + balance n next.0
      → balance n (then_run fl env link server clients attention rest next).0
        ≡ asked_until next.1 m + balance n next.0
  then_run-balance rest (s, goes_on) m h = h
  then_run-balance rest (s, stops) m h = omega (arith, close-balance n s)
  then_run-balance rest (s, bails e) m h = omega (arith, close-balance n s)

  live_loop-balance :
      (es : List (Event F)) (s : Live F N K)
      → balance n (live_loop fl env link server clients attention es s).0 ≡ asked es s + balance n s
  unfolding live_loop asked
  live_loop-balance [] s = omega arith
  live_loop-balance (e ∷ es) s =
      let next = step fl env link server clients attention e s in
      omega (
        arith,
        then_run-balance (live_loop fl env link server clients attention es) next (asked es next.0)
            (live_loop-balance es next.0),
        step-balance fl env link server clients attention n e s,
      )

  then_run-IsClosed :
      (rest : Live F N K → Live F N K × Ended) (next : Live F N K × Ended)
      → ((rest next.0).1 ≢ goes_on → (rest next.0).0.pending ≡ [])
      → (then_run fl env link server clients attention rest next).1 ≢ goes_on
      → (then_run fl env link server clients attention rest next).0.pending ≡ []
  unfolding close fail_pending_sends
  then_run-IsClosed rest (s, goes_on) h ended = h ended
  then_run-IsClosed rest (s, stops) h ended = refl
  then_run-IsClosed rest (s, bails e) h ended = refl

  live_loop-IsClosed :
      (es : List (Event F)) (s : Live F N K)
      → (live_loop fl env link server clients attention es s).1 ≢ goes_on
      → (live_loop fl env link server clients attention es s).0.pending ≡ []
  unfolding live_loop
  live_loop-IsClosed [] s ended = absurd (ended refl)
  live_loop-IsClosed (e ∷ es) s ended =
      let next = step fl env link server clients attention e s in
      then_run-IsClosed (live_loop fl env link server clients attention es) next
        (live_loop-IsClosed es next.0) ended

  -- A connection starts its loop with no pending request and has answered none. When the loop has
  -- ended, with `Ok(())` or an error, each request is answered as often as the loop took a command
  -- for it: all pending requests were answered too, and none was answered twice.
  pub answered_once :
      (es : List (Event F)) (s : Live F N K)
      → s.pending ≡ []
      → s.replies ≡ []
      → (live_loop fl env link server clients attention es s).1 ≢ goes_on
      → answered n (live_loop fl env link server clients attention es s).0.replies ≡ asked es s
  answered_once es s none_pending none_answered ended =
      let after = (live_loop fl env link server clients attention es s).0 in
      omega (
        arith,
        live_loop-balance es s,
        ap (waiting (is_reply_to n)) none_pending,
        ap (answered n) none_answered,
        ap (waiting (is_reply_to n)) (live_loop-IsClosed es s ended),
      )
