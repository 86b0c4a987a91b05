-- ===== src/Examples/Managers.antt =====
-- The task of a server after a connection that failed.
use subspace_daemon.Base.{String, [], err, false, lookup, none, refl, some, true, ℕ, ◌∷◌, ◌≡◌}
use subspace_daemon.Runtime.Store.{load, count_failure, open_window, empty_store}
use subspace_daemon.Status.{new as new_status}
use subspace_daemon.Subspace.Identity.{IdentityError}
use subspace_daemon.Subspace.Join.{World}
use subspace_daemon.Subspace.Live.{bails}
use subspace_daemon.Subspace.Manager.{
  Manager, Round, Next, again, after_connection, run_server_manager,
}
use subspace_daemon.Subspace.Manager.Paused.{IsPaused, after_connection-IsPaused}
use subspace_daemon.Attention.Layer.{new}
use subspace_daemon.Examples.Layers.{small, machine, config}
use subspace_daemon.Examples.Stores.{dice, retry}
use subspace_daemon.Examples.Identities.{keys, paths}
use subspace_daemon.Examples.Connections.{link, server}

abbrev error_text : IdentityError → String
error_text e = "error"

abbrev manager : Manager ℕ ℕ
manager = record {
  disk = [];
  runtime = load 0 none 2 none;
  status = new_status "main" [];
  queue = [];
  frames = [];
  replies = [];
  failures = [];
  backoff = 40;
  delays = [];
}

abbrev world : World ℕ
world = record {
  connecting = some "refused";
  join_ref = "j";
  sending = none;
  incoming = [];
  writing = none;
  flushing = none;
  events = [];
}

abbrev r : Round ℕ
r = record {
  now = 1;
  interrupted = false;
  reauth = err "refused";
  writing = none;
  world = world;
  failed_at = 2;
  flushing = none;
  woken = false;
}

abbrev next : Manager ℕ ℕ × Next
next =
    after_connection small machine link server [] (new small machine config) keys paths error_text
      "session" "dir" dice retry (bails "wake queue full") true r manager

next_here : next.1 ≡ again
unfolding after_connection count_failure open_window load empty_store
next_here = refl

-- After a connection that was live, the sleep is the first one again.
delays_here : next.0.delays ≡ 10 ∷ []
unfolding after_connection count_failure open_window load empty_store
delays_here = refl

after_connection-IsPaused_example :
    IsPaused small machine link server []
      (new small machine config)
      keys
      paths
      error_text
      "session"
      "dir"
      dice
      retry
      r
      manager
      next.0
after_connection-IsPaused_example =
    after_connection-IsPaused small machine link server [] (new small machine config) keys paths
      error_text "session" "dir" dice retry "wake queue full" true r r manager refl next_here

-- Without a session the task sleeps, each time for twice as long.
no_session_here :
    (run_server_manager small machine link server []
      (new small machine config)
      keys
      paths
      error_text
      "session"
      "dir"
      dice
      retry
      (r ∷ r ∷ r ∷ [])
      manager).0.delays
    ≡ 100 ∷ 80 ∷ 40 ∷ []
unfolding run_server_manager load empty_store lookup
no_session_here = refl
