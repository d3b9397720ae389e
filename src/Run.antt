-- ===== src/Run.antt =====
-- src/mnet_server.c, `mnet_run`: the set-up, the single-threaded loop, and the signal handler.
pub mod Single
pub mod Launching
mod Tests
use mnet.Base.{
  ℕ, zero, suc, ◌+◌, ◌-◌, Bool, true, false, not, ◌&&◌, List, [], ◌∷◌, Option, none, some, ltb, leb,
  ◌==◌, if◌then◌else◌,
}
use mnet.App.{ℤ, pos, negsuc, App}
use mnet.Pool.{Socket, capacity_for}

-- What `mnet_tcp_accept` returns: a connection, or no socket, with EINTR or another error.
pub data Accept : Type 0 where
  connection : Socket → Accept
  interrupted broken : Accept

-- What the single-threaded loop does.
pub data Action : Type 0 where
  -- send_simple_error with 503
  refuses : Socket → Action
  -- mnet_handle_client
  serves : Socket → Action
  -- mnet_close
  closes : Socket → Action
  -- the loop ends and the listener is closed
  stops : Action

-- `app->max_connections > 0 && app->active_connections >= app->max_connections`
unfoldable pub at_limit : ℕ → ℕ → Bool
at_limit max active = ltb 0 max && leb max active

-- One round behind a connection, with what the next rounds do.
unfoldable pub admit : ℕ → ℕ → Socket → (ℕ → List Action) → List Action
admit max active c next =
    if at_limit max active
    then refuses c ∷ closes c ∷ next active
    else serves c ∷ closes c ∷ next (active + 1 - 1)

-- `while (app->running)`. Each event is what `app->running` is at the head of the loop, and what the accept
-- behind it returns.
unfoldable pub single_loop : ℕ → ℕ → List (Bool × Accept) → List Action
single_loop max active [] = []
single_loop max active ((false, a) ∷ events) = stops ∷ []
single_loop max active ((true, interrupted) ∷ events) = single_loop max active events
single_loop max active ((true, broken) ∷ events) = stops ∷ []
single_loop max active ((true, connection c) ∷ events) =
    admit max active c (λ n. single_loop max n events)

-- The loop that starts the workers from the i-th on: how many run at its end. `creates i` says whether
-- mnet_thread_create succeeds.
unfoldable pub start_loop : (ℕ → Bool) → ℕ → ℕ → ℕ
start_loop creates zero i = i
start_loop creates (suc left) i =
    let more = start_loop creates left (suc i) in if creates i then more else i

-- How `mnet_run` goes on, or why it returns -1.
pub data Launch : Type 0 where
  no_app no_listener no_memory no_worker : Launch
  single : Launch
  -- the capacity of the queue, and the number of the workers
  pooled : ℕ → ℕ → Launch

-- A value that is only asked whether it is positive.
unfoldable pub positive_part : ℤ → ℕ
positive_part (pos n) = n
positive_part (negsuc n) = 0

module _ {H M : Type 0} where
  -- `app->workers` is lowered to the number of the workers that did start.
  unfoldable pub with_workers : App H M → ℕ → ℕ → Launch × App H M
  with_workers app capacity started =
      if started == 0
      then (no_worker, record app { workers = 0 })
      else (pooled capacity started, record app { workers = started })

  unfoldable pub launch_pool : Bool → (ℕ → Bool) → App H M → Launch × App H M
  launch_pool memory creates app =
      if memory
      then with_workers app (capacity_for (positive_part app.max_connections))
          (start_loop creates app.workers 0)
      else (no_memory, app)

  -- `app->port = port` in front of mnet_tcp_listen
  unfoldable pub at_port : ℕ → App H M → App H M
  at_port port app = record app { port = port }

  -- `app->running = 1; app->active_connections = 0;` behind it
  unfoldable pub started : App H M → App H M
  started app = record app { running = true; active_connections = 0 }

  -- `mnet_run` up to its loops.
  unfoldable pub launch : Bool → Bool → (ℕ → Bool) → ℕ → App H M → Launch × App H M
  launch listens memory creates port app =
      if listens
      then (if leb app.workers 1
          then (single, started (at_port port app))
          else launch_pool memory creates (started (at_port port app)))
      else (no_listener, at_port port app)

  unfoldable pub run : Bool → Bool → (ℕ → Bool) → ℕ → Option (App H M) → Launch × Option (App H M)
  run listens memory creates port none = (no_app, none)
  run listens memory creates port (some app) =
      let (l, after) = launch listens memory creates port app in (l, some after)

  -- `sig_handler`, with `g_running_app`
  unfoldable pub sig_handler : Option (App H M) → Option (App H M)
  sig_handler none = none
  sig_handler (some app) = some (record app { running = false })
