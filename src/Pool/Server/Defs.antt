-- ===== src/Pool/Server/Defs.antt =====
-- The state that the accept loop and the workers share, and their steps.
use mnet.Base.{
  ℕ, suc, ◌+◌, ◌-◌, ◌≡◌, Bool, true, false, ◌&&◌, List, [], ◌∷◌, ◌++◌, leb, ltb, if◌then◌else◌,
  ◌==◌,
}
use mnet.Pool.{
  Socket, Pool, queued, refused, waits, push, got, finished, starves, pop, begin_shutdown, drain,
  initial, capacity_for,
}

-- Where the accept loop stands.
pub data Acceptor : Type 0 where
  -- before mnet_tcp_accept
  accepting : Acceptor
  -- a connection that passed the test of max_connections
  passed : Socket → Acceptor
  -- counted in active_connections, and in or before mnet_pool_push
  pushing : Socket → Acceptor
  -- asleep in mnet_cond_wait(&pool->not_full), not signalled yet
  blocked : Socket → Acceptor
  -- mnet_pool_push returned -1
  rejected : Socket → Acceptor
  -- behind the loop, before mnet_pool_shutdown
  stopped : Acceptor
  -- joining the workers
  joining : Acceptor
  -- mnet_pool_shutdown has returned
  done : Acceptor

pub record Server : Type 0 where
  pub pool : Pool
  pub max_connections : ℕ
  -- app->active_connections
  pub active : ℕ
  pub acceptor : Acceptor
  -- workers that hold no connection and are awake
  pub idle : ℕ
  -- workers asleep in mnet_cond_wait(&pool->not_empty), not signalled yet
  pub asleep : ℕ
  -- the connections that workers serve
  pub serving : List Socket
  -- workers that have closed their connection and not yet lowered active_connections
  pub leaving : ℕ
  -- workers whose thread function has returned
  pub exited : ℕ
  -- every connection that was accepted, and every one that was closed, the latest first
  pub accepted : List Socket
  pub closed : List Socket

-- `app->max_connections > 0 && active >= app->max_connections`
unfoldable pub over_limit : Server → Bool
over_limit s = ltb 0 s.max_connections && leb s.max_connections s.active

-- A connection arrives: it is refused with a 503 and closed, or goes on to be counted.
unfoldable pub arrive : Server → Socket → Server
arrive s c =
    if over_limit s
    then record s { accepted = c ∷ s.accepted; closed = c ∷ s.closed }
    else record s { accepted = c ∷ s.accepted; acceptor = passed c }

-- mnet_cond_signal(&pool->not_empty) wakes one of the sleeping workers, if there is one.
abbrev pub woken : ℕ → ℕ
woken asleep = if asleep == 0 then 0 else 1

-- mnet_cond_signal(&pool->not_full) wakes the accept loop, if it sleeps.
unfoldable pub signal_acceptor : Acceptor → Acceptor
signal_acceptor (blocked c) = pushing c
signal_acceptor accepting = accepting
signal_acceptor (passed c) = passed c
signal_acceptor (pushing c) = pushing c
signal_acceptor (rejected c) = rejected c
signal_acceptor stopped = stopped
signal_acceptor joining = joining
signal_acceptor done = done

-- A step of one thread. The premises are where the thread stands and what the pool answers.
pub data Step (s : Server) : Server → Type 0 where
  -- mnet_tcp_accept returned c, while the server runs
  accept : (c : Socket) → s.acceptor ≡ accepting → s.pool.running ≡ true → Step s (arrive s c)
  -- app->active_connections++ under the mutex
  admit :
      (c : Socket)
      → s.acceptor ≡ passed c
      → Step s (record s { acceptor = pushing c; active = s.active + 1 })
  enqueue :
      (c : Socket) (q : Pool)
      → s.acceptor ≡ pushing c
      → push s.pool c ≡ queued q
      → Step s (record s {
        pool = q;
        acceptor = accepting;
        idle = s.idle + woken s.asleep;
        asleep = s.asleep - 1;
      })
  -- the queue is full: the accept loop falls asleep in mnet_pool_push
  block :
      (c : Socket)
      → s.acceptor ≡ pushing c
      → push s.pool c ≡ waits
      → Step s (record s { acceptor = blocked c })
  enqueue_refused :
      (c : Socket) (q : Pool)
      → s.acceptor ≡ pushing c
      → push s.pool c ≡ refused q
      → Step s (record s { pool = q; acceptor = rejected c })
  -- app->active_connections--; mnet_close(client); break
  reject :
      (c : Socket)
      → s.acceptor ≡ rejected c
      → Step s (record s { acceptor = stopped; active = s.active - 1; closed = c ∷ s.closed })
  -- a worker takes a connection
  dequeue :
      (c : Socket) (q : Pool) (n : ℕ)
      → s.idle ≡ suc n
      → pop s.pool ≡ got c q
      → Step s (record s {
        pool = q;
        idle = n;
        serving = c ∷ s.serving;
        acceptor = signal_acceptor s.acceptor;
      })
  -- the queue is empty: a worker falls asleep in mnet_pool_pop
  doze :
      (n : ℕ)
      → s.idle ≡ suc n
      → pop s.pool ≡ starves
      → Step s (record s { idle = n; asleep = s.asleep + 1 })
  -- mnet_cond_wait may also return without a signal
  worker_unsignalled :
      (n : ℕ) → s.asleep ≡ suc n → Step s (record s { asleep = n; idle = s.idle + 1 })
  acceptor_unsignalled :
      (c : Socket) → s.acceptor ≡ blocked c → Step s (record s { acceptor = pushing c })
  -- mnet_handle_client has returned; mnet_close(client)
  close :
      (c : Socket) (before after : List Socket)
      → s.serving ≡ before ++ c ∷ after
      → Step s
          (record s { serving = before ++ after; leaving = s.leaving + 1; closed = c ∷ s.closed })
  -- pool->app->active_connections-- under the mutex
  leave :
      (n : ℕ)
      → s.leaving ≡ suc n
      → Step s (record s { leaving = n; idle = s.idle + 1; active = s.active - 1 })
  -- mnet_pool_pop returned -1: the worker's loop ends
  exit :
      (n : ℕ)
      → s.idle ≡ suc n
      → pop s.pool ≡ finished
      → Step s (record s { idle = n; exited = s.exited + 1 })
  -- a signal, or mnet_stop
  stop : Step s (record s { pool = record s.pool { running = false } })
  -- the accept loop ends: the server stopped, or accept failed
  leave_loop : s.acceptor ≡ accepting → Step s (record s { acceptor = stopped })
  -- shutting_down is set, and mnet_cond_broadcast(&pool->not_empty) wakes every worker. (On not_full only
  -- this thread itself could wait.)
  shut_down :
      s.acceptor ≡ stopped
      → Step s (record s {
        acceptor = joining;
        pool = begin_shutdown s.pool;
        idle = s.idle + s.asleep;
        asleep = 0;
      })
  -- every worker is joined; what still waits is drained and closed
  finish :
      s.acceptor ≡ joining
      → s.idle ≡ 0
      → s.asleep ≡ 0
      → s.serving ≡ []
      → s.leaving ≡ 0
      → Step s (record s {
        acceptor = done;
        closed = drain s.pool ++ s.closed;
        pool = record s.pool { count = 0 };
      })

pub data Reach (s : Server) : Server → Type 0 where
  here : Reach s s
  next : {t u : Server} → Reach s t → Step t u → Reach s u

-- The server as `mnet_run` starts it, with its worker threads.
unfoldable pub start : List Socket → ℕ → ℕ → Server
start slots max_connections workers = record {
  pool = initial slots (capacity_for max_connections);
  max_connections = max_connections;
  active = 0;
  acceptor = accepting;
  idle = workers;
  asleep = 0;
  serving = [];
  leaving = 0;
  exited = 0;
  accepted = [];
  closed = [];
}
