-- ===== src/Pool.antt =====
-- src/mnet_server.c: the bounded queue of accepted connections, `mnet_pool_t` and its operations.
-- An operation runs under the mutex, so each is one step; where the source waits on a condition
-- variable the step answers `waits` and leaves the pool as it is.
pub mod Queue
pub mod Take
pub mod Refinement
pub mod Server
mod Tests
use mnet.Base.{
  ℕ, zero, suc, ◌+◌, ◌-◌, ◌%◌, ◌^◌, Bool, true, false, not, ◌&&◌, List, [], ◌∷◌, ◌==◌,
  if◌then◌else◌, get_or, set,
}

abbrev pub Socket : Type 0
Socket = ℕ

-- The fields of `mnet_pool_t` that its operations use, and `app->running`.
pub record Pool : Type 0 where
  pub slots : List Socket
  pub capacity : ℕ
  pub head : ℕ
  pub count : ℕ
  pub shutting_down : Bool
  pub running : Bool

-- size_t addition
abbrev pub add_size : ℕ → ℕ → ℕ
add_size a b = (a + b) % 2 ^ 64

pub data Push : Type 0 where
  -- return 0
  queued : Pool → Push
  -- return -1
  refused : Pool → Push
  -- mnet_cond_wait(&pool->not_full, ...)
  waits : Push

-- The write to the first free slot, and `pool->count++`.
unfoldable pub add_tail : Pool → Socket → Pool
add_tail p client = record p {
  slots = set p.slots (add_size p.head p.count % p.capacity) client;
  count = add_size p.count 1;
}

unfoldable pub push : Pool → Socket → Push
push p client =
    if p.count == p.capacity && not p.shutting_down
    then (if not p.running then refused (record p { shutting_down = true }) else waits)
    else if p.shutting_down
    then refused p
    else queued (add_tail p client)

pub data Pop : Type 0 where
  -- return 0, with *out
  got : Socket → Pool → Pop
  -- return -1
  finished : Pop
  -- mnet_cond_wait(&pool->not_empty, ...)
  starves : Pop

-- pool->head after one element is taken
unfoldable pub take_head : Pool → Pool
take_head p = record p { head = add_size p.head 1 % p.capacity; count = p.count - 1 }

unfoldable pub pop : Pool → Pop
pop p =
    if p.count == 0 && not p.shutting_down
    then starves
    else if p.count == 0
    then finished
    else got (get_or p.slots p.head 0) (take_head p)

-- `mnet_pool_shutdown` up to the joins: the workers are told to stop.
unfoldable pub begin_shutdown : Pool → Pool
begin_shutdown p = record p { shutting_down = true }

-- `while (pool->count > 0) { ...; mnet_close(c); }`: the sockets that it closes, in order. Each round
-- lowers the count, so the count is fuel enough.
unfoldable pub drain_loop : ℕ → Pool → List Socket
drain_loop zero p = []
drain_loop (suc n) p =
    let rest = drain_loop n (take_head p) in
    if p.count == 0 then [] else get_or p.slots p.head 0 ∷ rest

unfoldable pub drain : Pool → List Socket
drain p = drain_loop p.count p

-- The pool that `mnet_run` sets up. The slots come from malloc, with any contents.
unfoldable pub initial : List Socket → ℕ → Pool
initial slots capacity = record {
  slots = slots;
  capacity = capacity;
  head = 0;
  count = 0;
  shutting_down = false;
  running = true;
}

-- `app->max_connections > 0 ? app->max_connections : 128`. A negative max_connections is 0 here: the
-- source only asks whether it is positive.
unfoldable pub capacity_for : ℕ → ℕ
capacity_for max_connections = if max_connections == 0 then 128 else max_connections
