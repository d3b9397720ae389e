-- ===== src/Pool/Server/Safety.antt =====
-- What holds of every reachable state of the server.
use mnet.Base.{
  ℕ, ◌^◌, ◌≤◌, ◌<◌, ◌≡◌, ◌≢◌, refl, ap, ◌∙◌, List, [], ◌∷◌, arith, length, length-append, subst,
}
use mnet.Pool.{Socket, push, waits, initial, capacity_for}
use mnet.Pool.Queue.{initial-IsValid, push-Pushed, Pushed}
use mnet.Pool.Server.Defs.{
  Acceptor, accepting, passed, pushing, blocked, done, Server, Step, Reach, here, next, start,
  arrive, accept, admit, enqueue, block, enqueue_refused, reject, dequeue, doze, worker_unsignalled,
  acceptor_unsignalled, signal_acceptor, close, leave, exit, stop, leave_loop, shut_down, finish,
}
use mnet.Pool.Server.Steps.{count, Invariant, Below, Step-Invariant}

pub Reach-Invariant : {s t : Server} → Invariant s → Reach s t → Invariant t
Reach-Invariant h here = h
Reach-Invariant h (next r st) = Step-Invariant st (Reach-Invariant h r)

-- Once the server is done nothing waits and no worker is left.
record Empty (s : Server) : Type 0 where
  no_idle : s.idle ≡ 0
  no_asleep : s.asleep ≡ 0
  no_serving : length s.serving ≡ 0
  no_leaving : s.leaving ≡ 0
  no_waiting : s.pool.count ≡ 0

abbrev Ended : Server → Type 0
Ended s = s.acceptor ≡ done → Empty s

arrive-Ended : (s : Server) (c : Socket) → s.acceptor ≡ accepting → Ended (arrive s c)
unfolding arrive
arrive-Ended s c at h = absurd (ground arith)

signal-done : (a : Acceptor) → signal_acceptor a ≡ done → a ≡ done
unfolding signal_acceptor
signal-done (blocked c) e = absurd (cc)
signal-done accepting e = e
signal-done (passed c) e = e
signal-done _ e = e

Step-Ended : {s t : Server} → Step s t → Ended s → Ended t
Step-Ended {s} (accept c at up) h e = arrive-Ended s c at e
Step-Ended {s} (admit c at) h e = absurd (cc)
Step-Ended {s} (enqueue c q at pushed) h e = absurd (cc)
Step-Ended {s} (block c at pushed) h e = absurd (cc)
Step-Ended {s} (enqueue_refused c q at pushed) h e = absurd (cc)
Step-Ended {s} (reject c at) h e = absurd (cc)
Step-Ended {s} (dequeue c q n i popped) h e =
    absurd (omega (arith, (h (signal-done s.acceptor e)).no_idle))
Step-Ended {s} (doze n i popped) h e = absurd (omega (arith, (h e).no_idle))
Step-Ended {s} (worker_unsignalled n a) h e = absurd (omega (arith, (h e).no_asleep))
Step-Ended {s} (acceptor_unsignalled c at) h e = absurd (cc)
Step-Ended {s} (close c before after served) h e =
    absurd (omega (arith, (h e).no_serving, ap length served, length-append before (c ∷ after)))
Step-Ended {s} (leave n l) h e = absurd (omega (arith, (h e).no_leaving))
Step-Ended {s} (exit n i popped) h e = absurd (omega (arith, (h e).no_idle))
Step-Ended {s} stop h e =
    let x = h e in
    record {
      no_idle = x.no_idle;
      no_asleep = x.no_asleep;
      no_serving = x.no_serving;
      no_leaving = x.no_leaving;
      no_waiting = x.no_waiting;
    }
Step-Ended {s} (leave_loop at) h e = absurd (cc)
Step-Ended {s} (shut_down at) h e = absurd (cc)
Step-Ended {s} (finish at i z v l) h e = record {
  no_idle = i;
  no_asleep = z;
  no_serving = ap length v;
  no_leaving = l;
  no_waiting = refl;
}

Reach-Ended : {s t : Server} → Ended s → Reach s t → Ended t
Reach-Ended h here = h
Reach-Ended h (next r st) = Step-Ended st (Reach-Ended h r)

arrive-max : (s : Server) (c : Socket) → (arrive s c).max_connections ≡ s.max_connections
unfolding arrive
arrive-max s c = ground arith

Step-max : {s t : Server} → Step s t → t.max_connections ≡ s.max_connections
Step-max {s} (accept c at up) = arrive-max s c
Step-max {s} (admit c at) = refl
Step-max _ = refl

Reach-max : {s t : Server} → Reach s t → t.max_connections ≡ s.max_connections
Reach-max here = refl
Reach-max (next r st) = Step-max st ∙ Reach-max r

count-of_empty : (x : Socket) (l : List Socket) → length l ≡ 0 → count x l ≡ 0
count-of_empty x [] e = refl
count-of_empty x (y ∷ l) e = absurd (omega arith)

at_most : (a : Acceptor) (n m : ℕ) → Below a n m → n ≤ m
at_most accepting n m h = h
at_most (passed c) n m h = omega arith
at_most _ n m h = h

module _ (slots : List Socket) (max workers : ℕ) (max_int : max < 2 ^ 31)
    (allocated : length slots ≡ capacity_for max) where
  pub start-Invariant : Invariant (start slots max workers)
  unfolding start
  start-Invariant = record {
    valid = initial-IsValid slots max max_int allocated;
    counts = unfold initial capacity_for in ground arith;
    conserved = λ x. unfold initial in omega arith;
  }

  start-Ended : Ended (start slots max workers)
  unfolding start
  start-Ended e = absurd (cc)

  reached :
      {s : Server} → Reach (start slots max workers) s → Invariant s × (s.max_connections ≡ max)
  reached r = (Reach-Invariant start-Invariant r, unfold start in Reach-max r)

  -- The counter never exceeds a positive max_connections, in whatever order the threads run.
  pub active-le-max : {s : Server} → Reach (start slots max workers) s → 0 < max → s.active ≤ max
  active-le-max {s} r h =
      let (inv, e) = reached r in
      rw e at (at_most s.acceptor s.active s.max_connections (inv.counts.limit (omega arith)))

  -- With a positive max_connections the queue is as long as the limit, so the accept loop never waits
  -- in mnet_pool_push for a free slot.
  pub push-ne-waits :
      {s : Server} (c : Socket)
      → Reach (start slots max workers) s
      → 0 < max
      → s.acceptor ≡ pushing c
      → push s.pool c ≢ waits
  push-ne-waits {s} c r h at e =
      let (inv, m) = reached r in
      let full = subst (Pushed s.pool c) e (push-Pushed s.pool c inv.valid) in
      ground (arith, inv.counts.balance, inv.counts.limit, inv.counts.capacity)

  -- When mnet_pool_shutdown has returned, every connection has been closed exactly as
  -- often as it was accepted.
  pub closed_once :
      {s : Server} (x : Socket)
      → Reach (start slots max workers) s
      → s.acceptor ≡ done
      → count x s.accepted ≡ count x s.closed
  closed_once {s} x r at =
      let inv = (reached r).0 in
      let ended = Reach-Ended start-Ended r at in
      ground (arith, inv.conserved x, ended.no_waiting, count-of_empty x s.serving ended.no_serving)
