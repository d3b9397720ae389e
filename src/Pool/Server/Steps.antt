-- ===== src/Pool/Server/Steps.antt =====
-- The invariant of the server, and every step keeps it.
use mnet.Base.{
  ℕ, ◌+◌, ◌≤◌, ◌<◌, ◌≡◌, ◌≢◌, refl, ap, ◌∙◌, List, [], ◌∷◌, ◌++◌, arith, length, length-append,
  ◌==◌, if◌then◌else◌,
}
use mnet.Pool.{Socket, Pool, begin_shutdown, drain}
use mnet.Pool.Queue.{IsValid, waiting, begin_shutdown-IsValid}
use mnet.Pool.Take.{queued_facts, refused_facts, got_facts, drain_loop-waiting}
use mnet.Pool.Server.Defs.{
  Acceptor, accepting, passed, pushing, blocked, rejected, stopped, joining, done, Server,
  over_limit, arrive, Step, accept, admit, enqueue, block, enqueue_refused, reject, dequeue, doze,
  worker_unsignalled, acceptor_unsignalled, signal_acceptor, close, leave, exit, stop, leave_loop,
  shut_down, finish,
}

-- How often a socket stands in a list.
abbrev pub count : Socket → List Socket → ℕ
count x [] = 0
count x (y ∷ l) = (if x == y then 1 else 0) + count x l

pub count-append : (x : Socket) (l r : List Socket) → count x (l ++ r) ≡ count x l + count x r
count-append x [] r = omega arith
count-append x (y ∷ l) r = omega (arith, count-append x l r)

-- The connection in the accept loop's hand, and whether it is counted in `active`.
abbrev pub in_hand : Acceptor → List Socket
in_hand (passed c) = c ∷ []
in_hand (pushing c) = c ∷ []
in_hand (blocked c) = c ∷ []
in_hand (rejected c) = c ∷ []
in_hand accepting = []
in_hand stopped = []
in_hand joining = []
in_hand done = []

abbrev pub counted : Acceptor → ℕ
counted (pushing c) = 1
counted (blocked c) = 1
counted (rejected c) = 1
counted (passed c) = 0
counted accepting = 0
counted stopped = 0
counted joining = 0
counted done = 0

-- A connection that passed the test finds the counter below the limit.
abbrev pub Below : Acceptor → ℕ → ℕ → Type 0
Below (passed c) active limit = active < limit
Below (pushing c) active limit = active ≤ limit
Below (blocked c) active limit = active ≤ limit
Below (rejected c) active limit = active ≤ limit
Below accepting active limit = active ≤ limit
Below stopped active limit = active ≤ limit
Below joining active limit = active ≤ limit
Below done active limit = active ≤ limit

pub record Counts (s : Server) : Type 0 where
  -- active_connections counts the waiting, the served and the leaving connections, and the one that
  -- is being pushed
  pub balance :
      s.acceptor ≢ done
      → s.active ≡ s.pool.count + length s.serving + s.leaving + counted s.acceptor
  pub limit : 0 < s.max_connections → Below s.acceptor s.active s.max_connections
  pub capacity : 0 < s.max_connections → s.pool.capacity ≡ s.max_connections

-- Every accepted connection is waiting, served, in the accept loop's hand, or closed, and only once.
abbrev pub Conserved : Server → Type 0
Conserved s =
    (x : Socket)
    → count x s.accepted
      ≡ count x s.closed
        + count x (waiting s.pool)
        + count x s.serving
        + count x (in_hand s.acceptor)

pub record Invariant (s : Server) : Type 0 where
  pub valid : IsValid s.pool
  pub counts : Counts s
  pub conserved : Conserved s

arrive-pool : (s : Server) (c : Socket) → (arrive s c).pool ≡ s.pool
unfolding arrive
arrive-pool s c = ground arith

arrive-IsValid : (s : Server) (c : Socket) → IsValid s.pool → IsValid (arrive s c).pool
arrive-IsValid s c v = rw (arrive-pool s c) v

pub Step-IsValid : {s t : Server} → Step s t → IsValid s.pool → IsValid t.pool
Step-IsValid {s} (accept c at up) v = arrive-IsValid s c v
Step-IsValid {s} (admit c at) v = v
Step-IsValid {s} (enqueue c q at e) v = (queued_facts s.pool q c v e).0
Step-IsValid {s} (block c at e) v = v
Step-IsValid {s} (enqueue_refused c q at e) v = (refused_facts s.pool q c v e).0
Step-IsValid {s} (reject c at) v = v
Step-IsValid {s} (dequeue c q n i e) v = (got_facts s.pool q c v e).0
Step-IsValid {s} (doze n i e) v = v
Step-IsValid {s} (worker_unsignalled n e) v = v
Step-IsValid {s} (acceptor_unsignalled c at) v = v
Step-IsValid {s} (close c before after e) v = v
Step-IsValid {s} (leave n e) v = v
Step-IsValid {s} (exit n i e) v = v
Step-IsValid {s} stop v = record {
  allocated = v.allocated;
  small = v.small;
  head_in = v.head_in;
  count_in = v.count_in;
}
Step-IsValid {s} (leave_loop at) v = v
Step-IsValid {s} (shut_down at) v = begin_shutdown-IsValid s.pool v
Step-IsValid {s} (finish at i z e l) v = record {
  allocated = v.allocated;
  small = v.small;
  head_in = v.head_in;
  count_in = omega arith;
}

in_hand-signal : (a : Acceptor) → in_hand (signal_acceptor a) ≡ in_hand a
unfolding signal_acceptor
in_hand-signal (blocked c) = refl
in_hand-signal accepting = refl
in_hand-signal (passed c) = refl
in_hand-signal _ = refl

counted-signal : (a : Acceptor) → counted (signal_acceptor a) ≡ counted a
unfolding signal_acceptor
counted-signal (blocked c) = refl
counted-signal accepting = refl
counted-signal _ = refl

Below-signal :
    (a : Acceptor) (active limit : ℕ)
    → Below a active limit
    → Below (signal_acceptor a) active limit
unfolding signal_acceptor
Below-signal (blocked c) active limit h = h
Below-signal accepting active limit h = h
Below-signal _ active limit h = h

done-signal : (a : Acceptor) → a ≡ done → signal_acceptor a ≡ done
unfolding signal_acceptor
done-signal (blocked c) e = absurd (cc)
done-signal done e = refl
done-signal _ e = e

ne_done-signal : (a : Acceptor) → signal_acceptor a ≢ done → a ≢ done
ne_done-signal a h e = h (done-signal a e)

arrive-Counts : (s : Server) (c : Socket) → s.acceptor ≡ accepting → Counts s → Counts (arrive s c)
unfolding arrive over_limit
arrive-Counts s c at h = record {
  balance = ground (arith, h.balance);
  limit = ground arith;
  capacity = ground arith;
}

pub Step-Counts : {s t : Server} → Step s t → IsValid s.pool → Counts s → Counts t
Step-Counts {s} (accept c at up) v h = arrive-Counts s c at h
Step-Counts {s} (admit c at) v h = ground arith
Step-Counts {s} (enqueue c q at e) v h = ground (arith, queued_facts s.pool q c v e)
Step-Counts {s} (block c at e) v h = ground arith
Step-Counts {s} (enqueue_refused c q at e) v h = ground (arith, refused_facts s.pool q c v e)
Step-Counts {s} (reject c at) v h = ground arith
Step-Counts {s} (dequeue c q n i e) v h =
    let f = got_facts s.pool q c v e in
    record {
      balance = λ going.
          omega
            (arith, h.balance (ne_done-signal s.acceptor going), f.2, i, counted-signal s.acceptor);
      limit = λ positive. Below-signal s.acceptor s.active s.max_connections (h.limit positive);
      capacity = λ positive. f.3 ∙ h.capacity positive;
    }
Step-Counts {s} (doze n i e) v h = ground arith
Step-Counts {s} (worker_unsignalled n e) v h = ground arith
Step-Counts {s} (acceptor_unsignalled c at) v h = ground arith
Step-Counts {s} (close c before after e) v h =
    ground (arith, length-append before (c ∷ after), length-append before after)
Step-Counts {s} (leave n e) v h = ground arith
Step-Counts {s} (exit n i e) v h = ground arith
Step-Counts {s} stop v h = ground arith
Step-Counts {s} (leave_loop at) v h = ground arith
Step-Counts {s} (shut_down at) v h = unfold begin_shutdown in ground arith
Step-Counts {s} (finish at i z e l) v h = ground arith

waiting-begin_shutdown : (p : Pool) → waiting (begin_shutdown p) ≡ waiting p
unfolding begin_shutdown
waiting-begin_shutdown p = refl

arrive-Conserved :
    (s : Server) (c : Socket) → s.acceptor ≡ accepting → Conserved s → Conserved (arrive s c)
unfolding arrive
arrive-Conserved s c at h x = ground (arith, h x)

pub Step-Conserved : {s t : Server} → Step s t → IsValid s.pool → Conserved s → Conserved t
Step-Conserved {s} (accept c at up) v h x = arrive-Conserved s c at h x
Step-Conserved {s} (admit c at) v h x = ground (arith, h x)
Step-Conserved {s} (enqueue c q at e) v h x =
    let f = queued_facts s.pool q c v e in
    ground (arith, h x, ap (count x) f.1, count-append x (waiting s.pool) (c ∷ []))
Step-Conserved {s} (block c at e) v h x = ground (arith, h x)
Step-Conserved {s} (enqueue_refused c q at e) v h x =
    let f = refused_facts s.pool q c v e in ground (arith, h x, ap (count x) f.1)
Step-Conserved {s} (reject c at) v h x = ground (arith, h x)
Step-Conserved {s} (dequeue c q n i e) v h x =
    let f = got_facts s.pool q c v e in
    ground (arith, h x, ap (count x) f.1, ap (count x) (in_hand-signal s.acceptor))
Step-Conserved {s} (doze n i e) v h x = h x
Step-Conserved {s} (worker_unsignalled n e) v h x = h x
Step-Conserved {s} (acceptor_unsignalled c at) v h x = ground (arith, h x)
Step-Conserved {s} (close c before after e) v h x =
    omega
      (arith, h x, ap (count x) e, count-append x before (c ∷ after), count-append x before after)
Step-Conserved {s} (leave n e) v h x = h x
Step-Conserved {s} (exit n i e) v h x = h x
Step-Conserved {s} stop v h x = h x
Step-Conserved {s} (leave_loop at) v h x = ground (arith, h x)
Step-Conserved {s} (shut_down at) v h x = ground (arith, h x, waiting-begin_shutdown s.pool)
Step-Conserved {s} (finish at i z e l) v h x =
    unfold drain in
    ground (
      arith,
      h x,
      drain_loop-waiting s.pool.count s.pool v refl,
      count-append x (drain s.pool) s.closed,
    )

-- Every step of every thread keeps the invariant.
pub Step-Invariant : {s t : Server} → Step s t → Invariant s → Invariant t
Step-Invariant st h = record {
  valid = Step-IsValid st h.valid;
  counts = Step-Counts st h.valid h.counts;
  conserved = Step-Conserved st h.valid h.conserved;
}
