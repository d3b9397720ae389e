-- ===== src/Pool/Server/Shutdown.antt =====
-- The shutdown of the server can always be completed, by threads that wake only when they are signalled.
use mnet.Base.{
  ℕ, zero, suc, ◌+◌, ◌*◌, ◌^◌, ◌<◌, ◌≡◌, refl, ap, ◌∙◌, true, false, List, [], ◌∷◌, arith, length,
}
use mnet.Pool.{
  Socket, Push, queued, refused, waits, push, Pop, got, finished, starves, pop, begin_shutdown,
  capacity_for,
}
use mnet.Pool.Queue.{IsValid, Pushed, push-Pushed, begin_shutdown-IsValid}
use mnet.Pool.Take.{Popped, pop-Popped, got_facts}
use mnet.Pool.Server.Defs.{
  Acceptor, accepting, passed, pushing, blocked, rejected, stopped, joining, done, Server,
  signal_acceptor, Step, Reach, next, start, admit, enqueue, enqueue_refused, reject, dequeue,
  worker_unsignalled, acceptor_unsignalled, close, leave, exit, stop, leave_loop, shut_down, finish,
}
use mnet.Pool.Server.Steps.{Step-IsValid}
use mnet.Pool.Server.Safety.{Reach-Invariant, start-Invariant}
use mnet.Pool.Server.Sleepers.{Wakeful, start-Wakeful, Reach-Wakeful}

-- A step that is not a return of mnet_cond_wait without a signal.
abbrev pub IsSignalled : {s t : Server} → Step s t → Type 0
IsSignalled (worker_unsignalled n a) = ⊥
IsSignalled (acceptor_unsignalled c at) = ⊥
IsSignalled _ = Unit

-- Steps lead there, and no wait in them ends without a signal.
pub data Leads (s : Server) : Server → Type 0 where
  at_once : Leads s s
  onward : {t u : Server} → Leads s t → (st : Step t u) → IsSignalled st → Leads s u

Leads-first : {s t u : Server} (st : Step s t) → IsSignalled st → Leads t u → Leads s u
Leads-first st g at_once = onward at_once st g
Leads-first st g (onward r st' g') = onward (Leads-first st g r) st' g'

-- Steps lead to a state in which mnet_pool_shutdown has returned.
abbrev pub Finishes : Server → Type 0
Finishes s = (t : Server) × Leads s t × (t.acceptor ≡ done)

first : {s t : Server} (st : Step s t) → IsSignalled st → Finishes t → Finishes s
first st g (u, r, e) = (u, Leads-first st g r, e)

-- What each step of a worker lowers while the pool is shutting down.
abbrev work : Server → ℕ
work s = 4 * s.pool.count + 3 * length s.serving + 2 * s.leaving + s.idle

record Joining (s : Server) : Type 0 where
  at : s.acceptor ≡ joining
  valid : IsValid s.pool
  down : s.pool.shutting_down ≡ true
  no_sleep : s.asleep ≡ 0

signal-eq_joining : (a : Acceptor) → a ≡ joining → signal_acceptor a ≡ joining
unfolding signal_acceptor
signal-eq_joining (blocked c) e = absurd (cc)
signal-eq_joining joining e = refl
signal-eq_joining _ e = e

signal-eq_pushing : (a : Acceptor) (c : Socket) → a ≡ blocked c → signal_acceptor a ≡ pushing c
unfolding signal_acceptor
signal-eq_pushing (blocked d) c e = cc
signal-eq_pushing accepting c e = absurd (cc)
signal-eq_pushing _ c e = absurd (cc)

-- One step of a worker, or the end, from the steps of a state with less work.
module _ (n : ℕ) (s : Server) (h : work s < suc n) (j : Joining s)
    (again : (t : Server) → work t < n → Joining t → Finishes t) where
  by_pop : (k : ℕ) → s.idle ≡ suc k → (r : Pop) → pop s.pool ≡ r → Popped s.pool r → Finishes s
  by_pop k e (got c q) popped f =
      let facts = got_facts s.pool q c j.valid popped in
      first (dequeue c q k e popped) tt (
        again _ (omega (arith, facts.2, h, e)) (record {
          at = signal-eq_joining s.acceptor j.at;
          valid = f.0;
          down = f.2 ∙ j.down;
          no_sleep = j.no_sleep;
        }))
  by_pop k e finished popped f = first (exit k e popped) tt (
      again _ (omega (arith, h, e))
        (record { at = j.at; valid = j.valid; down = j.down; no_sleep = j.no_sleep }))
  by_pop k e starves popped f = let down = j.down in let up = f.1 in absurd (cc)

  by_idle : (i : ℕ) → s.idle ≡ i → s.serving ≡ [] → s.leaving ≡ 0 → Finishes s
  by_idle zero e served left = (_, onward at_once (finish j.at e j.no_sleep served left) tt, refl)
  by_idle (suc k) e served left = by_pop k e (pop s.pool) refl (pop-Popped s.pool j.valid)

  by_leaving : (l : ℕ) → s.leaving ≡ l → s.serving ≡ [] → Finishes s
  by_leaving zero e served = by_idle s.idle refl served e
  by_leaving (suc k) e served = first (leave k e) tt (
      again _ (omega (arith, h, e))
        (record { at = j.at; valid = j.valid; down = j.down; no_sleep = j.no_sleep }))

  by_serving : (l : List Socket) → s.serving ≡ l → Finishes s
  by_serving [] e = by_leaving s.leaving refl e
  by_serving (c ∷ l) e = first (close c [] l e) tt (
      again _ (omega (arith, h, ap length e))
        (record { at = j.at; valid = j.valid; down = j.down; no_sleep = j.no_sleep }))

joined : (n : ℕ) (s : Server) → work s < n → Joining s → Finishes s
joined zero s h j = absurd (omega arith)
joined (suc n) s h j = by_serving n s h j (joined n) s.serving refl

-- From each place of the accept loop.
from_joining : (s : Server) → Joining s → Finishes s
from_joining s j = joined (suc (work s)) s (omega arith) j

from_stopped : (s : Server) → s.acceptor ≡ stopped → IsValid s.pool → Finishes s
from_stopped s at v = first (shut_down at) tt (
    from_joining _ (record {
      at = refl;
      valid = begin_shutdown-IsValid s.pool v;
      down = unfold begin_shutdown in refl;
      no_sleep = refl;
    }))

from_accepting : (s : Server) → s.acceptor ≡ accepting → IsValid s.pool → Finishes s
from_accepting s at v = first (leave_loop at) tt (from_stopped _ refl v)

from_rejected : (s : Server) (c : Socket) → s.acceptor ≡ rejected c → IsValid s.pool → Finishes s
from_rejected s c at v = first (reject c at) tt (from_stopped _ refl v)

-- When the server has stopped a push does not wait.
from_pushing :
    (s : Server) (c : Socket)
    → s.acceptor ≡ pushing c
    → IsValid s.pool
    → s.pool.running ≡ false
    → Finishes s
from_pushing s c at v down = by_push (push s.pool c) refl (push-Pushed s.pool c v)
  where
    by_push : (r : Push) → push s.pool c ≡ r → Pushed s.pool c r → Finishes s
    by_push (queued q) e f = first (enqueue c q at e) tt (from_accepting _ refl f.0)
    by_push (refused q) e f = first (enqueue_refused c q at e) tt (from_rejected _ c refl f.0)
    by_push waits e f = absurd (cc)

-- The accept loop sleeps on a full queue, and nothing wakes it but a worker that takes a connection.
record Stuck (c : Socket) (s : Server) : Type 0 where
  at : s.acceptor ≡ blocked c
  valid : IsValid s.pool
  some : 0 < s.pool.count
  stopped : s.pool.running ≡ false

blocked_idle : (s : Server) (c : Socket) (k : ℕ) → s.idle ≡ suc k → Stuck c s → Finishes s
blocked_idle s c k e x = by_pop' (pop s.pool) refl (pop-Popped s.pool x.valid)
  where
    by_pop' : (r : Pop) → pop s.pool ≡ r → Popped s.pool r → Finishes s
    by_pop' (got d q) popped f =
        first (dequeue d q k e popped) tt
          (from_pushing _ c (signal-eq_pushing s.acceptor c x.at) f.0 (f.3 ∙ x.stopped))
    by_pop' finished popped f = absurd (omega (arith, f.0, x.some))
    by_pop' starves popped f = absurd (omega (arith, f.0, x.some))

blocked_leaving : (s : Server) (c : Socket) (k : ℕ) → s.leaving ≡ suc k → Stuck c s → Finishes s
blocked_leaving s c k e x = first (leave k e) tt (
    blocked_idle _ c s.idle (omega arith)
      (record { at = x.at; valid = x.valid; some = x.some; stopped = x.stopped }))

blocked_serving :
    (s : Server) (c d : Socket) (l : List Socket) → s.serving ≡ d ∷ l → Stuck c s → Finishes s
blocked_serving s c d l e x = first (close d [] l e) tt (
    blocked_leaving _ c s.leaving (omega arith)
      (record { at = x.at; valid = x.valid; some = x.some; stopped = x.stopped }))

-- Some worker is awake: while one sleeps, as many others are awake as connections wait.
from_blocked :
    (workers : ℕ) (s : Server) (c : Socket)
    → 0 < workers
    → s.acceptor ≡ blocked c
    → IsValid s.pool
    → s.pool.running ≡ false
    → Wakeful workers s
    → Finishes s
from_blocked workers s c positive at v down w = by_idle' s.idle s.leaving s.serving refl refl refl
  where
    stuck : Stuck c s
    stuck = record {
      at = at;
      valid = v;
      some = omega (arith, (w.full c at).0, v.head_in);
      stopped = down;
    }

    by_idle' :
        (i l : ℕ) (served : List Socket)
        → s.idle ≡ i
        → s.leaving ≡ l
        → s.serving ≡ served
        → Finishes s
    by_idle' (suc i) l served e e' e'' = blocked_idle s c i e stuck
    by_idle' zero (suc l) served e e' e'' = blocked_leaving s c l e' stuck
    by_idle' zero zero (d ∷ served) e e' e'' = blocked_serving s c d served e'' stuck
    by_idle' zero zero [] e e' e'' =
        let none_left = w.kept (w.full c at).1 in
        let sleepers : 0 < s.asleep = omega (arith, w.staff, none_left, ap length e'') in
        absurd (omega (arith, w.awake sleepers, stuck.some))

from_stop :
    (workers : ℕ) (a : Acceptor) (s : Server)
    → 0 < workers
    → s.acceptor ≡ a
    → IsValid s.pool
    → s.pool.running ≡ false
    → Wakeful workers s
    → Finishes s
from_stop workers accepting s positive at v down w = from_accepting s at v
from_stop workers (passed c) s positive at v down w =
    first (admit c at) tt (from_pushing _ c refl v down)
from_stop workers (pushing c) s positive at v down w = from_pushing s c at v down
from_stop workers (blocked c) s positive at v down w = from_blocked workers s c positive at v down w
from_stop workers (rejected c) s positive at v down w = from_rejected s c at v
from_stop workers stopped s positive at v down w = from_stopped s at v
from_stop workers joining s positive at v down w =
    from_joining s
      (record { at = at; valid = v; down = (w.closing at).0; no_sleep = (w.closing at).1 })
from_stop workers done s positive at v down w = (s, at_once, at)

-- With at least one worker, from every state that the server comes to, in whatever order its threads ran
-- (a return of mnet_cond_wait without a signal included), steps lead to the end of mnet_pool_shutdown: a
-- stop, the end of the accept loop, and the work that the workers still have. In these steps a thread that
-- sleeps in mnet_cond_wait wakes only by a signal or a broadcast.
pub shutdown-Finishes :
    (slots : List Socket) (max workers : ℕ)
    → max < 2 ^ 31
    → length slots ≡ capacity_for max
    → 0 < workers
    → {s : Server} → Reach (start slots max workers) s
    → (t : Server) × Leads s t × (t.acceptor ≡ done)
shutdown-Finishes slots max workers small allocated positive {s} r =
    let inv = start-Invariant slots max workers small allocated in
    let v = Step-IsValid {s = s} stop (Reach-Invariant inv r).valid in
    let w = Reach-Wakeful workers inv (start-Wakeful slots max workers) (next r stop) in
    first stop tt (from_stop workers s.acceptor _ positive refl v refl w)
