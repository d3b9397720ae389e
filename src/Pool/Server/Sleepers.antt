-- ===== src/Pool/Server/Sleepers.antt =====
-- No wake-up is lost: what holds of the sleeping threads in every state of the server.
use mnet.Base.{
  ℕ, ◌+◌, ◌≤◌, ◌<◌, ◌≡◌, refl, ap, ◌∙◌, sym, subst, true, false, List, ◌∷◌, arith, length,
  length-append,
}
use mnet.Pool.{Socket, Pool, begin_shutdown}
use mnet.Pool.Queue.{IsValid, Pushed, push-Pushed}
use mnet.Pool.Take.{Popped, pop-Popped, got_facts, queued_facts, refused_facts}
use mnet.Pool.Server.Defs.{
  Acceptor, accepting, passed, blocked, joining, Server, signal_acceptor, arrive, Step, Reach, here,
  next, start, accept, admit, enqueue, block, enqueue_refused, reject, dequeue, doze,
  worker_unsignalled, acceptor_unsignalled, close, leave, exit, stop, leave_loop, shut_down, finish,
}
use mnet.Pool.Server.Steps.{Invariant}
use mnet.Pool.Server.Safety.{Reach-Invariant}

pub record Wakeful (workers : ℕ) (s : Server) : Type 0 where
  -- while a worker sleeps, as many others are awake as connections wait
  pub awake : 0 < s.asleep → s.pool.count ≤ s.idle
  pub staff : s.idle + length s.serving + s.leaving + s.asleep + s.exited ≡ workers
  pub kept : s.pool.shutting_down ≡ false → s.exited ≡ 0
  pub closing : s.acceptor ≡ joining → (s.pool.shutting_down ≡ true) × (s.asleep ≡ 0)
  pub full :
      (c : Socket)
      → s.acceptor ≡ blocked c
      → (s.pool.count ≡ s.pool.capacity) × (s.pool.shutting_down ≡ false)

pub start-Wakeful :
    (slots : List Socket) (max workers : ℕ) → Wakeful workers (start slots max workers)
unfolding start
start-Wakeful slots max workers = record {
  awake = ground arith;
  staff = omega arith;
  kept = λ _. refl;
  closing = λ e. absurd (cc);
  full = λ c e. absurd (cc);
}

signal-joining : (a : Acceptor) → signal_acceptor a ≡ joining → a ≡ joining
unfolding signal_acceptor
signal-joining (blocked c) e = absurd (cc)
signal-joining accepting e = e
signal-joining _ e = e

signal-ne_blocked : (a : Acceptor) (c : Socket) → ¬ (signal_acceptor a ≡ blocked c)
unfolding signal_acceptor
signal-ne_blocked (blocked c') c e = cc
signal-ne_blocked accepting c e = cc
signal-ne_blocked (passed c') c e = cc
signal-ne_blocked _ c e = cc

arrive-Wakeful :
    (workers : ℕ) (s : Server) (c : Socket)
    → s.acceptor ≡ accepting
    → Wakeful workers s
    → Wakeful workers (arrive s c)
unfolding arrive
arrive-Wakeful workers s c at h = record {
  awake = ground (arith, h.awake);
  staff = ground (arith, h.staff);
  kept = ground (arith, h.kept);
  closing = λ e. absurd (ground arith);
  full = λ d e. absurd (ground arith);
}

-- Every step of every thread keeps it, a wake-up without a signal included.
module _ (workers : ℕ) where
  pub Step-Wakeful :
      {s t : Server} → Step s t → IsValid s.pool → Wakeful workers s → Wakeful workers t
  Step-Wakeful {s} (accept c at up) v h = arrive-Wakeful workers s c at h
  Step-Wakeful {s} (admit c at) v h = record {
    awake = h.awake;
    staff = h.staff;
    kept = h.kept;
    closing = λ e. absurd (cc);
    full = λ d e. absurd (cc);
  }
  Step-Wakeful {s} (enqueue c q at e) v h =
      let f = subst (Pushed s.pool c) e (push-Pushed s.pool c v) in
      let g = queued_facts s.pool q c v e in
      record {
        awake = λ some. ground (arith, h.awake, g.2);
        staff = ground (arith, h.staff);
        kept = λ up. h.kept f.3;
        closing = λ e'. absurd (cc);
        full = λ d e'. absurd (cc);
      }
  Step-Wakeful {s} (block c at e) v h =
      let f = subst (Pushed s.pool c) e (push-Pushed s.pool c v) in
      record {
        awake = h.awake;
        staff = h.staff;
        kept = h.kept;
        closing = λ e'. absurd (cc);
        full = λ d e'. (f.0, f.1);
      }
  Step-Wakeful {s} (enqueue_refused c q at e) v h =
      let f = subst (Pushed s.pool c) e (push-Pushed s.pool c v) in
      let g = refused_facts s.pool q c v e in
      record {
        awake = λ some. omega (arith, h.awake some, g.2);
        staff = h.staff;
        kept = λ up. absurd (cc);
        closing = λ e'. absurd (cc);
        full = λ d e'. absurd (cc);
      }
  Step-Wakeful {s} (reject c at) v h = record {
    awake = h.awake;
    staff = h.staff;
    kept = h.kept;
    closing = λ e. absurd (cc);
    full = λ d e. absurd (cc);
  }
  Step-Wakeful {s} (dequeue c q n i e) v h =
      let f = subst (Popped s.pool) e (pop-Popped s.pool v) in
      let g = got_facts s.pool q c v e in
      record {
        awake = λ some. omega (arith, h.awake some, g.2, i);
        staff = omega (arith, h.staff, i);
        kept = λ up. h.kept (sym f.2 ∙ up);
        closing = λ e'. let old = h.closing (signal-joining s.acceptor e') in (f.2 ∙ old.0, old.1);
        full = λ d e'. absurd (signal-ne_blocked s.acceptor d e');
      }
  Step-Wakeful {s} (doze n i e) v h =
      let f = subst (Popped s.pool) e (pop-Popped s.pool v) in
      record {
        awake = λ some. omega (arith, f.0);
        staff = omega (arith, h.staff, i);
        kept = h.kept;
        closing = λ e'. let old = (h.closing e').0 in let new = f.1 in absurd (cc);
        full = h.full;
      }
  Step-Wakeful {s} (worker_unsignalled n a) v h = record {
    awake = λ some. omega (arith, h.awake (omega arith));
    staff = omega (arith, h.staff, a);
    kept = h.kept;
    closing = λ e. let old = h.closing e in (old.0, omega (arith, old.1, a));
    full = h.full;
  }
  Step-Wakeful {s} (acceptor_unsignalled c at) v h = record {
    awake = h.awake;
    staff = h.staff;
    kept = h.kept;
    closing = λ e. absurd (cc);
    full = λ d e. absurd (cc);
  }
  Step-Wakeful {s} (close c before after e) v h = record {
    awake = h.awake;
    staff =
        omega (
          arith,
          h.staff,
          ap length e,
          length-append before (c ∷ after),
          length-append before after,
        );
    kept = h.kept;
    closing = h.closing;
    full = h.full;
  }
  Step-Wakeful {s} (leave n l) v h = record {
    awake = λ some. omega (arith, h.awake some);
    staff = omega (arith, h.staff, l);
    kept = h.kept;
    closing = h.closing;
    full = h.full;
  }
  Step-Wakeful {s} (exit n i e) v h =
      let f = subst (Popped s.pool) e (pop-Popped s.pool v) in
      record {
        awake = λ some. omega (arith, f.0);
        staff = omega (arith, h.staff, i);
        kept = λ up. let down = f.1 in absurd (cc);
        closing = h.closing;
        full = h.full;
      }
  Step-Wakeful {s} stop v h = record {
    awake = h.awake;
    staff = h.staff;
    kept = h.kept;
    closing = h.closing;
    full = h.full;
  }
  Step-Wakeful {s} (leave_loop at) v h = record {
    awake = h.awake;
    staff = h.staff;
    kept = h.kept;
    closing = λ e. absurd (cc);
    full = λ d e. absurd (cc);
  }
  Step-Wakeful {s} (shut_down at) v h = record {
    awake = λ some. absurd (omega arith);
    staff = omega (arith, h.staff);
    kept = λ up. let down = down_lem s.pool in absurd (cc);
    closing = λ e. (down_lem s.pool, refl);
    full = λ d e. absurd (cc);
  }
    where
      down_lem : (p : Pool) → (begin_shutdown p).shutting_down ≡ true
      down_lem p = unfold begin_shutdown in refl
  Step-Wakeful {s} (finish at i z l n) v h = record {
    awake = λ some. omega arith;
    staff = h.staff;
    kept = h.kept;
    closing = λ e. absurd (cc);
    full = λ d e. absurd (cc);
  }

  pub Reach-Wakeful :
      {s t : Server} → Invariant s → Wakeful workers s → Reach s t → Wakeful workers t
  Reach-Wakeful inv h here = h
  Reach-Wakeful inv h (next r st) =
      Step-Wakeful st (Reach-Invariant inv r).valid (Reach-Wakeful inv h r)
