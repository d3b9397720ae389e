-- ===== src/Pool/Tests.antt =====
-- Runs of the pool and of the server, and their theorems at these runs.
use mnet.Base.{◌≤◌, ◌≡◌, ◌≢◌, refl, true, false, List, [], ◌∷◌, arith, length}
use mnet.Pool.{
  Socket, Pool, queued, refused, waits, push, add_tail, got, pop, take_head, drain, drain_loop,
  begin_shutdown, initial, capacity_for,
}
use mnet.Pool.Queue.{IsValid}
use mnet.Pool.Refinement.{Operation, offer, fetch, Reply, run, perform, run-Replies}
use mnet.Pool.Server.Shutdown.{Leads, shutdown-Finishes}
use mnet.Pool.Server.Defs.{
  pushing, done, Server, over_limit, arrive, accept, admit, enqueue, dequeue, close, leave, exit,
  leave_loop, shut_down, finish, signal_acceptor, Step, Reach, here, next, start,
}
use mnet.Pool.Server.Steps.{Invariant, Step-Invariant, count}
use mnet.Pool.Server.Safety.{start-Invariant, active-le-max, push-ne-waits, closed_once}

-- 8, then 9, round the end of the slots
abbrev wrapped : Pool
wrapped = record {
  slots = 9 ∷ 0 ∷ 8 ∷ [];
  capacity = 3;
  head = 2;
  count = 2;
  shutting_down = false;
  running = true;
}

wrapped-IsValid : IsValid wrapped
wrapped-IsValid = omega arith

push-wrapped : push wrapped 7 ≡ queued (record wrapped { slots = 9 ∷ 7 ∷ 8 ∷ []; count = 3 })
unfolding push add_tail
push-wrapped = refl

push_stopped :
    push (record wrapped { count = 3; running = false }) 7
    ≡ refused (record wrapped { count = 3; running = false; shutting_down = true })
unfolding push
push_stopped = refl

pop-wrapped : pop wrapped ≡ got 8 (record wrapped { head = 0; count = 1 })
unfolding pop take_head
pop-wrapped = refl

-- One worker, a limit of two; connection 7 is accepted.
abbrev slots : List Socket
slots = 0 ∷ 0 ∷ []

abbrev ready : Server
ready = start slots 2 1

abbrev at_push : Server
at_push = record {
  pool = record {
    slots = slots;
    capacity = 2;
    head = 0;
    count = 0;
    shutting_down = false;
    running = true;
  };
  max_connections = 2;
  active = 1;
  acceptor = pushing 7;
  idle = 1;
  asleep = 0;
  serving = [];
  leaving = 0;
  exited = 0;
  accepted = 7 ∷ [];
  closed = [];
}

Reach-push : Reach ready at_push
unfolding start initial capacity_for arrive over_limit
Reach-push = next (next here (accept 7 refl refl)) (admit 7 refl)

abbrev at_end : Server
at_end = record at_push {
  pool = record {
    slots = 7 ∷ 0 ∷ [];
    capacity = 2;
    head = 1;
    count = 0;
    shutting_down = true;
    running = true;
  };
  active = 0;
  acceptor = done;
  idle = 0;
  exited = 1;
  closed = 7 ∷ [];
}

Reach-end : Reach ready at_end
unfolding push add_tail pop take_head begin_shutdown drain drain_loop signal_acceptor
Reach-end =
    next
      (next
        (next
          (next
            (next
              (next (next (next Reach-push (enqueue 7 _ refl refl)) (dequeue 7 _ 0 refl refl))
                (close 7 [] [] refl))
              (leave 0 refl))
            (leave_loop refl))
          (shut_down refl))
        (exit 0 refl refl))
      (finish refl refl refl refl refl)

ready_slots : length slots ≡ capacity_for 2
unfolding capacity_for
ready_slots = refl

arrives : Step ready (arrive ready 7)
unfolding start initial
arrives = accept 7 refl refl

Step-Invariant_example : Invariant (arrive ready 7)
Step-Invariant_example =
    Step-Invariant arrives (start-Invariant slots 2 1 (omega arith) ready_slots)

active-le-max_example : at_push.active ≤ 2
active-le-max_example = active-le-max slots 2 1 (omega arith) ready_slots Reach-push (omega arith)

push-ne-waits_example : push at_push.pool 7 ≢ waits
push-ne-waits_example =
    push-ne-waits slots 2 1 (omega arith) ready_slots 7 Reach-push (omega arith) refl

closed_once_example : count 7 at_end.accepted ≡ count 7 at_end.closed
closed_once_example = closed_once slots 2 1 (omega arith) ready_slots 7 Reach-end refl

abbrev operations : List Operation
operations = offer 7 ∷ offer 5 ∷ fetch ∷ Operation.close ∷ offer 6 ∷ fetch ∷ []

run-Replies_example :
    ((run perform operations wrapped).0
      ≡ Reply.accepted
        ∷ Reply.blocked
        ∷ Reply.handed 8
        ∷ Reply.noted
        ∷ Reply.turned_away
        ∷ Reply.handed 9
        ∷ [])
    × (drain (run perform operations wrapped).1 ≡ 7 ∷ [])
run-Replies_example = run-Replies operations wrapped wrapped-IsValid

shutdown-Finishes_example : (t : Server) × Leads at_push t × (t.acceptor ≡ done)
shutdown-Finishes_example =
    shutdown-Finishes slots 2 1 (omega arith) ready_slots (omega arith) Reach-push
